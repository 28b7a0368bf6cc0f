-- ===== src/Net/Buffer.antt =====
-- net/iobuffer.h and net/iobuffer.cpp: class IOBuffer. A `size_t` wraps at 2^64; a pointer into the
-- readable area is its distance from GetReadablePtr(). `readv` is an argument of `read_fd`.
pub mod Valid
pub mod Contents
pub mod Reading
pub mod Refine
pub mod Search
use sinetlib.Base.{
  ℕ, ◌+◌, ◌-◌, ◌%◌, ◌^◌, Bool, ◌&&◌, Option, none, some, List, [], ◌∷◌, ltb, ◌==◌, leb,
  if◌then◌else◌, length, take, drop, replicate, slice, copy_to, resize, Bytes,
}

-- `size_t` sums and differences.
abbrev pub size_mod : ℕ
size_mod = 2 ^ 64

unfoldable pub add_size : ℕ → ℕ → ℕ
add_size a b = (a + b) % 2 ^ 64

unfoldable pub sub_size : ℕ → ℕ → ℕ
sub_size a b = (a + 2 ^ 64 - b) % 2 ^ 64

pub record Buffer : Type 0 where
  pub buffer : Bytes
  pub read_index : ℕ
  pub write_index : ℕ

abbrev pub prepend_size : ℕ
prepend_size = 8

abbrev pub initial_size : ℕ
initial_size = 1024

-- The constructor; its argument is not used there.
unfoldable pub new : ℕ → Buffer
new size = record {
  buffer = replicate (prepend_size + initial_size) 0;
  read_index = prepend_size;
  write_index = prepend_size;
}

-- `a.Swap(b)`: the new a and the new b.
unfoldable pub swap : Buffer → Buffer → Buffer × Buffer
swap a b = (
  record { buffer = b.buffer; read_index = b.read_index; write_index = b.write_index },
  record { buffer = a.buffer; read_index = a.read_index; write_index = a.write_index },
)

unfoldable pub readable_size : Buffer → ℕ
unfolding sub_size
readable_size b = sub_size b.write_index b.read_index

unfoldable pub writable_size : Buffer → ℕ
unfolding sub_size
writable_size b = sub_size (length b.buffer) b.write_index

unfoldable pub prepended_size : Buffer → ℕ
prepended_size b = b.read_index

-- The bytes from GetReadablePtr() to GetWritablePtr().
unfoldable pub readable : Buffer → Bytes
readable b = slice b.buffer b.read_index b.write_index

-- `std::search` for CR LF; the length of the range where there is none.
unfoldable pub search_crlf : Bytes → ℕ
search_crlf [] = 0
search_crlf (c ∷ []) = 1
search_crlf (c ∷ d ∷ cs) =
    let rest = search_crlf (d ∷ cs) in if c == 13 && d == 10 then 0 else rest + 1

-- `memchr`, or `std::find`: the position of the first `c`, the length where there is none.
unfoldable pub find_byte : ℕ → Bytes → ℕ
find_byte c [] = 0
find_byte c (x ∷ xs) = let rest = find_byte c xs in if x == c then 0 else rest + 1

-- A position, or `nullptr` at the end of a range of n bytes.
unfoldable pub found_before : ℕ → ℕ → Option ℕ
found_before n i = if i == n then none else some i

unfoldable pub find_crlf : Buffer → Option ℕ
unfolding search_crlf readable found_before
find_crlf b = found_before (length (readable b)) (search_crlf (readable b))

unfoldable pub find_crlf_from : Buffer → ℕ → Option ℕ
unfolding search_crlf readable found_before
find_crlf_from b start =
    found_before (length (readable b)) (start + search_crlf (drop start (readable b)))

unfoldable pub find_eol : Buffer → Option ℕ
unfolding find_byte readable found_before
find_eol b = found_before (length (readable b)) (find_byte 10 (readable b))

unfoldable pub find_eol_from : Buffer → ℕ → Option ℕ
unfolding find_byte readable found_before
find_eol_from b start =
    found_before (length (readable b)) (start + find_byte 10 (drop start (readable b)))

unfoldable pub retrieve_all : Buffer → Buffer
retrieve_all b = record b { read_index = prepend_size; write_index = prepend_size }

unfoldable pub retrieve : Buffer → ℕ → Buffer
retrieve b len =
    if ltb len (readable_size b)
    then record b { read_index = add_size b.read_index len }
    else retrieve_all b

unfoldable pub retrieve_until : Buffer → ℕ → Buffer
unfolding retrieve
retrieve_until b end = retrieve b end

-- `none` where the string would be read from beyond the vector.
unfoldable pub retrieve_as_string : Buffer → ℕ → Option (Bytes × Buffer)
unfolding retrieve
retrieve_as_string b len =
    if leb (b.read_index + len) (length b.buffer)
    then some (slice b.buffer b.read_index (b.read_index + len), retrieve b len)
    else none

unfoldable pub retrieve_all_as_string : Buffer → Option (Bytes × Buffer)
unfolding readable_size retrieve_as_string
retrieve_all_as_string b = retrieve_as_string b (readable_size b)

-- `std::copy` to a place at or below its source moves the readable bytes.
unfoldable pub make_space : Buffer → ℕ → Buffer
make_space b len =
    if ltb (add_size (writable_size b) (prepended_size b)) (add_size len prepend_size)
    then record b { buffer = resize (add_size b.write_index len) 0 b.buffer }
    else record b {
      buffer = copy_to b.buffer prepend_size (readable b);
      read_index = prepend_size;
      write_index = add_size prepend_size (readable_size b);
    }

unfoldable pub ensure_writable : Buffer → ℕ → Buffer
ensure_writable b len = if ltb (writable_size b) len then make_space b len else b

unfoldable pub append : Buffer → Bytes → Buffer
append b bytes =
    let c = ensure_writable b (length bytes) in
    record c {
      buffer = copy_to c.buffer c.write_index bytes;
      write_index = add_size c.write_index (length bytes);
    }

-- `none` is a copy to a place in front of the vector.
unfoldable pub prepend : Buffer → Bytes → Option Buffer
prepend b bytes =
    let start = b.read_index - length bytes in
    if ltb b.read_index (length bytes)
    then none
    else some (record b { buffer = copy_to b.buffer start bytes; read_index = start })

unfoldable pub shrink : Buffer → ℕ → Buffer
shrink b reserve =
    let other = ensure_writable (new initial_size) (add_size (readable_size b) reserve) in
    (swap b (append other (readable b))).0

-- What `readv` returned: -1 with errno, or the bytes that it put into the two areas in turn.
pub data ReadResult : Type 0 where
  failed : ℕ → ReadResult
  received : Bytes → ReadResult

abbrev pub extra_size : ℕ
extra_size = 65536

-- How many bytes the areas handed to `readv` hold.
unfoldable pub read_room : Buffer → ℕ
unfolding writable_size
read_room b =
    if ltb (writable_size b) extra_size then writable_size b + extra_size else writable_size b

-- The kernel fills the writable area, then `extra_buf`, whose part is appended.
unfoldable pub read_fd : Buffer → ReadResult → Buffer × Option ℕ
read_fd b (failed errno) = (b, some errno)
read_fd b (received bytes) =
    let writable = writable_size b in
    let filled = record b { buffer = copy_to b.buffer b.write_index (take writable bytes) } in
    if leb (length bytes) writable
    then (record filled { write_index = add_size b.write_index (length bytes) }, none)
    else (append (record filled { write_index = length b.buffer }) (drop writable bytes), none)
