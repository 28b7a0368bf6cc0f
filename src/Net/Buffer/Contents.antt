-- ===== src/Net/Buffer/Contents.antt =====
-- net/iobuffer.h and net/iobuffer.cpp: the readable bytes behind each operation.
use sinetlib.Base.{
  ℕ, ◌+◌, ◌-◌, ◌≤◌, ◌≡◌, refl, sym, ap, ◌∙◌, inl, inr, false, Bool-cases, [], ◌++◌, length, drop,
  slice, copy_to, length-copy_to, slice-copy_to, slice-copy_to_front, drop-slice, slice_none,
  drop_all, ltb, tests, some, arith, Bytes,
}
use sinetlib.Net.Buffer.Valid.{
  IsValid, Fits, HasRoom, readable_size_lem, writable_size_lem, length-readable,
  ensure_writable-HasRoom, new-IsValid,
}
use sinetlib.Net.Buffer.{
  Buffer, add_size, new, swap, readable, readable_size, writable_size, retrieve, retrieve_all,
  retrieve_as_string, retrieve_all_as_string, ensure_writable, append, prepend, shrink,
  initial_size,
}

-- On a valid buffer, retrieving n bytes drops them from the front; asking for more than there are
-- empties the buffer.
pub readable-retrieve :
    {b : Buffer} (n : ℕ) → IsValid b → readable (retrieve b n) ≡ drop n (readable b)
unfolding retrieve
readable-retrieve {b} n v = elim (Bool-cases (ltb n (readable_size b))) [
  | inl less ↦ rw less (
      unfold readable in
      sym (
        drop-slice b.buffer b.read_index b.write_index n (add_size b.read_index n)
          (unfold add_size in omega (tests, readable_size_lem v))))
  | inr all ↦
      rw all (unfold retrieve_all readable in slice_none b.buffer 8)
      ∙ sym (drop_all n (readable b) (omega (tests, length-readable v)))
]

-- `c` is `b` with the bytes put behind its readable area.
pub record Appends (b : Buffer) (xs : Bytes) (c : Buffer) : Type 0 where
  pub valid : IsValid c
  pub bytes : readable c ≡ readable b ++ xs
  pub growth : length c.buffer ≤ length b.buffer + length xs

module _ {b : Buffer} (v : IsValid b) where
  -- Writing behind the readable area, where there is room.
  pub write-Appends :
      (xs : Bytes)
      → b.write_index + length xs ≤ length b.buffer
      → Appends b xs (record b {
        buffer = copy_to b.buffer b.write_index xs;
        write_index = add_size b.write_index (length xs);
      })
  unfolding add_size readable
  write-Appends xs h = record {
    valid = record {
      ordered = omega arith;
      inside = omega (arith, len);
      room = omega (arith, len);
      no_wrap = omega (arith, len);
    };
    bytes =
        slice-copy_to b.buffer b.read_index b.write_index _ xs v.ordered (omega arith)
          (omega arith);
    growth = omega (arith, len);
  }
    where
      len : length (copy_to b.buffer b.write_index xs) ≡ length b.buffer
      len = length-copy_to b.buffer b.write_index xs

-- On a valid buffer that stays below 2^64 bytes, Append keeps the invariant and puts exactly the
-- given bytes behind those that were readable.
pub append-Appends :
    {b : Buffer} (xs : Bytes) → IsValid b → Fits b (length xs) → Appends b xs (append b xs)
unfolding append
append-Appends {b} xs v f = record {
  valid = there.valid;
  bytes = there.bytes ∙ ap (λ ys. ys ++ xs) made.same;
  growth = omega (
    arith,
    made.growth,
    length-copy_to (ensure_writable b (length xs)).buffer
        (ensure_writable b (length xs)).write_index xs,
  );
}
  where
    made : HasRoom b (length xs) (ensure_writable b (length xs))
    made = ensure_writable-HasRoom v (length xs) f

    there : Appends (ensure_writable b (length xs)) xs (record (ensure_writable b (length xs)) {
      buffer =
          copy_to
            (ensure_writable b (length xs)).buffer
            (ensure_writable b (length xs)).write_index
            xs;
      write_index = add_size (ensure_writable b (length xs)).write_index (length xs);
    })
    there = write-Appends made.valid xs made.free

-- On a valid buffer whose area in front holds them, Prepend puts the bytes in front of the
-- readable ones and keeps the invariant.
pub prepend_lem :
    {b : Buffer} (xs : Bytes)
    → IsValid b
    → length xs ≤ b.read_index
    → (c : Buffer) × (prepend b xs ≡ some c) × IsValid c × (readable c ≡ xs ++ readable b)
unfolding prepend readable
prepend_lem {b} xs v h = (
  record b {
    buffer = copy_to b.buffer (b.read_index - length xs) xs;
    read_index = b.read_index - length xs;
  },
  rw (holds, prepend) refl,
  record {
    ordered = omega arith;
    inside = omega (arith, len);
    room = omega (arith, len);
    no_wrap = omega (arith, len);
  },
  slice-copy_to_front b.buffer (b.read_index - length xs) b.read_index b.write_index xs
      (omega arith) v.ordered v.inside,
)
  where
    holds : ltb b.read_index (length xs) ≡ false
    holds = ground (arith, h)

    len : length (copy_to b.buffer (b.read_index - length xs) xs) ≡ length b.buffer
    len = length-copy_to b.buffer _ xs

-- Where there is room already, Append leaves the vector's size.
append_in_place :
    {b : Buffer} (xs : Bytes)
    → IsValid b
    → b.write_index + length xs ≤ length b.buffer
    → Appends b xs (append b xs) × (length (append b xs).buffer ≡ length b.buffer)
unfolding append ensure_writable
append_in_place {b} xs v h =
    rw enough (write-Appends v xs h, length-copy_to b.buffer b.write_index xs)
  where
    enough : ltb (writable_size b) (length xs) ≡ false
    enough = ground (arith, writable_size_lem v)

pub readable-new : (n : ℕ) → readable (new n) ≡ []
unfolding readable new
readable-new n = slice_none (new n).buffer 8

-- On a valid buffer with room below 2^64 bytes, Shrink keeps the readable bytes and the invariant,
-- and leaves a vector no larger than a new buffer's, the readable bytes and `reserve` together.
pub shrink_lem :
    {b : Buffer} (reserve : ℕ)
    → IsValid b
    → Fits b (reserve + 1032)
    → IsValid (shrink b reserve)
      × (readable (shrink b reserve) ≡ readable b)
      × (length (shrink b reserve).buffer ≤ 1032 + readable_size b + reserve)
unfolding shrink swap
shrink_lem {b} n v f = (
  put.0.valid,
  put.0.bytes ∙ ap (λ xs. xs ++ readable b) (made.same ∙ readable-new initial_size),
  omega (arith, put.1, made.growth, size, wanted),
)
  where
    size : length (new initial_size).buffer ≡ 1032
    size = unfold new in refl

    wanted : add_size (readable_size b) n ≡ readable_size b + n
    wanted = unfold add_size in omega (arith, readable_size_lem v)

    other : Buffer
    other = ensure_writable (new initial_size) (add_size (readable_size b) n)

    made : HasRoom (new initial_size) (add_size (readable_size b) n) other
    made =
        ensure_writable-HasRoom (new-IsValid initial_size) (add_size (readable_size b) n)
          (omega (arith, size, wanted, readable_size_lem v))

    put :
        Appends other (readable b) (append other (readable b))
        × (length (append other (readable b)).buffer ≡ length other.buffer)
    put =
        append_in_place (readable b) made.valid
          (omega (arith, made.free, wanted, length-readable v))

-- On a valid buffer, RetrieveAllAsString returns all that was readable, and leaves nothing.
pub retrieve_all_as_string_lem :
    {b : Buffer}
    → IsValid b
    → (retrieve_all_as_string b ≡ some (readable b, retrieve_all b))
      × (readable (retrieve_all b) ≡ [])
unfolding retrieve_all_as_string retrieve_as_string retrieve
retrieve_all_as_string_lem {b} v = (
  ground (arith, readable_size_lem v, end),
  unfold readable retrieve_all in slice_none b.buffer 8,
)
  where
    end : slice b.buffer b.read_index (b.read_index + readable_size b) ≡ readable b
    end = unfold readable in ap (slice b.buffer b.read_index) (omega (arith, readable_size_lem v))
