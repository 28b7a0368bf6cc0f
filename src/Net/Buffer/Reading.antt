-- ===== src/Net/Buffer/Reading.antt =====
-- net/iobuffer.cpp: what ReadFd leaves.
use sinetlib.Base.{
  ℕ, ◌≤◌, ◌<◌, ◌≡◌, refl, ap, ◌∙◌, inl, inr, Bool-cases, ◌++◌, length, take, drop, copy_to,
  length-copy_to, length-drop, take-append-drop, take_all, append_assoc, leb, leb→le, not_leb→lt,
  subst, length-take_le, length-append, Option, none, some, arith, Bytes,
}
use sinetlib.Net.Buffer.Valid.{IsValid, Fits, writable_size_lem}
use sinetlib.Net.Buffer.{
  Buffer, add_size, readable, writable_size, append, ReadResult, failed, received, read_fd,
}
use sinetlib.Net.Buffer.Contents.{Appends, write-Appends, append-Appends}

-- What ReadFd must leave: nothing changed on an error, the delivered bytes at the end otherwise.
abbrev pub Received : Buffer → ReadResult → Buffer × Option ℕ → Type 0
Received b (failed errno) (c, e) = (c ≡ b) × (e ≡ some errno)
Received b (received xs) (c, e) = Appends b xs c × (e ≡ none)

-- The bytes that fit the writable area go there.
filled-Appends :
    {b : Buffer} (xs : Bytes)
    → IsValid b
    → length xs ≤ writable_size b
    → Appends b xs (record b {
      buffer = copy_to b.buffer b.write_index (take (writable_size b) xs);
      write_index = add_size b.write_index (length xs);
    })
filled-Appends {b} xs v h =
    rw (take_all (writable_size b) xs h) (write-Appends v xs (omega (arith, writable_size_lem v)))

-- When more came than the writable area holds, that area is full.
full-Appends :
    {b : Buffer} (xs : Bytes)
    → IsValid b
    → writable_size b < length xs
    → Appends b (take (writable_size b) xs) (record b {
      buffer = copy_to b.buffer b.write_index (take (writable_size b) xs);
      write_index = length b.buffer;
    })
full-Appends {b} xs v h =
    subst
      (λ i. Appends b (take (writable_size b) xs) (record b {
        buffer = copy_to b.buffer b.write_index (take (writable_size b) xs);
        write_index = i;
      }))
      end (write-Appends v (take (writable_size b) xs) (omega (arith, taken, writable_size_lem v)))
  where
    taken : length (take (writable_size b) xs) ≡ writable_size b
    taken = length-take_le (writable_size b) xs (omega arith)

    end : add_size b.write_index (length (take (writable_size b) xs)) ≡ length b.buffer
    end = unfold add_size in omega (arith, taken, writable_size_lem v)

Appends-trans :
    {b c d : Buffer} (xs ys : Bytes) → Appends b xs c → Appends c ys d → Appends b (xs ++ ys) d
Appends-trans {b} xs ys p q = record {
  valid = q.valid;
  bytes = q.bytes ∙ ap (λ zs. zs ++ ys) p.bytes ∙ append_assoc (readable b) xs ys;
  growth = omega (arith, p.growth, q.growth, length-append xs ys);
}

overflow-Appends :
    {b : Buffer} (xs : Bytes)
    → IsValid b
    → writable_size b < length xs
    → Fits b (length xs)
    → Appends b xs (
        append
          (record b {
            buffer = copy_to b.buffer b.write_index (take (writable_size b) xs);
            write_index = length b.buffer;
          })
          (drop (writable_size b) xs))
overflow-Appends {b} xs v h f =
    subst (λ zs. Appends b zs (append full (drop (writable_size b) xs)))
      (take-append-drop (writable_size b) xs)
      (Appends-trans (take (writable_size b) xs) (drop (writable_size b) xs) (full-Appends xs v h) (
        append-Appends (drop (writable_size b) xs) (full-Appends xs v h).valid
          (omega (arith, len, length-drop (writable_size b) xs))))
  where
    full : Buffer
    full = record b {
      buffer = copy_to b.buffer b.write_index (take (writable_size b) xs);
      write_index = length b.buffer;
    }

    len : length full.buffer ≡ length b.buffer
    len = length-copy_to b.buffer b.write_index (take (writable_size b) xs)

-- How many bytes came.
abbrev pub delivered : ReadResult → ℕ
delivered (failed errno) = 0
delivered (received xs) = length xs

-- On a valid buffer that stays below 2^64 bytes, ReadFd puts what the kernel delivered behind the
-- readable bytes, whether or not it fits the writable area; an error changes nothing and is
-- reported.
pub read_fd_lem :
    {b : Buffer} (r : ReadResult) → IsValid b → Fits b (delivered r) → Received b r (read_fd b r)
unfolding read_fd
read_fd_lem (failed errno) v f = (refl, refl)
read_fd_lem {b} (received xs) v f = elim (Bool-cases (leb (length xs) (writable_size b))) [
  | inl all ↦ rw all (filled-Appends xs v (leb→le _ _ all), refl)
  | inr more ↦ rw more (overflow-Appends xs v (not_leb→lt _ _ more) f, refl)
]
