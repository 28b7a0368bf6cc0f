-- ===== src/Net/Buffer/Refine.antt =====
-- net/iobuffer.h: a queue of bytes as the abstract specification of IOBuffer.
use sinetlib.Base.{ℕ, ◌+◌, ◌≤◌, ◌≡◌, refl, ◌∙◌, ap, [], ◌∷◌, List, ◌++◌, length, drop, arith, Bytes}
use sinetlib.Net.Buffer.Contents.{append-Appends, readable-retrieve, shrink_lem}
use sinetlib.Net.Buffer.Valid.{
  IsValid, Fits, ensure_writable-HasRoom, retrieve-IsValid, readable_size_lem,
}
use sinetlib.Net.Buffer.{Buffer, readable, retrieve, retrieve_all, ensure_writable, append, shrink}

-- What a client asks of a buffer.
pub data Op : Type 0 where
  appends : Bytes → Op
  retrieves ensures shrinks : ℕ → Op

unfoldable pub apply : Buffer → Op → Buffer
apply b (appends xs) = append b xs
apply b (retrieves n) = retrieve b n
apply b (ensures n) = ensure_writable b n
apply b (shrinks n) = shrink b n

unfoldable pub run : Buffer → List Op → Buffer
run b [] = b
run b (o ∷ os) = run (apply b o) os

-- The queue of bytes: only appending and retrieving are seen.
abbrev pub apply_queue : Bytes → Op → Bytes
apply_queue q (appends xs) = q ++ xs
apply_queue q (retrieves n) = drop n q
apply_queue q (ensures n) = q
apply_queue q (shrinks n) = q

abbrev pub run_queue : Bytes → List Op → Bytes
run_queue q [] = q
run_queue q (o ∷ os) = run_queue (apply_queue q o) os

-- By how much an operation may enlarge the vector.
abbrev pub cost : Op → ℕ
cost (appends xs) = length xs
cost (retrieves n) = 0
cost (ensures n) = n
cost (shrinks n) = n + 1032

abbrev pub total_cost : List Op → ℕ
total_cost [] = 0
total_cost (o ∷ os) = cost o + total_cost os

record Does (b : Buffer) (o : Op) (c : Buffer) : Type 0 where
  valid : IsValid c
  bytes : readable c ≡ apply_queue (readable b) o
  growth : length c.buffer ≤ length b.buffer + cost o

apply-Does : {b : Buffer} (o : Op) → IsValid b → Fits b (cost o) → Does b o (apply b o)
unfolding apply
apply-Does (appends xs) v f =
    let a = append-Appends xs v f in record { valid = a.valid; bytes = a.bytes; growth = a.growth }
apply-Does {b} (retrieves n) v f = record {
  valid = retrieve-IsValid v n;
  bytes = readable-retrieve n v;
  growth = unfold retrieve retrieve_all in ground arith;
}
apply-Does (ensures n) v f =
    let r = ensure_writable-HasRoom v n f in
    record { valid = r.valid; bytes = r.same; growth = r.growth }
apply-Does (shrinks n) v f =
    let (ok, same, size) = shrink_lem n v f in
    record { valid = ok; bytes = same; growth = omega (arith, size, readable_size_lem v) }

-- Any sequence of operations leaves a valid buffer whose readable bytes are those of the queue, as
-- long as the vector with all that is asked for stays below 2^64.
pub run_refines :
    (os : List Op) {b : Buffer}
    → IsValid b
    → Fits b (total_cost os)
    → IsValid (run b os) × (readable (run b os) ≡ run_queue (readable b) os)
unfolding run
run_refines [] v f = (v, refl)
run_refines (o ∷ os) {b} v f =
    let d = apply-Does o v (omega arith) in
    let (ok, same) = run_refines os d.valid (omega (arith, d.growth)) in
    (ok, same ∙ ap (λ q. run_queue q os) d.bytes)
