-- ===== src/Net/ThreadPool.antt =====
-- net/threadpool.h and net/threadpool.cpp: class ThreadPool. A loop is any value; a LooperThread's
-- GetLoop is an argument, the loop of the i-th thread. `thread_num` is an `int` that is not negative.
use sinetlib.Base.{
  ℕ, zero, suc, ◌+◌, ◌%◌, ◌<◌, ◌≡◌, refl, sym, ap, ◌∙◌, Option, none, some, List, [], ◌∷◌, ◌++◌,
  length, length-append, get_elem?, arith, Bool-cases, inl, inr, ◌==◌,
}
use native.Mathlib.Nat.{mod-lt, mod-add-mod, zero-mod}

pub record ThreadPool {ℓ} (A : Type ℓ) : Type ℓ where
  pub base_loop : A
  pub thread_num : ℕ
  pub next : ℕ
  pub loopers : List A

module _ {ℓ} {A : Type ℓ} where
  -- The constructor.
  unfoldable pub new_pool : A → ℕ → ThreadPool A
  new_pool base n = record { base_loop = base; thread_num = n; next = 0; loopers = [] }

  -- Start: the loops of the threads from i on, n of them.
  unfoldable pub start_loop : (ℕ → A) → ℕ → ℕ → List A → List A
  start_loop get_loop zero i loopers = loopers
  start_loop get_loop (suc n) i loopers = start_loop get_loop n (i + 1) (loopers ++ get_loop i ∷ [])

  unfoldable pub start : (ℕ → A) → ThreadPool A → ThreadPool A
  start get_loop p = record p { loopers = start_loop get_loop p.thread_num 0 p.loopers }

  -- `none` is a read past the end of loopers_.
  unfoldable pub take_out_loop : ThreadPool A → Option (A × ThreadPool A)
  take_out_loop p = elim p.loopers [
    | [] ↦ some (p.base_loop, p)
    | x ∷ xs ↦ elim (get_elem? p.loopers p.next) [
      | none ↦ none
      | some loop ↦ some (loop, record p { next = (p.next + 1) % p.thread_num })
    ]
  ]

  -- So many loops in a row, the first taken first.
  unfoldable pub take_out : ℕ → ThreadPool A → Option (List A)
  take_out zero p = some []
  take_out (suc n) p = elim (take_out_loop p) [
    | none ↦ none
    | some (loop, q) ↦ elim (take_out n q) [ none ↦ none | some loops ↦ some (loop ∷ loops) ]
  ]

  -- Loops 0, 1, … of n in turn, from turn j on.
  abbrev pub in_turn : (ℕ → A) → ℕ → ℕ → ℕ → List A
  in_turn get_loop n j zero = []
  in_turn get_loop n j (suc k) = get_loop (j % n) ∷ in_turn get_loop n (j + 1) k

  get_elem?-append_left :
      (xs ys : List A) (i : ℕ) → i < length xs → get_elem? (xs ++ ys) i ≡ get_elem? xs i
  get_elem?-append_left [] ys i h = absurd (omega arith)
  get_elem?-append_left (x ∷ xs) ys zero h = refl
  get_elem?-append_left (x ∷ xs) ys (suc i) h = get_elem?-append_left xs ys i (omega arith)

  get_elem?-concat :
      (xs : List A) (y : A) (i : ℕ) → i ≡ length xs → get_elem? (xs ++ y ∷ []) i ≡ some y
  get_elem?-concat [] y zero e = refl
  get_elem?-concat [] y (suc i) e = absurd (omega arith)
  get_elem?-concat (x ∷ xs) y zero e = absurd (omega arith)
  get_elem?-concat (x ∷ xs) y (suc i) e = get_elem?-concat xs y i (omega arith)

  -- The loops that Start has put in place so far.
  abbrev Holds : (ℕ → A) → List A → Type ℓ
  Holds get_loop xs = (i : ℕ) → i < length xs → get_elem? xs i ≡ some (get_loop i)

  Holds-concat :
      (get_loop : ℕ → A) (xs : List A)
      → Holds get_loop xs
      → Holds get_loop (xs ++ get_loop (length xs) ∷ [])
  Holds-concat get_loop xs h i k = elim (Bool-cases (i == length xs)) [
    | inl last ↦
        let e : i ≡ length xs = ground arith in
        get_elem?-concat xs (get_loop (length xs)) i e ∙ ap (λ j. some (get_loop j)) (sym e)
    | inr before ↦
        let l : i < length xs = ground (arith, length-append xs (get_loop (length xs) ∷ [])) in
        get_elem?-append_left xs (get_loop (length xs) ∷ []) i l ∙ h i l
  ]

  start_loop-Holds :
      (get_loop : ℕ → A) (n i : ℕ) (xs : List A)
      → i ≡ length xs
      → Holds get_loop xs
      → Holds get_loop (start_loop get_loop n i xs)
        × (length (start_loop get_loop n i xs) ≡ length xs + n)
  unfolding start_loop
  start_loop-Holds get_loop zero i xs e h = (h, omega arith)
  start_loop-Holds get_loop (suc n) i xs e h =
      let grown : Holds get_loop (xs ++ get_loop i ∷ []) = rw e (Holds-concat get_loop xs h) in
      let (a, b) =
        start_loop-Holds get_loop n (i + 1) (xs ++ get_loop i ∷ [])
          (omega (arith, length-append xs (get_loop i ∷ []))) grown in
      (a, omega (arith, b, length-append xs (get_loop i ∷ [])))

  take_out-in_turn :
      (get_loop : ℕ → A) (base : A) (n j next k : ℕ) (x : A) (xs : List A)
      → 0 < n
      → next ≡ j % n
      → length (x ∷ xs) ≡ n
      → Holds get_loop (x ∷ xs)
      → take_out k (record { base_loop = base; thread_num = n; next = next; loopers = x ∷ xs })
        ≡ some (in_turn get_loop n j k)
  unfolding take_out take_out_loop
  take_out-in_turn get_loop base n j next zero x xs pos e l h = refl
  take_out-in_turn get_loop base n j next (suc k) x xs pos e l h =
      let below : j % n < n = mod-lt j pos in
      let at : get_elem? (x ∷ xs) next ≡ some (get_loop next) = h next (rw (e, l) below) in
      let rest =
        take_out-in_turn get_loop base n (j + 1) ((next + 1) % n) k x xs pos
          (rw (e, mod-add-mod j n 1) refl) l h in
      rw (at, take_out, rest, e) refl

  take_out-loopers :
      (get_loop : ℕ → A) (base : A) (n k : ℕ) (xs : List A)
      → 0 < n
      → length xs ≡ n
      → Holds get_loop xs
      → take_out k (record { base_loop = base; thread_num = n; next = 0; loopers = xs })
        ≡ some (in_turn get_loop n 0 k)
  take_out-loopers get_loop base n k [] pos l h = absurd (omega arith)
  take_out-loopers get_loop base n k (x ∷ xs) pos l h =
      take_out-in_turn get_loop base n 0 0 k x xs pos (sym (zero-mod n)) l h

  -- A started pool with n > 0 threads hands out the loops of threads 0, 1, …, n - 1 in turn and then
  -- starts again with 0, however many loops k are taken: no loop is skipped and none is missing.
  pub start-take_out :
      (get_loop : ℕ → A) (base : A) (n k : ℕ)
      → 0 < n
      → take_out k (start get_loop (new_pool base n)) ≡ some (in_turn get_loop n 0 k)
  unfolding start new_pool
  start-take_out get_loop base n k pos =
      let (h, l) = start_loop-Holds get_loop n 0 [] refl (λ i b. absurd (omega (arith, b))) in
      take_out-loopers get_loop base n k (start_loop get_loop n 0 []) pos (omega (arith, l)) h
