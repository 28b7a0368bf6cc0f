-- ===== src/Base/Ranges.antt =====
-- A pointer range [first, last) of a vector, writes into it, and `std::find` over a range.
use Prim.Native.Nat.{ℕ, zero, suc, ◌+◌, ◌-◌, ◌≤◌}
use mathlib.Core.List.{List, [], ◌∷◌, ◌++◌}
use mathlib.Core.Path.{◌≡◌, refl, ap}
use native.Mathlib.Omega.{arith}
use sinetlib.Base.Lists.{length, take, drop, replicate, length-replicate}

module _ {ℓ} {A : Type ℓ} where
  -- The elements from position i up to position j.
  abbrev pub slice : List A → ℕ → ℕ → List A
  slice [] i j = []
  slice (x ∷ xs) zero zero = []
  slice (x ∷ xs) zero (suc j) = x ∷ slice xs zero j
  slice (x ∷ xs) (suc i) zero = []
  slice (x ∷ xs) (suc i) (suc j) = slice xs i j

  -- `std::copy` of the values to the vector from position i on; positions past its end stay untouched.
  abbrev pub copy_to : List A → ℕ → List A → List A
  copy_to [] i ys = []
  copy_to (x ∷ xs) zero [] = x ∷ xs
  copy_to (x ∷ xs) zero (y ∷ ys) = y ∷ copy_to xs zero ys
  copy_to (x ∷ xs) (suc i) ys = x ∷ copy_to xs i ys

  -- `vector::resize`: cut off, or filled up with `a`.
  abbrev pub resize : ℕ → A → List A → List A
  resize zero a xs = []
  resize (suc n) a [] = replicate (suc n) a
  resize (suc n) a (x ∷ xs) = x ∷ resize n a xs

module _ {ℓ} {A : Type ℓ} where
  pub slice_none : (xs : List A) (i : ℕ) → slice xs i i ≡ []
  slice_none [] i = refl
  slice_none (x ∷ xs) zero = refl
  slice_none (x ∷ xs) (suc i) = slice_none xs i

  pub slice_zero : (xs : List A) (j : ℕ) → slice xs 0 j ≡ take j xs
  slice_zero [] zero = refl
  slice_zero [] (suc j) = refl
  slice_zero (x ∷ xs) zero = refl
  slice_zero (x ∷ xs) (suc j) = ap (◌∷◌ x) (slice_zero xs j)

  pub length-copy_to : (xs : List A) (i : ℕ) (ys : List A) → length (copy_to xs i ys) ≡ length xs
  length-copy_to [] i ys = refl
  length-copy_to (x ∷ xs) zero [] = refl
  length-copy_to (x ∷ xs) zero (y ∷ ys) = ap suc (length-copy_to xs zero ys)
  length-copy_to (x ∷ xs) (suc i) ys = ap suc (length-copy_to xs i ys)

  pub length-resize : (n : ℕ) (a : A) (xs : List A) → length (resize n a xs) ≡ n
  length-resize zero a xs = refl
  length-resize (suc n) a [] = omega (arith, length-replicate n a)
  length-resize (suc n) a (x ∷ xs) = ap suc (length-resize n a xs)

  pub length-slice : (xs : List A) (i j : ℕ) → j ≤ length xs → length (slice xs i j) ≡ j - i
  length-slice [] i j h = omega arith
  length-slice (x ∷ xs) zero zero h = omega arith
  length-slice (x ∷ xs) zero (suc j) h = omega (arith, length-slice xs zero j)
  length-slice (x ∷ xs) (suc i) zero h = omega arith
  length-slice (x ∷ xs) (suc i) (suc j) h = omega (arith, length-slice xs i j)

  -- Reading less than is there: the range starts later.
  pub drop-slice : (xs : List A) (i j n k : ℕ) → k ≡ i + n → drop n (slice xs i j) ≡ slice xs k j
  drop-slice [] i j zero k e = refl
  drop-slice [] i j (suc n) k e = refl
  drop-slice (x ∷ xs) zero zero zero zero e = refl
  drop-slice (x ∷ xs) zero zero zero (suc k) e = absurd (omega arith)
  drop-slice (x ∷ xs) zero zero (suc n) zero e = absurd (omega arith)
  drop-slice (x ∷ xs) zero zero (suc n) (suc k) e = refl
  drop-slice (x ∷ xs) zero (suc j) zero zero e = refl
  drop-slice (x ∷ xs) zero (suc j) zero (suc k) e = absurd (omega arith)
  drop-slice (x ∷ xs) zero (suc j) (suc n) zero e = absurd (omega arith)
  drop-slice (x ∷ xs) zero (suc j) (suc n) (suc k) e = drop-slice xs zero j n k (omega arith)
  drop-slice (x ∷ xs) (suc i) zero zero zero e = absurd (omega arith)
  drop-slice (x ∷ xs) (suc i) zero zero (suc k) e = refl
  drop-slice (x ∷ xs) (suc i) zero (suc n) zero e = absurd (omega arith)
  drop-slice (x ∷ xs) (suc i) zero (suc n) (suc k) e = refl
  drop-slice (x ∷ xs) (suc i) (suc j) n zero e = absurd (omega arith)
  drop-slice (x ∷ xs) (suc i) (suc j) n (suc k) e = drop-slice xs i j n k (omega arith)

  -- Values written at the end of a range extend it.
  pub slice-copy_to :
      (xs : List A) (i j k : ℕ) (ys : List A)
      → i ≤ j
      → k ≡ j + length ys
      → k ≤ length xs
      → slice (copy_to xs j ys) i k ≡ slice xs i j ++ ys
  slice-copy_to [] i j k [] h e b = refl
  slice-copy_to [] i j k (y ∷ ys) h e b = absurd (omega arith)
  slice-copy_to (x ∷ xs) zero zero zero [] h e b = refl
  slice-copy_to (x ∷ xs) zero zero (suc k) [] h e b = absurd (omega arith)
  slice-copy_to (x ∷ xs) zero zero zero (y ∷ ys) h e b = absurd (omega arith)
  slice-copy_to (x ∷ xs) zero zero (suc k) (y ∷ ys) h e b =
      ap (◌∷◌ y)
        (rest xs (slice-copy_to xs zero zero k ys (omega arith) (omega arith) (omega arith)))
    where
      rest :
          (zs : List A)
          → slice (copy_to zs zero ys) zero k ≡ slice zs zero zero ++ ys
          → slice (copy_to zs zero ys) zero k ≡ ys
      rest [] p = p
      rest (z ∷ zs) p = p
  slice-copy_to (x ∷ xs) zero (suc j) zero ys h e b = absurd (omega arith)
  slice-copy_to (x ∷ xs) zero (suc j) (suc k) ys h e b =
      ap (◌∷◌ x) (slice-copy_to xs zero j k ys (omega arith) (omega arith) (omega arith))
  slice-copy_to (x ∷ xs) (suc i) zero k ys h e b = absurd (omega arith)
  slice-copy_to (x ∷ xs) (suc i) (suc j) zero ys h e b = absurd (omega arith)
  slice-copy_to (x ∷ xs) (suc i) (suc j) (suc k) ys h e b =
      slice-copy_to xs i j k ys (omega arith) (omega arith) (omega arith)

  -- Values written just in front of a range extend it to the left.
  pub slice-copy_to_front :
      (xs : List A) (i j k : ℕ) (ys : List A)
      → j ≡ i + length ys
      → j ≤ k
      → k ≤ length xs
      → slice (copy_to xs i ys) i k ≡ ys ++ slice xs j k
  slice-copy_to_front [] i j k [] e h b = refl
  slice-copy_to_front [] i j k (y ∷ ys) e h b = absurd (omega arith)
  slice-copy_to_front (x ∷ xs) zero zero k [] e h b = refl
  slice-copy_to_front (x ∷ xs) zero (suc j) k [] e h b = absurd (omega arith)
  slice-copy_to_front (x ∷ xs) zero zero k (y ∷ ys) e h b = absurd (omega arith)
  slice-copy_to_front (x ∷ xs) zero (suc j) zero (y ∷ ys) e h b = absurd (omega arith)
  slice-copy_to_front (x ∷ xs) zero (suc j) (suc k) (y ∷ ys) e h b =
      ap (◌∷◌ y) (slice-copy_to_front xs zero j k ys (omega arith) (omega arith) (omega arith))
  slice-copy_to_front (x ∷ xs) (suc i) zero k ys e h b = absurd (omega arith)
  slice-copy_to_front (x ∷ xs) (suc i) (suc j) zero ys e h b = absurd (omega arith)
  slice-copy_to_front (x ∷ xs) (suc i) (suc j) (suc k) ys e h b =
      slice-copy_to_front xs i j k ys (omega arith) (omega arith) (omega arith)

  -- Growing the vector leaves the ranges that were in it.
  pub slice-resize :
      (n : ℕ) (a : A) (xs : List A) (i j : ℕ)
      → j ≤ length xs
      → length xs ≤ n
      → slice (resize n a xs) i j ≡ slice xs i j
  slice-resize zero a [] i j h g = refl
  slice-resize zero a (x ∷ xs) i j h g = absurd (omega arith)
  slice-resize (suc n) a [] zero zero h g = refl
  slice-resize (suc n) a [] (suc i) zero h g = refl
  slice-resize (suc n) a [] i (suc j) h g = absurd (omega arith)
  slice-resize (suc n) a (x ∷ xs) zero zero h g = refl
  slice-resize (suc n) a (x ∷ xs) zero (suc j) h g =
      ap (◌∷◌ x) (slice-resize n a xs zero j (omega arith) (omega arith))
  slice-resize (suc n) a (x ∷ xs) (suc i) zero h g = refl
  slice-resize (suc n) a (x ∷ xs) (suc i) (suc j) h g =
      slice-resize n a xs i j (omega arith) (omega arith)
