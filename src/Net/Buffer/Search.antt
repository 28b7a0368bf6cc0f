-- ===== src/Net/Buffer/Search.antt =====
-- net/iobuffer.h: FindCRLF, FindEOL, and `std::find` of a byte.
use sinetlib.Base.{
  ℕ, zero, suc, ◌+◌, ◌≤◌, ◌<◌, ◌≡◌, refl, ◌≢◌, inl, inr, Bool-cases, ◌&&◌, [], ◌∷◌, ◌++◌, Option,
  none, some, length, take, drop, ap, ◌∙◌, ==_iff, get_elem?, subst, ◌==◌, arith, Bytes,
}
use native.Mathlib.Numerals.{add-one}
use sinetlib.Net.Buffer.{
  Buffer, readable, search_crlf, find_byte, found_before, find_crlf, find_eol,
}

-- A carriage return at position i, and a line feed behind it.
abbrev pub IsCrlf : Bytes → ℕ → Type 0
IsCrlf xs i = (get_elem? xs i ≡ some 13) × (get_elem? xs (suc i) ≡ some 10)

-- A position is found: it is the first.
search_crlf-first : (xs : Bytes) (j : ℕ) → j < search_crlf xs → ¬ IsCrlf xs j
unfolding search_crlf
search_crlf-first [] j h = absurd (omega arith)
search_crlf-first (c ∷ []) zero h = λ e. cc
search_crlf-first (c ∷ []) (suc j) h = absurd (omega arith)
search_crlf-first (c ∷ d ∷ cs) zero h = λ e. ground arith
search_crlf-first (c ∷ d ∷ cs) (suc j) h = ground (arith, search_crlf-first (d ∷ cs) j)

pub search_crlf-le : (xs : Bytes) → search_crlf xs ≤ length xs
unfolding search_crlf
search_crlf-le [] = omega arith
search_crlf-le (c ∷ []) = omega arith
search_crlf-le (c ∷ d ∷ cs) = ground (arith, search_crlf-le (d ∷ cs))

search_crlf-IsCrlf : (xs : Bytes) → search_crlf xs < length xs → IsCrlf xs (search_crlf xs)
unfolding search_crlf
search_crlf-IsCrlf [] h = absurd (omega arith)
search_crlf-IsCrlf (c ∷ []) h = absurd (omega arith)
search_crlf-IsCrlf (c ∷ d ∷ cs) h = elim (Bool-cases (c == 13 && d == 10)) [
  | inl hit ↦ rw hit (ground arith, ground arith)
  | inr miss ↦ rw miss (
      subst (IsCrlf (c ∷ d ∷ cs)) {x = suc (search_crlf (d ∷ cs))} {y = search_crlf (d ∷ cs) + 1}
        (omega arith) (search_crlf-IsCrlf (d ∷ cs) (ground arith)))
]

-- The two bytes of a hit lie inside, and more bytes behind change nothing.
pub search_crlf-inside : (xs : Bytes) → search_crlf xs < length xs → search_crlf xs + 2 ≤ length xs
unfolding search_crlf
search_crlf-inside [] h = absurd (omega arith)
search_crlf-inside (c ∷ []) h = absurd (omega arith)
search_crlf-inside (c ∷ d ∷ cs) h = ground (arith, search_crlf-inside (d ∷ cs))

pub search_crlf-append :
    (xs ys : Bytes) → search_crlf xs < length xs → search_crlf (xs ++ ys) ≡ search_crlf xs
unfolding search_crlf
search_crlf-append [] ys h = absurd (omega arith)
search_crlf-append (c ∷ []) ys h = absurd (omega arith)
search_crlf-append (c ∷ d ∷ cs) ys h = ground (arith, search_crlf-append (d ∷ cs) ys)

-- A line without a carriage return, CR LF, and anything behind.
pub search_crlf-line :
    (line rest : Bytes)
    → find_byte 13 line ≡ length line
    → search_crlf (line ++ 13 ∷ 10 ∷ rest) ≡ length line
unfolding search_crlf find_byte
search_crlf-line [] rest h = refl
search_crlf-line (c ∷ []) rest h = ground arith
search_crlf-line (c ∷ d ∷ cs) rest h = ground (arith, search_crlf-line (d ∷ cs) rest)

pub find_byte-le : (c : ℕ) (xs : Bytes) → find_byte c xs ≤ length xs
unfolding find_byte
find_byte-le c [] = omega arith
find_byte-le c (x ∷ xs) = ground (arith, find_byte-le c xs)

pub find_byte-append :
    (c : ℕ) (xs ys : Bytes) → find_byte c xs < length xs → find_byte c (xs ++ ys) ≡ find_byte c xs
unfolding find_byte
find_byte-append c [] ys h = absurd (omega arith)
find_byte-append c (x ∷ xs) ys h = ground (arith, find_byte-append c xs ys)

-- The first c stands behind a part that has none.
pub find_byte-cons :
    (c : ℕ) (xs ys : Bytes) → find_byte c xs ≡ length xs → find_byte c (xs ++ c ∷ ys) ≡ length xs
unfolding find_byte
find_byte-cons c [] ys h = ground arith
find_byte-cons c (x ∷ xs) ys h = ground (arith, find_byte-cons c xs ys)

-- What a search over the readable bytes may return, for a property of positions: the first position
-- that has it, or `nullptr` where none has it.
abbrev pub FindsFirst : (ℕ → Type 0) → Option ℕ → Type 0
FindsFirst P none = (j : ℕ) → ¬ P j
FindsFirst P (some i) = P i × ((j : ℕ) → j < i → ¬ P j)

get_elem?_lt : (xs : Bytes) (j : ℕ) {x : ℕ} → get_elem? xs j ≡ some x → j < length xs
get_elem?_lt [] j e = absurd (none-ne-some e)
  where
    none-ne-some : {x : ℕ} → ¬ (none ≡ some x)
    none-ne-some e = cc
get_elem?_lt (x ∷ xs) zero e = omega arith
get_elem?_lt (x ∷ xs) (suc j) e = omega (arith, get_elem?_lt xs j e)

-- FindCRLF returns the first CR LF of the readable bytes, and nullptr only if there is none.
pub find_crlf_lem : (b : Buffer) → FindsFirst (IsCrlf (readable b)) (find_crlf b)
unfolding find_crlf found_before
find_crlf_lem b = elim (Bool-cases (search_crlf (readable b) == length (readable b))) [
  | inl end ↦ rw end (λ j hit.
      search_crlf-first (readable b) j (ground (arith, get_elem?_lt (readable b) j hit.0)) hit)
  | inr found ↦ rw found (
    search_crlf-IsCrlf (readable b) (ground (arith, search_crlf-le (readable b))),
    λ j h. search_crlf-first (readable b) j h,
  )
]

find_byte-first : (c : ℕ) (xs : Bytes) (j : ℕ) → j < find_byte c xs → get_elem? xs j ≢ some c
unfolding find_byte
find_byte-first c [] j h = absurd (omega arith)
find_byte-first c (x ∷ xs) zero h = ground arith
find_byte-first c (x ∷ xs) (suc j) h = ground (arith, find_byte-first c xs j)

find_byte-found :
    (c : ℕ) (xs : Bytes) → find_byte c xs < length xs → get_elem? xs (find_byte c xs) ≡ some c
unfolding find_byte
find_byte-found c [] h = absurd (omega arith)
find_byte-found c (x ∷ xs) h = elim (Bool-cases (x == c)) [
  | inl hit ↦ rw hit (ground arith)
  | inr miss ↦ rw miss (
      subst (λ i. get_elem? (x ∷ xs) i ≡ some c) {x = suc (find_byte c xs)} {y = find_byte c xs + 1}
        (omega arith) (find_byte-found c xs (ground arith)))
]

-- FindEOL returns the first line feed of the readable bytes, and nullptr only if there is none.
pub find_eol_lem : (b : Buffer) → FindsFirst (λ i. get_elem? (readable b) i ≡ some 10) (find_eol b)
unfolding find_eol found_before
find_eol_lem b = elim (Bool-cases (find_byte 10 (readable b) == length (readable b))) [
  | inl end ↦ rw end (λ j hit.
      find_byte-first 10 (readable b) j (ground (arith, get_elem?_lt (readable b) j hit)) hit)
  | inr found ↦ rw found (
    find_byte-found 10 (readable b) (ground (arith, find_byte-le 10 (readable b))),
    λ j h. find_byte-first 10 (readable b) j h,
  )
]

-- A range splits at the first c in it.
pub find_byte-splits :
    (c : ℕ) (xs : Bytes)
    → find_byte c xs < length xs
    → xs ≡ take (find_byte c xs) xs ++ c ∷ drop (find_byte c xs + 1) xs
unfolding find_byte
find_byte-splits c [] h = absurd (omega arith)
find_byte-splits c (x ∷ xs) h = elim (Bool-cases (x == c)) [
  | inl hit ↦ rw hit (ap (λ y. y ∷ xs) ((==_iff x c).0 hit))
  | inr miss ↦ rw miss (
      rw (add-one (find_byte c xs), add-one (suc (find_byte c xs)))
        (ap (◌∷◌ x) (find_byte-splits c xs (ground arith) ∙ rw (add-one (find_byte c xs)))))
]

-- The part in front of the first c has none.
pub find_byte-take :
    (c : ℕ) (xs : Bytes)
    → find_byte c (take (find_byte c xs) xs) ≡ length (take (find_byte c xs) xs)
unfolding find_byte
find_byte-take c [] = refl
find_byte-take c (x ∷ xs) = elim (Bool-cases (x == c)) [
  | inl hit ↦ rw hit
  | inr miss ↦
      rw miss (rw (add-one (find_byte c xs)) (rw miss (omega (arith, find_byte-take c xs))))
]

pub drop_behind : (xs ys : Bytes) (c n : ℕ) → n ≡ suc (length xs) → drop n (xs ++ c ∷ ys) ≡ ys
drop_behind xs ys c zero e = absurd (omega arith)
drop_behind [] ys c (suc zero) e = refl
drop_behind [] ys c (suc (suc n)) e = absurd (omega arith)
drop_behind (x ∷ xs) ys c (suc n) e = drop_behind xs ys c n (omega arith)
