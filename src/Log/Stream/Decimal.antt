-- ===== src/Log/Stream/Decimal.antt =====
-- log/logstream.cpp, Convert: its decimal text.
use mathlib.Core.List.{reverse-cons, reverse-append}
use native.Mathlib.Nat.{pow-suc}
use sinetlib.Base.Int.{ℤ, pos, negsuc, magnitude, neg, quot, rem}
use sinetlib.Base.{
  ℕ, zero, suc, ◌+◌, ◌-◌, ◌*◌, ◌/◌, ◌%◌, ◌^◌, ◌≤◌, ◌<◌, ◌≡◌, refl, sym, ap, ◌∙◌, true, false, Bool,
  [], ◌∷◌, ◌++◌, reverse, append_assoc, append-nil, length, length-append, Bytes, arith,
  if◌then◌else◌, ltb, ◌==◌, ==_iff, all_below, all_below_sound,
}
use sinetlib.Log.Stream.{digit_at, is_zero, convert_loop, convert}

-- The decimal digits of a number, the last first.
abbrev pub digits_back : ℕ → ℕ → Bytes
digits_back zero n = []
digits_back (suc fuel) n =
    let rest = digits_back fuel (n / 10) in (48 + n % 10) ∷ (if ltb n 10 then [] else rest)

pos_table : all_below 10 (λ d. digit_at (pos d) == 48 + d) ≡ true
unfolding digit_at
pos_table = refl

neg_table : all_below 10 (λ d. digit_at (neg d) == 48 + d) ≡ true
unfolding digit_at
neg_table = refl

digit_at-pos : (d : ℕ) → d < 10 → digit_at (pos d) ≡ 48 + d
digit_at-pos d h =
    (==_iff _ _).0 (all_below_sound 10 (λ x. digit_at (pos x) == 48 + x) d pos_table h)

digit_at-neg : (d : ℕ) → d < 10 → digit_at (neg d) ≡ 48 + d
digit_at-neg d h =
    (==_iff _ _).0 (all_below_sound 10 (λ x. digit_at (neg x) == 48 + x) d neg_table h)

quot-neg : (n : ℕ) → quot (neg n) 10 ≡ neg (n / 10)
quot-neg zero = refl
quot-neg (suc n) = refl

rem-neg : (n : ℕ) → rem (neg n) 10 ≡ neg (n % 10)
rem-neg zero = refl
rem-neg (suc n) = refl

-- Whether the loop goes on, told by the number.
is_zero-pos : (n : ℕ) → is_zero (pos (n / 10)) ≡ ltb n 10
is_zero-pos n = go (n / 10) refl
  where
    go : (k : ℕ) → n / 10 ≡ k → is_zero (pos k) ≡ ltb n 10
    go zero e = ground arith
    go (suc k) e = ground arith

is_zero-neg : (n : ℕ) → is_zero (neg n) ≡ is_zero (pos n)
is_zero-neg zero = refl
is_zero-neg (suc n) = refl

convert_loop-pos :
    (fuel n : ℕ) (written : Bytes)
    → convert_loop fuel (pos n) written ≡ written ++ digits_back fuel n
unfolding convert_loop
convert_loop-pos zero n written = sym (append-nil written)
convert_loop-pos (suc fuel) n written =
    rw (is_zero-pos n, digit_at-pos (n % 10) (omega arith), convert_loop-pos fuel (n / 10))
      (ends (ltb n 10))
  where
    ends :
        (b : Bool)
        → (if b
            then written ++ (48 + n % 10) ∷ []
            else (written ++ (48 + n % 10) ∷ []) ++ digits_back fuel (n / 10))
          ≡ written ++ (48 + n % 10) ∷ (if b then [] else digits_back fuel (n / 10))
    ends true = refl
    ends false = append_assoc written ((48 + n % 10) ∷ []) (digits_back fuel (n / 10))

convert_loop-neg :
    (fuel n : ℕ) (written : Bytes)
    → convert_loop fuel (neg n) written ≡ convert_loop fuel (pos n) written
unfolding convert_loop
convert_loop-neg zero n written = refl
convert_loop-neg (suc fuel) n written = rw (
  quot-neg n,
  rem-neg n,
  digit_at-neg (n % 10) (omega arith),
  digit_at-pos (n % 10) (omega arith),
  is_zero-neg (n / 10),
  convert_loop-neg fuel (n / 10),
)

-- Reading decimal digits.
abbrev pub read_digits : ℕ → Bytes → ℕ
read_digits acc [] = acc
read_digits acc (c ∷ cs) = read_digits (acc * 10 + (c - 48)) cs

abbrev pub AreDigits : Bytes → Type 0
AreDigits [] = Unit {0}
AreDigits (c ∷ cs) = (48 ≤ c) × (c < 58) × AreDigits cs

abbrev value_back : Bytes → ℕ
value_back [] = 0
value_back (c ∷ cs) = (c - 48) + 10 * value_back cs

value_back-digits_back : (fuel n : ℕ) → n < fuel → value_back (digits_back fuel n) ≡ n
value_back-digits_back zero n h = absurd (omega arith)
value_back-digits_back (suc fuel) n h = ground (arith, value_back-digits_back fuel (n / 10))

read_digits-append :
    (acc c : ℕ) (xs : Bytes) → read_digits acc (xs ++ c ∷ []) ≡ read_digits acc xs * 10 + (c - 48)
read_digits-append acc c [] = refl
read_digits-append acc c (x ∷ xs) = read_digits-append (acc * 10 + (x - 48)) c xs

read_digits-reverse : (xs : Bytes) → read_digits 0 (reverse xs) ≡ value_back xs
read_digits-reverse [] = refl
read_digits-reverse (x ∷ xs) =
    ap (read_digits 0) (reverse-cons x xs)
    ∙ read_digits-append 0 x (reverse xs)
    ∙ omega (arith, read_digits-reverse xs)

digits_back-AreDigits : (fuel n : ℕ) → AreDigits (digits_back fuel n)
digits_back-AreDigits zero n = tt
digits_back-AreDigits (suc fuel) n = ground (arith, digits_back-AreDigits fuel (n / 10))

AreDigits-append : (xs ys : Bytes) → AreDigits xs → AreDigits ys → AreDigits (xs ++ ys)
AreDigits-append [] ys a b = b
AreDigits-append (x ∷ xs) ys a b = (a.0, a.1, AreDigits-append xs ys a.2 b)

AreDigits-reverse : (xs : Bytes) → AreDigits xs → AreDigits (reverse xs)
AreDigits-reverse [] a = tt
AreDigits-reverse (x ∷ xs) a =
    rw (reverse-cons x xs)
      (AreDigits-append (reverse xs) (x ∷ []) (AreDigits-reverse xs a.2) (a.0, a.1, tt))

-- A number below 10 ^ (k + 1) has at most k + 1 digits.
length-digits_back : (k fuel n : ℕ) → n < 10 ^ suc k → length (digits_back fuel n) ≤ suc k
length-digits_back k zero n h = omega arith
length-digits_back zero (suc fuel) n h = ground arith
length-digits_back (suc k) (suc fuel) n h =
    let p : n / 10 < 10 ^ suc k = omega (arith, pow-suc 10 (suc k)) in
    ground (arith, length-digits_back k fuel (n / 10) p)

-- The text of an integer: a '-' if it is negative, then decimal digits.
abbrev pub decimal : ℕ → Bytes
decimal n = reverse (digits_back (suc n) n)

abbrev pub signed_decimal : ℤ → Bytes
signed_decimal (pos n) = decimal n
signed_decimal (negsuc n) = b'-' ∷ decimal (suc n)

convert-signed_decimal : (v : ℤ) → convert v ≡ signed_decimal v
unfolding convert
convert-signed_decimal (pos n) = ap reverse (convert_loop-pos (suc n) n [])
convert-signed_decimal (negsuc n) =
    ap (λ xs. reverse (xs ++ b'-' ∷ []))
      (convert_loop-neg (suc (suc n)) (suc n) [] ∙ convert_loop-pos (suc (suc n)) (suc n) [])
    ∙ reverse-append (digits_back (suc (suc n)) (suc n)) (b'-' ∷ [])

-- An integer that such a text stands for.
abbrev pub Reads : Bytes → ℤ → Type 0
Reads xs (pos n) = AreDigits xs × (read_digits 0 xs ≡ n)
Reads [] (negsuc n) = ⊥
Reads (c ∷ xs) (negsuc n) = (c ≡ b'-') × AreDigits xs × (read_digits 0 xs ≡ suc n)

decimal-Reads : (n : ℕ) → Reads (decimal n) (pos n)
decimal-Reads n = (
  AreDigits-reverse (digits_back (suc n) n) (digits_back-AreDigits (suc n) n),
  read_digits-reverse (digits_back (suc n) n) ∙ value_back-digits_back (suc n) n (omega arith),
)

-- Convert's text reads back as the integer, of any size and either sign.
pub convert-Reads : (v : ℤ) → Reads (convert v) v
convert-Reads (pos n) = rw (convert-signed_decimal (pos n)) (decimal-Reads n)
convert-Reads (negsuc n) =
    let (d, e) = decimal-Reads (suc n) in rw (convert-signed_decimal (negsuc n)) (refl, d, e)

length-reverse : (xs : Bytes) → length (reverse xs) ≡ length xs
length-reverse [] = refl
length-reverse (x ∷ xs) =
    ap length (reverse-cons x xs)
    ∙ omega (arith, length-append (reverse xs) (x ∷ []), length-reverse xs)

-- An integer of at most 2^63 in size, as every 64-bit one is, takes 20 characters at most.
pub length-convert-le : (v : ℤ) → magnitude v ≤ 2 ^ 63 → length (convert v) ≤ 20
length-convert-le (pos n) h = rw (convert-signed_decimal (pos n)) (
    omega (
      arith,
      length-reverse (digits_back (suc n) n),
      length-digits_back 18 (suc n) n (omega arith),
    ))
length-convert-le (negsuc n) h = rw (convert-signed_decimal (negsuc n)) (
    omega (
      arith,
      length-reverse (digits_back (suc (suc n)) (suc n)),
      length-digits_back 18 (suc (suc n)) (suc n) (omega arith),
    ))
