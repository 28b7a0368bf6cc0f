-- ===== src/Http/Parser/Stoi.antt =====
-- `std::stoi` in base ten, and the conversion of its `int` to the `size_t` body_length_.
use sinetlib.Base.{
  ℕ, ◌+◌, ◌-◌, ◌*◌, ◌^◌, ◌%◌, Bool, true, false, ◌&&◌, Option, none, some, [], ◌∷◌, leb, ◌==◌,
  if◌then◌else◌, Bytes,
}
use sinetlib.Http.Request.{skip_spaces}

unfoldable pub is_digit : ℕ → Bool
is_digit c = leb b'0' c && leb c b'9'

-- The digits at the front, behind those read before.
unfoldable pub digits_value : ℕ → Bytes → ℕ
digits_value acc [] = acc
digits_value acc (c ∷ cs) =
    let rest = digits_value (acc * 10 + (c - b'0')) cs in if is_digit c then rest else acc

-- `none` is std::invalid_argument or std::out_of_range; a negative number becomes a `size_t`.
unfoldable pub stoi_digits : Bool → Bytes → Option ℕ
stoi_digits negative [] = none
stoi_digits negative (c ∷ cs) =
    let value = digits_value 0 (c ∷ cs) in
    if is_digit c
    then if negative
      then (if leb value (2 ^ 31) then some ((2 ^ 64 - value) % 2 ^ 64) else none)
      else (if leb value (2 ^ 31 - 1) then some value else none)
    else none

unfoldable pub stoi_signed : Bytes → Option ℕ
stoi_signed [] = none
stoi_signed (c ∷ cs) =
    if c == b'-'
    then stoi_digits true cs
    else if c == b'+'
    then stoi_digits false cs
    else stoi_digits false (c ∷ cs)

unfoldable pub stoi_size : Bytes → Option ℕ
stoi_size text = stoi_signed (skip_spaces text)
