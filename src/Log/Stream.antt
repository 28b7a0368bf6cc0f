-- ===== src/Log/Stream.antt =====
-- log/logstream.h and log/logstream.cpp: class Buffer<SIZE>, Convert and class LogStream. Text is its
-- bytes; `snprintf` of a `double` is an argument.
pub mod Decimal
pub mod Bounds
use sinetlib.Base.Int.{ℤ, pos, negsuc, magnitude, quot, rem}
use sinetlib.Base.{
  ℕ, zero, suc, ◌+◌, ◌-◌, ◌*◌, ◌^◌, ◌%◌, Bool, true, false, ◌||◌, Option, none, some, List, [], ◌∷◌,
  ◌++◌, reverse, ltb, leb, if◌then◌else◌, length, get_elem?, Bytes, codes,
}

abbrev pub small_buffer_size : ℕ
small_buffer_size = 1024

abbrev pub large_buffer_size : ℕ
large_buffer_size = 1024 * 1000

-- Buffer<SIZE>: the bytes from data_ up to cur_, in an array of `size` bytes.
pub record FixedBuffer : Type 0 where
  pub size : ℕ
  pub data_ : Bytes

-- The constructor.
abbrev pub new_buffer : ℕ → FixedBuffer
new_buffer size = record { size = size; data_ = [] }

abbrev pub available : FixedBuffer → ℕ
available b = b.size - length b.data_

-- `static_cast<int>(len)` is negative.
abbrev pub is_negative_int : ℕ → Bool
is_negative_int len = leb (2 ^ 31) (len % 2 ^ 32)

-- A text that does not fit is left out whole.
unfoldable pub append : FixedBuffer → Bytes → FixedBuffer
append b text =
    if is_negative_int (length text) || ltb (length text % 2 ^ 32) (available b)
    then record b { data_ = b.data_ ++ text }
    else b

unfoldable pub reset : FixedBuffer → FixedBuffer
reset b = record b { data_ = [] }

-- The table `digits` seen from `zero`, its tenth character: indices from -9 to 9.
abbrev pub digits : Bytes
digits = codes "9876543210123456789"

abbrev pub from_zero : ℤ → ℕ
from_zero (pos d) = 9 + d
from_zero (negsuc d) = 8 - d

unfoldable pub digit_at : ℤ → ℕ
digit_at lsd = elim (get_elem? digits (from_zero lsd)) [ none ↦ 0 | some c ↦ c ]

abbrev pub is_zero : ℤ → Bool
is_zero (pos zero) = true
is_zero _ = false

abbrev pub is_negative : ℤ → Bool
is_negative (pos n) = false
is_negative (negsuc n) = true

-- The `do … while` loop of Convert: the digits from the last to the first, behind those written.
unfoldable pub convert_loop : ℕ → ℤ → Bytes → Bytes
convert_loop zero i written = written
convert_loop (suc fuel) i written =
    let next = written ++ digit_at (rem i 10) ∷ [] in
    let rest = convert_loop fuel (quot i 10) next in if is_zero (quot i 10) then next else rest

-- Each round divides by ten, so more rounds than the number's size are never needed.
unfoldable pub convert : ℤ → Bytes
convert value =
    let written = convert_loop (suc (magnitude value)) value [] in
    reverse (if is_negative value then written ++ b'-' ∷ [] else written)

abbrev pub max_numeric_size : ℕ
max_numeric_size = 32

-- FormatInteger: Convert writes to cur_ and AppendComplete moves it.
unfoldable pub format_integer : FixedBuffer → ℤ → FixedBuffer
format_integer b v =
    if leb max_numeric_size (available b) then record b { data_ = b.data_ ++ convert v } else b

-- The values that `operator<<` takes: the integer types are converted alike, and a `double` comes
-- with the text that `snprintf` makes of it.
pub data Value : Type 0 where
  bool : Bool → Value
  int : ℤ → Value
  double : Bytes → Value
  char : ℕ → Value
  c_string : Option Bytes → Value
  string : Bytes → Value

unfoldable pub put : FixedBuffer → Value → FixedBuffer
put b (bool v) = append b (if v then codes "1" else codes "0")
put b (int v) = format_integer b v
put b (double text) =
    if leb max_numeric_size (available b) then record b { data_ = b.data_ ++ text } else b
put b (char c) = append b (c ∷ [])
put b (c_string (some text)) = append b text
put b (c_string none) = append b (codes "(null)")
put b (string text) = append b text

unfoldable pub put_all : FixedBuffer → List Value → FixedBuffer
put_all b [] = b
put_all b (v ∷ vs) = put_all (put b v) vs
