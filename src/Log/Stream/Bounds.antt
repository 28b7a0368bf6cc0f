-- ===== src/Log/Stream/Bounds.antt =====
-- log/logstream.h and log/logstream.cpp: what streaming values does to a fixed buffer.
use sinetlib.Base.Int.{magnitude}
use sinetlib.Base.{
  ◌^◌, ◌%◌, ◌≤◌, ◌<◌, ◌≡◌, refl, ◌⊎◌, inl, inr, none, some, List, [], ◌∷◌, ◌++◌, length,
  length-append, Bytes, codes, Bool-cases, leb, ltb, ◌||◌, ◌∙◌, if◌then◌else◌, arith, true, false,
}
use sinetlib.Log.Stream.Decimal.{length-convert-le}
use sinetlib.Log.Stream.{
  FixedBuffer, available, append, format_integer, convert, Value, bool, int, double, char, c_string,
  string, put, put_all, is_negative_int,
}

-- The values that the C++ types allow, and that `snprintf` gives at most 31 characters of.
abbrev pub IsSmall : Value → Type 0
IsSmall (bool v) = Unit {0}
IsSmall (int v) = magnitude v ≤ 2 ^ 63
IsSmall (double text) = length text < 32
IsSmall (char c) = Unit {0}
IsSmall (c_string none) = Unit {0}
IsSmall (c_string (some text)) = length text < 2 ^ 31
IsSmall (string text) = length text < 2 ^ 31

abbrev pub AreSmall : List Value → Type 0
AreSmall [] = Unit {0}
AreSmall (v ∷ vs) = IsSmall v × AreSmall vs

-- The bytes stay inside, with one to spare for the terminator that Convert and `snprintf` write.
abbrev pub Fits : FixedBuffer → Type 0
Fits b = length b.data_ < b.size

-- The text that a value is shown as.
abbrev pub text_of : Value → Bytes
text_of (bool true) = codes "1"
text_of (bool false) = codes "0"
text_of (int v) = convert v
text_of (double text) = text
text_of (char c) = c ∷ []
text_of (c_string none) = codes "(null)"
text_of (c_string (some text)) = text
text_of (string text) = text

-- A text is put whole behind what was there, or left out for want of room.
pub record Puts (b : FixedBuffer) (text : Bytes) (c : FixedBuffer) : Type 0 where
  pub fits : Fits c
  pub size : c.size ≡ b.size
  pub whole_or_none :
      (c.data_ ≡ b.data_ ++ text)
      ⊎ ((c.data_ ≡ b.data_) × ((available b < 32) ⊎ (available b ≤ length text)))

append-Puts :
    (b : FixedBuffer) (text : Bytes) → length text < 2 ^ 31 → Fits b → Puts b text (append b text)
unfolding append
append-Puts b text small f =
    elim (Bool-cases (is_negative_int (length text) || ltb (length text % 2 ^ 32) (available b))) [
      | inl room ↦ rw room (record {
        fits = ground (arith, length-append b.data_ text);
        size = refl;
        whole_or_none = inl refl;
      })
      | inr full ↦
          rw full (record { fits = f; size = refl; whole_or_none = inr (refl, inr (ground arith)) })
    ]

-- A text of less than 32 bytes, where 32 are wanted.
write-Puts :
    (b : FixedBuffer) (text : Bytes)
    → length text < 32
    → Fits b
    → Puts b text (if leb 32 (available b) then record b { data_ = b.data_ ++ text } else b)
write-Puts b text small f = elim (Bool-cases (leb 32 (available b))) [
  | inl room ↦ rw room (record {
    fits = ground (arith, length-append b.data_ text);
    size = refl;
    whole_or_none = inl refl;
  })
  | inr full ↦
      rw full (record { fits = f; size = refl; whole_or_none = inr (refl, inl (ground arith)) })
]

-- A value in the range of its type, or a text of less than 2^31 bytes, or of less than 32 for a
-- double, is put whole behind what was there, with room for the terminator left, or left out for
-- want of room.
pub put-Puts : (b : FixedBuffer) (v : Value) → IsSmall v → Fits b → Puts b (text_of v) (put b v)
unfolding put format_integer
put-Puts b (bool true) s f = append-Puts b (codes "1") (omega arith) f
put-Puts b (bool false) s f = append-Puts b (codes "0") (omega arith) f
put-Puts b (int v) s f = write-Puts b (convert v) (omega (arith, length-convert-le v s)) f
put-Puts b (double text) s f = write-Puts b text s f
put-Puts b (char c) s f = append-Puts b (c ∷ []) (omega arith) f
put-Puts b (c_string none) s f = append-Puts b (codes "(null)") (omega arith) f
put-Puts b (c_string (some text)) s f = append-Puts b text s f
put-Puts b (string text) s f = append-Puts b text s f

-- However many values in the ranges of their types are streamed, the bytes stay inside the array.
pub put_all-Fits :
    (vs : List Value) (b : FixedBuffer)
    → AreSmall vs
    → Fits b
    → Fits (put_all b vs) × ((put_all b vs).size ≡ b.size)
unfolding put_all
put_all-Fits [] b s f = (f, refl)
put_all-Fits (v ∷ vs) b s f =
    let p = put-Puts b v s.0 f in
    let (g, e) = put_all-Fits vs (put b v) s.1 p.fits in (g, e ∙ p.size)
