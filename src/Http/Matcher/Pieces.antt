-- ===== src/Http/Matcher/Pieces.antt =====
-- http/matcher.cpp: the names and the expression that Init makes of such patterns.

use sinetlib.Base.{
  ℕ, zero, suc, ◌+◌, ◌-◌, ◌≡◌, refl, sym, ap, ap₂, ◌∙◌, true, false, Option, none, some, List, [],
  ◌∷◌, ◌++◌, append_assoc, length, length-append, slice, slice_zero, take-length-append,
  drop-length-append, ltb, Bytes, arith,
}
use sinetlib.Http.Matcher.{RegexpType, name_of, group_of, build, build_names, new_matcher}
use sinetlib.Net.Buffer.Search.{find_byte-cons}
use sinetlib.Net.Buffer.{find_byte}
use sinetlib.Http.Matcher.Braces.{
  IsPlain, Piece, inside_of, inside, ArePieces, pattern_of, group, regexp_of, names_of, first_of,
  last_of, spans, scan-spans,
}

slice-middle :
    (xs ys zs : Bytes) (a b : ℕ)
    → a ≡ length xs
    → b ≡ length xs + length ys
    → slice (xs ++ (ys ++ zs)) a b ≡ ys
slice-middle [] ys zs zero b e f =
    slice_zero (ys ++ zs) b ∙ take-length-append ys zs b (omega (arith, f))
slice-middle [] ys zs (suc a) b e f = absurd (omega arith)
slice-middle (x ∷ xs) ys zs zero b e f = absurd (omega arith)
slice-middle (x ∷ xs) ys zs (suc a) zero e f = absurd (omega arith)
slice-middle (x ∷ xs) ys zs (suc a) (suc b) e f =
    slice-middle xs ys zs a b (omega arith) (omega arith)

find_byte-absent :
    (c : ℕ) (xs ys : Bytes)
    → find_byte c xs ≡ length xs
    → find_byte c ys ≡ length ys
    → find_byte c (xs ++ ys) ≡ length xs + length ys
unfolding find_byte
find_byte-absent c [] ys h k = omega (arith, k)
find_byte-absent c (x ∷ xs) ys h k = ground (arith, find_byte-absent c xs ys)

-- Where the colon of a piece is, from its opening brace on.
colon_at : Bytes → Option Bytes → ℕ
colon_at name none = length name + 2
colon_at name (some regexp) = length name + 1

find_colon :
    (name : Bytes) (regexp : Option Bytes)
    → find_byte b':' name ≡ length name
    → find_byte b':' (b'{' ∷ (inside_of name regexp ++ b'}' ∷ [])) ≡ colon_at name regexp
unfolding find_byte colon_at
find_colon name none h = ground (arith, find_byte-absent b':' name (b'}' ∷ []) h)
find_colon name (some regexp) h =
    rw
      (
        append_assoc name (b':' ∷ regexp) (b'}' ∷ []),
        find_byte-cons b':' name (regexp ++ b'}' ∷ []) h,
      )
      (ground arith)

-- One piece inside a pattern, and what Init makes of it.
module _ (pre name rest : Bytes) (first last : ℕ) (h : find_byte b':' name ≡ length name)
    (e : first ≡ length pre) where
  abbrev whole : Option Bytes → Bytes
  whole regexp = pre ++ b'{' ∷ (inside_of name regexp ++ b'}' ∷ rest)

  abbrev Ends : Option Bytes → Type 0
  Ends regexp = last ≡ length pre + length (inside_of name regexp) + 2

  braced :
      (regexp : Option Bytes)
      → Ends regexp
      → slice (whole regexp) first last ≡ b'{' ∷ (inside_of name regexp ++ b'}' ∷ [])
  braced regexp f =
      ap (λ xs. slice xs first last) parts
      ∙ slice-middle pre (b'{' ∷ (inside_of name regexp ++ b'}' ∷ [])) rest first last e
          (omega (arith, f, length-append (inside_of name regexp) (b'}' ∷ [])))
    where
      parts : whole regexp ≡ pre ++ ((b'{' ∷ (inside_of name regexp ++ b'}' ∷ [])) ++ rest)
      parts =
          ap (λ xs. pre ++ b'{' ∷ xs) (sym (append_assoc (inside_of name regexp) (b'}' ∷ []) rest))

  group-piece :
      (regexp : Option Bytes) → Ends regexp → group_of (whole regexp) first last ≡ group regexp
  unfolding group_of colon_at
  group-piece none f = rw (braced none f, find_colon name none h) (rw miss refl)
    where
      miss : ltb (first + (length name + 2)) last ≡ false
      miss = ground (arith, e, f)
  group-piece (some regexp) f =
      rw (braced (some regexp) f, find_colon name (some regexp) h)
        (rw hit (ap (λ xs. b'(' ∷ (xs ++ b')' ∷ [])) found))
    where
      lengths : length (name ++ b':' ∷ regexp) ≡ length name + length regexp + 1
      lengths = omega (arith, length-append name (b':' ∷ regexp))

      hit : ltb (first + (length name + 1)) last ≡ true
      hit = ground (arith, e, f, lengths)

      parts : whole (some regexp) ≡ (pre ++ b'{' ∷ (name ++ b':' ∷ [])) ++ (regexp ++ b'}' ∷ rest)
      parts = simp append_assoc

      found : slice (whole (some regexp)) (first + (length name + 1) + 1) (last - 1) ≡ regexp
      found =
          ap (λ xs. slice xs (first + (length name + 1) + 1) (last - 1)) parts
          ∙ slice-middle (pre ++ b'{' ∷ (name ++ b':' ∷ [])) regexp (b'}' ∷ rest) _ _
              (omega (
                arith,
                e,
                length-append pre (b'{' ∷ (name ++ b':' ∷ [])),
                length-append name (b':' ∷ []),
              ))
              (omega (
                arith,
                f,
                lengths,
                length-append pre (b'{' ∷ (name ++ b':' ∷ [])),
                length-append name (b':' ∷ []),
              ))

  name-piece : (regexp : Option Bytes) → Ends regexp → name_of (whole regexp) first last ≡ name
  unfolding name_of colon_at
  name-piece none f = rw (braced none f, find_colon name none h) (rw miss found)
    where
      miss : ltb (first + (length name + 2)) last ≡ false
      miss = ground (arith, e, f)

      parts : whole none ≡ (pre ++ b'{' ∷ []) ++ (name ++ b'}' ∷ rest)
      parts = simp append_assoc

      found : slice (whole none) (first + 1) (last - 1) ≡ name
      found =
          ap (λ xs. slice xs (first + 1) (last - 1)) parts
          ∙ slice-middle (pre ++ b'{' ∷ []) name (b'}' ∷ rest) _ _
              (omega (arith, e, length-append pre (b'{' ∷ [])))
              (omega (arith, f, length-append pre (b'{' ∷ [])))
  name-piece (some regexp) f =
      rw (braced (some regexp) f, find_colon name (some regexp) h) (rw hit found)
    where
      lengths : length (name ++ b':' ∷ regexp) ≡ length name + length regexp + 1
      lengths = omega (arith, length-append name (b':' ∷ regexp))

      hit : ltb (first + (length name + 1)) last ≡ true
      hit = ground (arith, e, f, lengths)

      parts : whole (some regexp) ≡ (pre ++ b'{' ∷ []) ++ (name ++ ((b':' ∷ regexp) ++ b'}' ∷ rest))
      parts = simp append_assoc

      found : slice (whole (some regexp)) (first + 1) (first + (length name + 1)) ≡ name
      found =
          ap (λ xs. slice xs (first + 1) (first + (length name + 1))) parts
          ∙ slice-middle (pre ++ b'{' ∷ []) name ((b':' ∷ regexp) ++ b'}' ∷ rest) _ _
              (omega (arith, e, length-append pre (b'{' ∷ [])))
              (omega (arith, e, length-append pre (b'{' ∷ [])))

-- The pattern split behind one piece.
abbrev piece_text : Piece → Bytes
piece_text p = p.before ++ b'{' ∷ (inside p ++ b'}' ∷ [])

length-piece_text :
    (pre : Bytes) (p : Piece) → length (pre ++ piece_text p) ≡ last_of (length pre) p
length-piece_text pre p = omega (
  arith,
  length-append pre (piece_text p),
  length-append p.before (b'{' ∷ (inside p ++ b'}' ∷ [])),
  length-append (inside p) (b'}' ∷ []),
)

build-pieces :
    (ps : List Piece) (last pre : Bytes)
    → ArePieces ps
    → (build (pre ++ pattern_of ps last) (length pre) (spans (length pre) ps) ≡ regexp_of ps last)
      × (build_names (pre ++ pattern_of ps last) (spans (length pre) ps) ≡ names_of ps)
unfolding build build_names
build-pieces [] last pre h = (drop-length-append pre last (length pre) refl, refl)
build-pieces (p ∷ ps) last pre h =
    let rest = build-pieces ps last (pre ++ piece_text p) h.1 in
    (
      ap₂ (◌++◌) text
          (ap₂ (◌++◌) here (ap₂ (λ xs n. build xs n (spans n ps)) behind (sym end) ∙ rest.0)),
      ap₂ (◌∷◌) called (ap₂ (λ xs n. build_names xs (spans n ps)) behind (sym end) ∙ rest.1),
    )
  where
    all : Bytes
    all = pre ++ pattern_of (p ∷ ps) last

    end : length (pre ++ piece_text p) ≡ last_of (length pre) p
    end = length-piece_text pre p

    behind : all ≡ (pre ++ piece_text p) ++ pattern_of ps last
    behind = simp append_assoc

    split : all ≡ (pre ++ p.before) ++ b'{' ∷ (inside p ++ b'}' ∷ pattern_of ps last)
    split = sym (append_assoc pre p.before _)

    text : slice all (length pre) (first_of (length pre) p) ≡ p.before
    text = slice-middle pre p.before _ _ _ refl refl

    first : first_of (length pre) p ≡ length (pre ++ p.before)
    first = omega (arith, length-append pre p.before)

    ends : last_of (length pre) p ≡ length (pre ++ p.before) + length (inside p) + 2
    ends = omega (arith, length-append pre p.before)

    here : group_of all (first_of (length pre) p) (last_of (length pre) p) ≡ group p.regexp
    here =
        ap (λ xs. group_of xs (first_of (length pre) p) (last_of (length pre) p)) split
        ∙ group-piece (pre ++ p.before) p.name (pattern_of ps last) _ _ h.0.no_colon first p.regexp
            ends

    called : name_of all (first_of (length pre) p) (last_of (length pre) p) ≡ p.name
    called =
        ap (λ xs. name_of xs (first_of (length pre) p) (last_of (length pre) p)) split
        ∙ name-piece (pre ++ p.before) p.name (pattern_of ps last) _ _ h.0.no_colon first p.regexp
            ends

-- A pattern of texts with pieces `{name}` or `{name:regexp}` between them, where texts, names and
-- expressions have no braces and names no colon: Init finds it well formed, and makes of it the
-- regular expression in which each piece is replaced by its group, `(regexp)` or `(.*)`, with the
-- names in the same order.
pub new_matcher-pieces :
    (ps : List Piece) (last : Bytes) (regexp_type : RegexpType) (key : Bytes)
    → ArePieces ps
    → IsPlain last
    → new_matcher (pattern_of ps last) regexp_type key ≡ record {
      is_valid = true;
      regexp_type = regexp_type;
      key = key;
      regexp_pattern = regexp_of ps last;
      regexp_names = names_of ps;
    }
unfolding new_matcher
new_matcher-pieces ps last regexp_type key h k =
    let b = build-pieces ps last [] h in
    rw (scan-spans ps last 0 0 [] h k, new_matcher) (rw (b.0, b.1) refl)
