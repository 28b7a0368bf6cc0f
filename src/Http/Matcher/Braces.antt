-- ===== src/Http/Matcher/Braces.antt =====
-- http/matcher.cpp: the first loop of Init, over patterns that are texts with pieces in braces between them.

use sinetlib.Base.{
  ℕ, ◌+◌, ◌≡◌, ◌≢◌, refl, sym, ap, ◌∙◌, false, Option, none, some, List, [], ◌∷◌, ◌++◌,
  append_assoc, append-nil, length, ◌==◌, Bytes, codes, arith,
}
use sinetlib.Http.Matcher.{scan}
use sinetlib.Net.Buffer.{find_byte}

-- A text without braces.
abbrev pub IsPlain : Bytes → Type 0
IsPlain [] = Unit {0}
IsPlain (c ∷ cs) = (c ≢ b'{') × (c ≢ b'}') × IsPlain cs

-- A text, and what stands in the braces behind it: a name, with or without an expression.
pub record Piece : Type 0 where
  pub before : Bytes
  pub name : Bytes
  pub regexp : Option Bytes

abbrev pub inside_of : Bytes → Option Bytes → Bytes
inside_of name none = name
inside_of name (some regexp) = name ++ b':' ∷ regexp

abbrev pub inside : Piece → Bytes
inside p = inside_of p.name p.regexp

-- No text and no expression has a brace, and no name a colon.
pub record IsPiece (p : Piece) : Type 0 where
  pub plain_before : IsPlain p.before
  pub plain_inside : IsPlain (inside p)
  pub no_colon : find_byte b':' p.name ≡ length p.name

abbrev pub ArePieces : List Piece → Type 0
ArePieces [] = Unit {0}
ArePieces (p ∷ ps) = IsPiece p × ArePieces ps

-- The pattern of some pieces and a text behind them.
abbrev pub pattern_of : List Piece → Bytes → Bytes
pattern_of [] last = last
pattern_of (p ∷ ps) last = p.before ++ b'{' ∷ (inside p ++ b'}' ∷ pattern_of ps last)

-- The group that stands for a piece in the regular expression.
abbrev pub group : Option Bytes → Bytes
group none = codes "(.*)"
group (some regexp) = b'(' ∷ (regexp ++ b')' ∷ [])

abbrev pub regexp_of : List Piece → Bytes → Bytes
regexp_of [] last = last
regexp_of (p ∷ ps) last = p.before ++ (group p.regexp ++ regexp_of ps last)

abbrev pub names_of : List Piece → List Bytes
names_of [] = []
names_of (p ∷ ps) = p.name ∷ names_of ps

-- Where the braces of the pieces are, from position i on.
abbrev pub first_of : ℕ → Piece → ℕ
first_of i p = i + length p.before

abbrev pub last_of : ℕ → Piece → ℕ
last_of i p = i + length p.before + length (inside p) + 2

abbrev pub spans : ℕ → List Piece → List (ℕ × ℕ)
spans i [] = []
spans i (p ∷ ps) = (first_of i p, last_of i p) ∷ spans (last_of i p) ps

scan-plain :
    (xs ys : Bytes) (i j level index : ℕ) (indexs : List (ℕ × ℕ))
    → IsPlain xs
    → j ≡ i + length xs
    → scan (xs ++ ys) i level index indexs ≡ scan ys j level index indexs
unfolding scan
scan-plain [] ys i j level index indexs h e =
    ap (λ k. scan ys k level index indexs) (omega (arith, e))
scan-plain (c ∷ cs) ys i j level index indexs h e =
    rw (not_open, not_close) (scan-plain cs ys (i + 1) j level index indexs h.2 (omega (arith, e)))
  where
    not_open : (c == b'{') ≡ false
    not_open = ground (arith, h.0)

    not_close : (c == b'}') ≡ false
    not_close = ground (arith, h.1)

pub scan-spans :
    (ps : List Piece) (last : Bytes) (i index : ℕ) (indexs : List (ℕ × ℕ))
    → ArePieces ps
    → IsPlain last
    → scan (pattern_of ps last) i 0 index indexs ≡ some (indexs ++ spans i ps)
unfolding scan
scan-spans [] last i index indexs h k =
    ap (λ xs. scan xs i 0 index indexs) (sym (append-nil last))
    ∙ scan-plain last [] i (i + length last) 0 index indexs k refl
    ∙ ap some (sym (append-nil indexs))
scan-spans (p ∷ ps) last i index indexs h k =
    scan-plain p.before _ i (first_of i p) 0 index indexs h.0.plain_before refl
    ∙ scan-plain (inside p) (b'}' ∷ pattern_of ps last) (first_of i p + 1)
        (first_of i p + 1 + length (inside p)) 1 (first_of i p) indexs h.0.plain_inside refl
    ∙ ap (λ e. scan (pattern_of ps last) e 0 (first_of i p) (indexs ++ (first_of i p, e) ∷ [])) same
    ∙ scan-spans ps last (last_of i p) (first_of i p) (indexs ++ (first_of i p, last_of i p) ∷ [])
        h.1 k
    ∙ ap some (append_assoc indexs ((first_of i p, last_of i p) ∷ []) (spans (last_of i p) ps))
  where
    same : first_of i p + 1 + length (inside p) + 1 ≡ last_of i p
    same = omega arith
