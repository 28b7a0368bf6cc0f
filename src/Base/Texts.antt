-- ===== src/Base/Texts.antt =====
-- Byte strings compared, and `std::unordered_map<std::string, std::string>` as an association list:
-- one entry a key; the order of iteration is not that of the list.
use Prim.Native.Char.{code}
use Prim.Native.Nat.{ℕ}
use Prim.Native.String.{String}
use mathlib.Core.Bool.{Bool, true, false, ◌&&◌}
use mathlib.Core.List.{List, [], ◌∷◌}
use mathlib.Core.Logic.{◌↔◌}
use mathlib.Core.Option.{Option, none, some}
use mathlib.Core.Path.{◌≡◌, refl}
use native.Mathlib.Omega.{arith}
use sinetlib.Base.Tests.{◌==◌, if◌then◌else◌}

-- `char` values are moved and compared; 0 to 255.
abbrev pub Bytes : Type 0
Bytes = List ℕ

-- The code points of a text: its bytes, where it is ASCII.
abbrev pub codes : String → Bytes
codes String.[] = []
codes (String.◌∷◌ c s) = code c ∷ codes s

-- `std::string` operator==.
unfoldable pub equal : Bytes → Bytes → Bool
equal [] (_ ∷ _) = false
equal (_ ∷ _) [] = false
equal [] [] = true
equal (c ∷ left) (d ∷ right) = c == d && equal left right

-- The comparison decides whether two texts are the same.
pub equal_iff : (left right : Bytes) → (equal left right ≡ true) ↔ (left ≡ right)
unfolding equal
equal_iff [] [] = ground arith
equal_iff [] (d ∷ right) = ground arith
equal_iff (c ∷ left) [] = ground arith
equal_iff (c ∷ left) (d ∷ right) = ground (arith, equal_iff left right)

pub equal_refl : (text : Bytes) → equal text text ≡ true
equal_refl text = (equal_iff text text).1 refl

abbrev pub Dict : Type 0
Dict = List (Bytes × Bytes)

-- `find`, and the value found.
unfoldable pub lookup : Bytes → Dict → Option Bytes
lookup field [] = none
lookup field ((name, value) ∷ rest) =
    let later = lookup field rest in if equal name field then some value else later

-- `dict[field] = value`.
unfoldable pub insert : Bytes → Bytes → Dict → Dict
insert field value [] = (field, value) ∷ []
insert field value ((name, old) ∷ rest) =
    let later = insert field value rest in
    if equal name field then (field, value) ∷ rest else (name, old) ∷ later

-- Looking up behind a store: the value stored for that field, what was there for any other.
pub lookup-insert :
    (dict : Dict) (field value other : Bytes)
    → lookup other (insert field value dict)
      ≡ (if equal field other then some value else lookup other dict)
unfolding insert lookup
lookup-insert [] field value other = refl
lookup-insert ((name, old) ∷ rest) field value other = ground (
  lookup-insert rest field value other,
  equal_iff name field,
  equal_iff name other,
  equal_iff field other,
  arith,
)
