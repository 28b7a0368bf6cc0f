-- ===== src/Http/RouteTests.antt =====
-- The theorem on http/matcher.cpp at a concrete pattern.
use sinetlib.Base.{◌≡◌, refl, true, none, some, List, [], ◌∷◌, codes, arith}
use sinetlib.Http.Matcher.Braces.{Piece, ArePieces, pattern_of, regexp_of, names_of}
use sinetlib.Http.Matcher.Pieces.{new_matcher-pieces}
use sinetlib.Http.Matcher.{type_path, new_matcher}
use sinetlib.Net.Buffer.{find_byte}

-- The pattern `/u{a:z+}/{b}`.
abbrev some_pieces : List Piece
some_pieces =
    record { before = codes "/u"; name = codes "a"; regexp = some (codes "z+") }
    ∷ record { before = codes "/"; name = codes "b"; regexp = none }
    ∷ []

some_pieces-ArePieces : ArePieces some_pieces
unfolding find_byte
some_pieces-ArePieces = (
  record {
    plain_before = (omega arith, omega arith, (omega arith, omega arith, tt));
    plain_inside = (
      omega arith,
      omega arith,
      (omega arith, omega arith, (omega arith, omega arith, (omega arith, omega arith, tt))),
    );
    no_colon = refl;
  },
  (
    record {
      plain_before = (omega arith, omega arith, tt);
      plain_inside = (omega arith, omega arith, tt);
      no_colon = refl;
    },
    tt,
  ),
)

new_matcher-pieces_example : new_matcher (pattern_of some_pieces []) type_path [] ≡ record {
  is_valid = true;
  regexp_type = type_path;
  key = [];
  regexp_pattern = regexp_of some_pieces [];
  regexp_names = names_of some_pieces;
}
new_matcher-pieces_example = new_matcher-pieces some_pieces [] type_path [] some_pieces-ArePieces tt
