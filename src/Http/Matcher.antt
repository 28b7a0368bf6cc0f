-- ===== src/Http/Matcher.antt =====
-- http/matcher.h and http/matcher.cpp: class Matcher. The regular expressions of the standard library
-- are an argument: what `regex_match` finds, the whole match first, then the groups, for a pattern that
-- the constructor of std::regex accepts; for another Match throws, which is left out.
pub mod Braces
pub mod Pieces
use sinetlib.Base.{
  ℕ, ◌+◌, ◌-◌, Bool, true, false, Option, none, some, List, [], ◌∷◌, ◌++◌, reverse, ltb, ◌==◌,
  if◌then◌else◌, drop, slice, Bytes, codes, Dict, lookup, insert,
}
use sinetlib.Http.Request.{HttpRequest, method_str, get_header, get_query}
use sinetlib.Net.Buffer.{find_byte}

pub data RegexpType : Type 0 where
  type_method type_path type_prefix type_header type_query : RegexpType

pub record Matcher : Type 0 where
  pub is_valid : Bool
  pub regexp_type : RegexpType
  pub key : Bytes
  pub regexp_pattern : Bytes
  pub regexp_names : List Bytes

-- The first loop of Init, at position i: where the outermost braces begin and end, or `none` if they
-- do not pair.
unfoldable pub scan : Bytes → ℕ → ℕ → ℕ → List (ℕ × ℕ) → Option (List (ℕ × ℕ))
scan [] i level index indexs = if level == 0 then some indexs else none
scan (c ∷ cs) i level index indexs =
    let opened = scan cs (i + 1) (level + 1) (if level == 0 then i else index) indexs in
    let closed = scan cs (i + 1) 0 index (indexs ++ (index, i + 1) ∷ []) in
    let inner = scan cs (i + 1) (level - 1) index indexs in
    let other = scan cs (i + 1) level index indexs in
    if c == b'{'
    then opened
    else if c == b'}'
    then (if level == 0 then none else if level == 1 then closed else inner)
    else other

-- What one pair of braces adds to the names and to the expression: `{name:regexp}` or `{name}`.
unfoldable pub name_of : Bytes → ℕ → ℕ → Bytes
name_of pattern first end =
    let j = first + find_byte b':' (slice pattern first end) in
    if ltb j end then slice pattern (first + 1) j else slice pattern (first + 1) (end - 1)

unfoldable pub group_of : Bytes → ℕ → ℕ → Bytes
group_of pattern first end =
    let j = first + find_byte b':' (slice pattern first end) in
    if ltb j end then b'(' ∷ (slice pattern (j + 1) (end - 1) ++ b')' ∷ []) else codes "(.*)"

-- The second loop of Init, behind position `end`, and the rest of the pattern.
unfoldable pub build : Bytes → ℕ → List (ℕ × ℕ) → Bytes
build pattern end [] = drop end pattern
build pattern end ((first, last) ∷ indexs) =
    slice pattern end first ++ (group_of pattern first last ++ build pattern last indexs)

unfoldable pub build_names : Bytes → List (ℕ × ℕ) → List Bytes
build_names pattern [] = []
build_names pattern ((first, last) ∷ indexs) =
    name_of pattern first last ∷ build_names pattern indexs

-- The constructor, with Init.
unfoldable pub new_matcher : Bytes → RegexpType → Bytes → Matcher
new_matcher pattern regexp_type key = elim (scan pattern 0 0 0 []) [
  | none ↦ record {
    is_valid = false;
    regexp_type = regexp_type;
    key = key;
    regexp_pattern = [];
    regexp_names = [];
  }
  | some indexs ↦ record {
    is_valid = true;
    regexp_type = regexp_type;
    key = key;
    regexp_pattern = build pattern 0 indexs;
    regexp_names = build_names pattern indexs;
  }
]

-- `unordered_map::insert` leaves a value that is there.
unfoldable pub insert_new : Bytes → Bytes → Dict → Dict
insert_new k v m = elim (lookup k m) [ none ↦ insert k v m | some w ↦ m ]

-- Names and matches are paired from their ends; both lists come the last first.
unfoldable pub insert_matches : List Bytes → List Bytes → Dict → Dict
insert_matches [] m map = map
insert_matches (name ∷ names) [] map = map
insert_matches (name ∷ names) (value ∷ values) map =
    insert_matches names values (insert_new name value map)

-- The text that a matcher looks at.
unfoldable pub subject : Matcher → HttpRequest → RegexpType → Bytes
subject m r type_method = method_str r.method
subject m r type_path = r.path
subject m r type_prefix = r.path
subject m r type_header = get_header r m.key
subject m r type_query = get_query r m.key

abbrev pub takes_values : RegexpType → Bool
takes_values type_path = true
takes_values type_prefix = true
takes_values _ = false

module _ (regex_match : Bytes → Bytes → Option (List Bytes)) where
  -- Whether the request matches, and the map with the values found in the path.
  unfoldable pub match : Matcher → HttpRequest → Dict → Bool × Dict
  match m r map = elim (regex_match m.regexp_pattern (subject m r m.regexp_type)) [
    | none ↦ (false, map)
    | some found ↦
        if takes_values m.regexp_type
        then (true, insert_matches (reverse m.regexp_names) (reverse found) map)
        else (true, map)
  ]
