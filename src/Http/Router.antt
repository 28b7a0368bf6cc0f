-- ===== src/Http/Router.antt =====
-- http/route.h, http/route.cpp, http/router.h and http/router.cpp: classes Route and Router. A handler
-- is any value; a route that has none has an empty std::function.
pub mod First
use sinetlib.Base.{
  ℕ, zero, suc, Bool, true, false, Option, none, some, List, [], ◌∷◌, ◌++◌, if◌then◌else◌, Bytes,
  codes, Dict,
}
use sinetlib.Http.Matcher
use sinetlib.Http.Matcher.{
  Matcher, RegexpType, type_method, type_path, type_prefix, type_header, type_query, new_matcher,
}
use sinetlib.Http.Request.{HttpRequest}

pub record Route {ℓ} (H : Type ℓ) : Type ℓ where
  pub handler : Option H
  pub matchers : List Matcher

module _ {ℓ} {H : Type ℓ} where
  unfoldable pub add_regexp_matcher : Route H → Bytes → RegexpType → Bytes → Bool × Route H
  add_regexp_matcher r pattern regexp_type key =
      let m = new_matcher pattern regexp_type key in
      if m.is_valid then (true, record r { matchers = r.matchers ++ m ∷ [] }) else (false, r)

  -- NewRoute: a route without a handler and matchers behind the others.
  unfoldable pub new_route : List (Route H) → List (Route H)
  new_route routes = routes ++ record { handler = none; matchers = [] } ∷ []

  -- A setter called through the pointer that NewRoute returned, to the route at a place.
  unfoldable pub change_route :
      ℕ → (Route H → Option (Route H)) → List (Route H) → Option (List (Route H))
  change_route i set [] = none
  change_route zero set (r ∷ rs) = elim (set r) [ none ↦ none | some q ↦ some (q ∷ rs) ]
  change_route (suc i) set (r ∷ rs) = elim (change_route i set rs) [
    | none ↦ none
    | some qs ↦ some (r ∷ qs)
  ]

  -- `none` is abort().
  abbrev pub or_abort : Bool × Route H → Option (Route H)
  or_abort (true, r) = some r
  or_abort (false, r) = none

  unfoldable pub set_handler : Route H → H → Route H
  set_handler r h = record r { handler = some h }

  unfoldable pub set_path : Route H → Bytes → Option (Route H)
  set_path r pattern = or_abort (add_regexp_matcher r pattern type_path [])

  unfoldable pub set_prefix : Route H → Bytes → Option (Route H)
  set_prefix r pattern =
      or_abort (add_regexp_matcher r (pattern ++ codes "{file_path}") type_prefix [])

  unfoldable pub set_method : Route H → Bytes → Option (Route H)
  set_method r pattern = or_abort (add_regexp_matcher r pattern type_method [])

  unfoldable pub set_header : Route H → Bytes → Bytes → Option (Route H)
  set_header r key value = or_abort (add_regexp_matcher r value type_header key)

  unfoldable pub set_query : Route H → Bytes → Bytes → Option (Route H)
  set_query r key value = or_abort (add_regexp_matcher r value type_query key)

module _ (regex_match : Bytes → Bytes → Option (List Bytes)) where
  -- Route::Match: the map is emptied if a matcher fails.
  unfoldable pub match_all : List Matcher → HttpRequest → Dict → Bool × Dict
  match_all [] q map = (true, map)
  match_all (m ∷ ms) q map =
      let (matched, map') = Matcher.match regex_match m q map in
      elim matched [ true ↦ match_all ms q map' | false ↦ (false, []) ]

  module _ {ℓ} {H : Type ℓ} where
    unfoldable pub match_route : Route H → HttpRequest → Dict → Bool × Dict
    match_route r q map = match_all r.matchers q map

    -- Router::Match: the handler of the first route that matches; `none` is nullptr.
    unfoldable pub match_routes : List (Route H) → HttpRequest → Dict → Option H × Dict
    match_routes [] q map = (none, map)
    match_routes (r ∷ rs) q map =
        let (matched, map') = match_route r q map in
        elim matched [ true ↦ (r.handler, map') | false ↦ match_routes rs q map' ]
