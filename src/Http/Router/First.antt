-- ===== src/Http/Router/First.antt =====
-- http/router.cpp, Router::Match: which route answers a request.
use sinetlib.Base.{
  true, false, Option, none, some, List, [], ◌∷◌, ◌++◌, reverse, ◌≡◌, refl, ap, Bool-cases, inl,
  inr, Bytes, Dict,
}
use sinetlib.Http.Matcher.{Matcher, subject, match, takes_values, insert_matches}
use sinetlib.Http.Request.{HttpRequest}
use sinetlib.Http.Router.{Route, match_all, match_route, match_routes}

module _ (regex_match : Bytes → Bytes → Option (List Bytes)) (q : HttpRequest) where
  -- What the library finds for a matcher in the request.
  abbrev pub found_by : Matcher → Option (List Bytes)
  found_by m = regex_match m.regexp_pattern (subject m q m.regexp_type)

  -- Every matcher's expression is found, or one of them is not.
  pub data Accepts : List Matcher → Type 0 where
    accepts_all : Accepts []
    accepts_next :
        {m : Matcher} {ms : List Matcher} (found : List Bytes)
        → found_by m ≡ some found
        → Accepts ms
        → Accepts (m ∷ ms)

  pub data Rejects : List Matcher → Type 0 where
    rejects_here : {m : Matcher} {ms : List Matcher} → found_by m ≡ none → Rejects (m ∷ ms)
    rejects_later :
        {m : Matcher} {ms : List Matcher} (found : List Bytes)
        → found_by m ≡ some found
        → Rejects ms
        → Rejects (m ∷ ms)

  match-found :
      (m : Matcher) (map : Dict) (found : List Bytes)
      → found_by m ≡ some found
      → (map' : Dict) × (match regex_match m q map ≡ (true, map'))
  unfolding match
  match-found m map found e = elim (Bool-cases (takes_values m.regexp_type)) [
    | inl t ↦ (insert_matches (reverse m.regexp_names) (reverse found) map, rw (e, match, t) refl)
    | inr t ↦ (map, rw (e, match, t) refl)
  ]

  match_all-Accepts :
      (ms : List Matcher) (map : Dict)
      → Accepts ms
      → (map' : Dict) × (match_all regex_match ms q map ≡ (true, map'))
  unfolding match_all
  match_all-Accepts [] map accepts_all = (map, refl)
  match_all-Accepts (m ∷ ms) map (accepts_next found e rest) =
      let (map', a) = match-found m map found e in
      let (last, b) = match_all-Accepts ms map' rest in (last, rw (a, match_all, a, b) refl)

  match_all-Rejects :
      (ms : List Matcher) (map : Dict) → Rejects ms → match_all regex_match ms q map ≡ (false, [])
  unfolding match_all match
  match_all-Rejects [] map h = elim h [ ]
  match_all-Rejects (m ∷ ms) map (rejects_here e) = rw (e, match_all) refl
  match_all-Rejects (m ∷ ms) map (rejects_later found e rest) =
      let (map', a) = match-found m map found e in
      rw (a, match_all, a, match_all-Rejects ms map' rest) refl

  module _ {ℓ} {H : Type ℓ} where
    pub data AllReject : List (Route H) → Type ℓ where
      reject_all : AllReject []
      reject_next :
          {r : Route H} {rs : List (Route H)}
          → Rejects r.matchers
          → AllReject rs
          → AllReject (r ∷ rs)

    -- The router takes the handler of the first route that accepts the request: routes before it,
    -- one of whose matchers fails, are passed over and leave nothing in the map, and routes after
    -- it do not matter.
    pub match_routes-first :
        (before after : List (Route H)) (r : Route H)
        → AllReject before
        → Accepts r.matchers
        → match_routes regex_match (before ++ r ∷ after) q []
          ≡ (r.handler, (match_all regex_match r.matchers q []).1)
    unfolding match_routes match_route
    match_routes-first [] after r reject_all h =
        let (map', e) = match_all-Accepts r.matchers [] h in rw (ap (λ p. p.0) e, match_routes) refl
    match_routes-first (b ∷ bs) after r (reject_next a rest) h =
        rw (match_all-Rejects b.matchers [] a, match_routes, match_all-Rejects b.matchers [] a)
          (match_routes-first bs after r rest h)

    -- A request that every route rejects gets no handler and an empty map.
    pub match_routes-none :
        (rs : List (Route H)) → AllReject rs → match_routes regex_match rs q [] ≡ (none, [])
    unfolding match_routes match_route
    match_routes-none [] reject_all = refl
    match_routes-none (b ∷ bs) (reject_next a rest) =
        rw (match_all-Rejects b.matchers [] a, match_routes, match_all-Rejects b.matchers [] a)
          (match_routes-none bs rest)
