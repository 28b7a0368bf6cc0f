-- ===== src/Http/Parser/Loop.antt =====
-- The loop of ParseRequest over plain bytes: its rounds put together.
use sinetlib.Base.{
  ℕ, zero, suc, ◌+◌, ◌≤◌, ◌<◌, ◌≡◌, refl, ap, ◌∙◌, ◌⊎◌, inl, inr, Option, none, some, length,
  length-drop, Bytes, arith, Option-cases, subst,
}
use sinetlib.Net.Buffer.Search.{search_crlf-le, search_crlf-inside}
use sinetlib.Net.Buffer.{search_crlf, found_before}
use sinetlib.Http.Parser.Input.{bytes_source}
use sinetlib.Http.Parser.{
  Parser, ParseState, request_line, header, body, got_all, Run, Round, again, stop, thrown,
  on_request_line, end_headers, on_header, on_body, round, parse_loop, parse_request,
}

-- Where FindCRLF stands in plain bytes.
abbrev pub crlf_in : Bytes → Option ℕ
crlf_in xs = found_before (length xs) (search_crlf xs)

pub crlf_in-inside :
    (xs : Bytes) (i : ℕ) → crlf_in xs ≡ some i → (i ≡ search_crlf xs) × (i + 2 ≤ length xs)
unfolding found_before
crlf_in-inside xs i e = ground (arith, search_crlf-le xs, search_crlf-inside xs)

-- A round that goes on has taken a line.
abbrev Shrinks : Bytes → Round Bytes → Type 0
Shrinks xs (again q) = length q.buf + 2 ≤ length xs
Shrinks xs (stop q) = Unit {0}
Shrinks xs (thrown q) = Unit {0}

module _ (t : ℕ) where
  round-Shrinks : (s : ParseState) (r : Run Bytes) → Shrinks r.buf (round bytes_source t s r)
  unfolding round on_request_line on_header end_headers on_body
  round-Shrinks request_line r = elim (Option-cases (crlf_in r.buf)) [
    | inl e ↦ rw (e, Shrinks) tt
    | inr (i, e) ↦
        rw (e, Shrinks) (ground (arith, crlf_in-inside r.buf i e, length-drop (i + 2) r.buf))
  ]
  round-Shrinks header r = elim (Option-cases (crlf_in r.buf)) [
    | inl e ↦ rw (e, Shrinks) tt
    | inr (i, e) ↦
        rw (e, Shrinks) (ground (arith, crlf_in-inside r.buf i e, length-drop (i + 2) r.buf))
  ]
  round-Shrinks body r = ground arith
  round-Shrinks got_all r = tt

  -- How the loop ends when it starts at a run: the rounds that go on, then one that does not.
  pub data Ends : Run Bytes → Round Bytes → Type 0 where
    ends_stop : {r l : Run Bytes} → round bytes_source t r.parser.state r ≡ stop l → Ends r (stop l)
    ends_thrown :
        {r l : Run Bytes} → round bytes_source t r.parser.state r ≡ thrown l → Ends r (thrown l)
    ends_later :
        {r q : Run Bytes} {x : Round Bytes}
        → round bytes_source t r.parser.state r ≡ again q
        → Ends q x
        → Ends r x

  Round-cases :
      (x : Round Bytes)
      → ((q : Run Bytes) × (x ≡ again q))
        ⊎ (((l : Run Bytes) × (x ≡ stop l)) ⊎ ((l : Run Bytes) × (x ≡ thrown l)))
  Round-cases (again q) = inl (q, refl)
  Round-cases (stop l) = inr (inl (l, refl))
  Round-cases (thrown l) = inr (inr (l, refl))

  -- With more fuel than bytes the loop ends.
  parse_loop-Ends :
      (fuel : ℕ) (r : Run Bytes)
      → length r.buf < fuel
      → (x : Round Bytes) × (parse_loop bytes_source t fuel r ≡ some x) × Ends r x
  unfolding parse_loop
  parse_loop-Ends zero r h = absurd (omega arith)
  parse_loop-Ends (suc fuel) r h = elim (Round-cases (round bytes_source t r.parser.state r)) [
    | inl (q, e) ↦
        let (x, run, end) = parse_loop-Ends fuel q (shorter q e) in
        (x, rw (e, parse_loop) run, ends_later e end)
    | inr (inl (l, e)) ↦ (stop l, rw (e, parse_loop), ends_stop e)
    | inr (inr (l, e)) ↦ (thrown l, rw (e, parse_loop), ends_thrown e)
  ]
    where
      shorter :
          (q : Run Bytes) → round bytes_source t r.parser.state r ≡ again q → length q.buf < fuel
      shorter q e =
          let s : length q.buf + 2 ≤ length r.buf = rw e at (round-Shrinks r.parser.state r) in
          omega arith

  -- The loop is deterministic.
  pub Ends-unique : {r : Run Bytes} {x y : Round Bytes} → Ends r x → Ends r y → x ≡ y
  Ends-unique (ends_stop e) (ends_stop d) = cc
  Ends-unique (ends_stop e) (ends_thrown d) = cc
  Ends-unique (ends_stop e) (ends_later d n) = cc
  Ends-unique (ends_thrown e) (ends_stop d) = cc
  Ends-unique (ends_thrown e) (ends_thrown d) = cc
  Ends-unique (ends_thrown e) (ends_later d n) = cc
  Ends-unique (ends_later e m) (ends_stop d) = cc
  Ends-unique (ends_later e m) (ends_thrown d) = cc
  Ends-unique {y = y} (ends_later {q = q} e m) (ends_later {q = q'} d n) =
      Ends-unique m (subst (λ z. Ends z y) same n)
    where
      same : q' ≡ q
      same = cc

  -- ParseRequest started on these bytes.
  abbrev pub start : Parser → Bytes → Run Bytes
  start p xs = record { parser = p; buf = xs; ok = none }

  -- ParseRequest returns or throws on every input: the fuel of the model never runs out. What it
  -- computes is what the rounds lead to, and nothing else.
  pub parse_request_total :
      (p : Parser) (xs : Bytes)
      → (x : Round Bytes) × (parse_request bytes_source t p xs ≡ some x) × Ends (start p xs) x
  unfolding parse_request
  parse_request_total p xs = parse_loop-Ends (length xs + 2) (start p xs) (omega arith)

  pub parse_request-eq :
      (p : Parser) (xs : Bytes) {x : Round Bytes}
      → Ends (start p xs) x
      → parse_request bytes_source t p xs ≡ some x
  parse_request-eq p xs {x} e =
      let (y, run, end) = parse_request_total p xs in run ∙ ap some (Ends-unique end e)

  pub Ends-of_eq :
      (p : Parser) (xs : Bytes) {x : Round Bytes}
      → parse_request bytes_source t p xs ≡ some x
      → Ends (start p xs) x
  Ends-of_eq p xs {x} h =
      let (y, run, end) = parse_request_total p xs in
      let same : y ≡ x = cc in subst (Ends (start p xs)) same end
