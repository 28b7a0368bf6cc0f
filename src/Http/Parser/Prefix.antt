-- ===== src/Http/Parser/Prefix.antt =====
-- http/httpparser.cpp, ParseRequest over the first part of a request, and over what follows it, with
-- the clock at other times.
use sinetlib.Base.{
  ℕ, ◌+◌, ◌≡◌, ◌≢◌, refl, sym, ap, ◌∙◌, ◌⊎◌, inl, inr, some, true, false, [], ◌∷◌, ◌++◌, length,
  take, drop, Bytes, leb, ◌==◌, Bool-cases, Option-cases, codes, subst,
}
use sinetlib.Net.Buffer.{find_byte}
use sinetlib.Http.Parser.Grow.{grow, grow_round, round-Grows}
use sinetlib.Http.Parser.Input.{bytes_source}
use sinetlib.Http.Parser.Loop.{crlf_in, Ends, ends_stop, ends_thrown, ends_later, Ends-unique}
use sinetlib.Http.Parser.Stoi.{stoi_size}
use sinetlib.Http.Parser.{
  ParseState, request_line, header, body, got_all, Run, Round, again, stop, thrown,
  parse_request_line, on_request_line, end_headers, on_header, on_body, round,
}
use sinetlib.Http.Request.{get_header}

append-nil_right : (xs ys : Bytes) → xs ++ ys ≡ [] → ys ≡ []
append-nil_right [] ys e = e
append-nil_right (x ∷ xs) ys e = cc

-- What a round may do to the flag and the state.
abbrev GoesOn : Run Bytes → Round Bytes → Type 0
GoesOn r (again q) =
    (q.parser.state ≢ request_line)
    × ((r.parser.state ≢ request_line) × (q.ok ≡ r.ok)
        ⊎ ((r.parser.state ≡ request_line) × (q.ok ≡ some true)))
GoesOn r (stop l) =
    (l ≡ r)
    ⊎ ((r.parser.state ≡ request_line) × (l.ok ≡ some false)
        ⊎ ((r.parser.state ≢ request_line) × (l.parser.state ≢ request_line) × (l.ok ≡ r.ok)))
GoesOn r (thrown l) = Unit {0}

header-ne : header ≢ request_line
header-ne e = cc

body-ne : body ≢ request_line
body-ne e = cc

got_all-ne : got_all ≢ request_line
got_all-ne e = cc

module _ (t : ℕ) where
  end-GoesOn :
      (r : Run Bytes) (rest : Bytes)
      → r.parser.state ≢ request_line
      → GoesOn r (end_headers bytes_source t r rest)
  unfolding end_headers
  end-GoesOn r rest ne =
      elim (Bool-cases (length (get_header r.parser.request (codes "Content-Length")) == 0)) [
        | inl absent ↦ rw absent (inr (inr (ne, got_all-ne, refl)))
        | inr present ↦
            rw present
              (elim (Option-cases
                (stoi_size (get_header r.parser.request (codes "Content-Length")))) [
                  | inl e ↦ rw e tt
                  | inr (m, e) ↦ rw e (body-ne, inl (ne, refl))
                ])
      ]

  round-GoesOn :
      (s : ParseState) (r : Run Bytes) → r.parser.state ≡ s → GoesOn r (round bytes_source t s r)
  unfolding round on_request_line on_header on_body
  round-GoesOn request_line r h = elim (Option-cases (crlf_in r.buf)) [
    | inl e ↦ rw (e, on_request_line) (inl refl)
    | inr (i, e) ↦
        rw (e, on_request_line)
          (elim (Bool-cases (parse_request_line r.parser (take i r.buf)).0) [
            | inl good ↦ rw good (header-ne, inr (h, refl))
            | inr bad ↦ rw bad (inr (inl (h, refl)))
          ])
  ]
  round-GoesOn header r h = elim (Option-cases (crlf_in r.buf)) [
    | inl e ↦ rw (e, on_header) (inl refl)
    | inr (i, e) ↦
        rw (e, on_header)
          (elim (Bool-cases (find_byte b':' (take i r.buf) == length (take i r.buf))) [
            | inl last ↦ rw last (end-GoesOn r (drop (i + 2) r.buf) ne)
            | inr more ↦ rw more (ne, inl (ne, refl))
          ])
  ]
    where
      ne : r.parser.state ≢ request_line
      ne = subst (λ s. s ≢ request_line) (sym h) header-ne
  round-GoesOn body r h = elim (Bool-cases (leb r.parser.body_length (length r.buf))) [
    | inl all ↦ rw all (inr (inr (subst (λ s. s ≢ request_line) (sym h) body-ne, got_all-ne, refl)))
    | inr less ↦ rw less (inl refl)
  ]
  round-GoesOn got_all r h = inl refl

  goes_on : (r : Run Bytes) → GoesOn r (round bytes_source t r.parser.state r)
  goes_on r = round-GoesOn r.parser.state r refl

  -- Behind the request line the flag is left alone, and the clock is not looked at.
  pub Ends-behind :
      {r l : Run Bytes}
      → r.parser.state ≢ request_line
      → Ends t r (stop l)
      → (l.parser.state ≢ request_line) × (l.ok ≡ r.ok)
  Ends-behind {r} {l} ne (ends_stop e) = elim (subst (GoesOn r) e (goes_on r)) [
    | inl same ↦ rw same (ne, refl)
    | inr other ↦ elim other [ inl refused ↦ absurd (ne refused.0) | inr (_, n, k) ↦ (n, k) ]
  ]
  Ends-behind {r} ne (ends_later e m) =
      let (n, k) = subst (GoesOn r) e (goes_on r) in
      let (last, same) = Ends-behind n m in
      elim k [ inl (_, kept) ↦ (last, same ∙ kept) | inr (there, _) ↦ absurd (ne there) ]

abbrev left_of : Round Bytes → Bytes
left_of (again r) = r.buf
left_of (stop r) = r.buf
left_of (thrown r) = r.buf

-- A run that stopped in the middle of a request.
pub record Midway (x : Round Bytes) : Type 0 where
  pub l : Run Bytes
  pub stopped : x ≡ stop l
  pub not_all : l.parser.state ≢ got_all
  pub fine : l.ok ≢ some false

Ends-next :
    {t : ℕ} {r q : Run Bytes} {x : Round Bytes}
    → round bytes_source t r.parser.state r ≡ again q
    → Ends t r x
    → Ends t q x
Ends-next e (ends_stop d) = cc
Ends-next e (ends_thrown d) = cc
Ends-next {t} {q = q} {x = x} e (ends_later {q = q'} d m) =
    let same : q' ≡ q = cc in subst (λ z. Ends t z x) same m

module _ (t : ℕ) (ys : Bytes) where
  still_fine :
      (r : Run Bytes) {q : Run Bytes}
      → round bytes_source t r.parser.state r ≡ again q
      → r.ok ≢ some false
      → q.ok ≢ some false
  still_fine r {q} e fine =
      let (_, k) = subst (GoesOn r) e (goes_on t r) in
      elim k [
        | inl (_, same) ↦ subst (λ o. o ≢ some false) (sym same) fine
        | inr (_, taken) ↦ λ h. cc
      ]

  -- Where more bytes make a run end with nothing left over, it has stopped in the middle without them.
  pub Ends-prefix :
      {r g : Run Bytes} {x : Round Bytes}
      → Ends t r x
      → Ends t (grow ys r) (stop g)
      → g.buf ≡ []
      → ys ≢ []
      → g.ok ≢ some false
      → r.ok ≢ some false
      → Midway x
  Ends-prefix {r} {g} (ends_stop {l} e) whole none_left some_more good fine =
      elim (round-Grows t ys r.parser.state r.parser r.ok r.buf) [
        | inl same ↦
            let here : l ≡ r = cc in
            record {
              l = l;
              stopped = refl;
              not_all = λ all.
                  let over : round bytes_source t r.parser.state (grow ys r) ≡ stop (grow ys r) =
                    rw (← here) (rw all (unfold round in refl)) in
                  let one = Ends-unique t whole (ends_stop over) in
                  some_more (append-nil_right r.buf ys (sym (ap left_of one) ∙ none_left));
              fine = subst (λ (z : Run Bytes). z.ok ≢ some false) (sym here) fine;
            }
        | inr h ↦
            let there : Ends t (grow ys r) (stop (grow ys l)) =
              ends_stop (h.same ∙ ap (grow_round ys) e) in
            let one = Ends-unique t whole there in
            let left : g.buf ≡ l.buf ++ ys = ap left_of one in
            absurd (some_more (append-nil_right l.buf ys (sym left ∙ none_left)))
      ]
  Ends-prefix {r} {g} (ends_thrown {l} e) whole none_left some_more good fine =
      elim (round-Grows t ys r.parser.state r.parser r.ok r.buf) [
        | inl same ↦ cc
        | inr h ↦
            let there : Ends t (grow ys r) (thrown (grow ys l)) =
              ends_thrown (h.same ∙ ap (grow_round ys) e) in
            let one = Ends-unique t whole there in cc
      ]
  Ends-prefix {r} {g} (ends_later {q} e m) whole none_left some_more good fine =
      elim (round-Grows t ys r.parser.state r.parser r.ok r.buf) [
        | inl same ↦ cc
        | inr h ↦
            Ends-prefix m (Ends-next (h.same ∙ ap (grow_round ys) e) whole) none_left some_more good
              (still_fine r e fine)
      ]

round_timeless :
    (t u : ℕ) (s : ParseState) (r : Run Bytes)
    → s ≢ request_line
    → round bytes_source t s r ≡ round bytes_source u s r
unfolding round on_header end_headers on_body
round_timeless t u request_line r ne = absurd (ne refl)
round_timeless t u header r ne = refl
round_timeless t u body r ne = refl
round_timeless t u got_all r ne = refl

pub Ends_timeless :
    (t u : ℕ) {r : Run Bytes} {x : Round Bytes}
    → r.parser.state ≢ request_line
    → Ends t r x
    → Ends u r x
Ends_timeless t u {r} ne (ends_stop e) = ends_stop (round_timeless u t r.parser.state r ne ∙ e)
Ends_timeless t u {r} ne (ends_thrown e) = ends_thrown (round_timeless u t r.parser.state r ne ∙ e)
Ends_timeless t u {r} ne (ends_later e m) =
    let (next, _) = subst (GoesOn r) e (goes_on t r) in
    ends_later (round_timeless u t r.parser.state r ne ∙ e) (Ends_timeless t u next m)
