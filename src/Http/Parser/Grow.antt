-- ===== src/Http/Parser/Grow.antt =====
-- http/httpparser.cpp: a round of ParseRequest when more bytes stand behind the readable ones.
use sinetlib.Base.{
  ℕ, ◌+◌, ◌≡◌, refl, ap, ◌∙◌, ◌≢◌, ◌⊎◌, inl, inr, Option, some, Bool, true, false, ◌++◌, length,
  take, drop, length-append, take-append, drop-append, Bytes, arith, leb, ◌==◌, Bool-cases,
  Option-cases, codes, subst, leb→le,
}
use sinetlib.Net.Buffer.Search.{search_crlf-le, search_crlf-append}
use sinetlib.Net.Buffer.{found_before, find_byte}
use sinetlib.Http.Parser.Input.{bytes_source}
use sinetlib.Http.Parser.Loop.{crlf_in, crlf_in-inside, Ends, ends_stop, ends_later, Ends-unique}
use sinetlib.Http.Parser.Stoi.{stoi_size}
use sinetlib.Http.Parser.{
  Parser, ParseState, request_line, header, body, got_all, Run, Round, again, stop, thrown,
  parse_request_line, on_request_line, end_headers, on_header, on_body, round,
}
use sinetlib.Http.Request.{get_header}

-- More bytes come in.
abbrev pub grow : Bytes → Run Bytes → Run Bytes
grow ys r = record r { buf = r.buf ++ ys }

abbrev pub grow_round : Bytes → Round Bytes → Round Bytes
grow_round ys (again q) = again (grow ys q)
grow_round ys (stop l) = stop (grow ys l)
grow_round ys (thrown l) = thrown (grow ys l)

-- A round that stops for good: the request is complete, or it is refused.
abbrev pub Final : Round Bytes → Type 0
Final (stop l) = (l.parser.state ≡ got_all) ⊎ (l.ok ≡ some false)
Final (again q) = Unit {0}
Final (thrown l) = Unit {0}

crlf_in-append : (xs ys : Bytes) (i : ℕ) → crlf_in xs ≡ some i → crlf_in (xs ++ ys) ≡ some i
unfolding found_before
crlf_in-append xs ys i e =
    ground (arith, search_crlf-le xs, search_crlf-append xs ys, length-append xs ys)

-- What more bytes change in a round: nothing, unless it waits for them.
pub record Grows (ys : Bytes) (x y : Round Bytes) : Type 0 where
  pub same : y ≡ grow_round ys x
  pub final : Final x

module _ (t : ℕ) (ys : Bytes) where
  end-Grows :
      (p : Parser) (k : Option Bool) (xs rest : Bytes)
      → Grows ys
          (end_headers bytes_source t (record { parser = p; buf = xs; ok = k }) rest)
          (end_headers bytes_source t (record { parser = p; buf = xs ++ ys; ok = k }) (rest ++ ys))
  unfolding end_headers
  end-Grows p k xs rest =
      elim (Bool-cases (length (get_header p.request (codes "Content-Length")) == 0)) [
        | inl absent ↦ rw absent (record { same = refl; final = inl refl })
        | inr present ↦
            rw present
              (elim (Option-cases (stoi_size (get_header p.request (codes "Content-Length")))) [
                | inl e ↦ rw e (record { same = refl; final = tt })
                | inr (m, e) ↦ rw e (record { same = refl; final = tt })
              ])
      ]

  pub round-Grows :
      (s : ParseState) (p : Parser) (k : Option Bool) (xs : Bytes)
      → let r : Run Bytes = record { parser = p; buf = xs; ok = k } in
        (round bytes_source t s r ≡ stop r)
        ⊎ Grows ys (round bytes_source t s r) (round bytes_source t s (grow ys r))
  unfolding round on_request_line on_header on_body
  round-Grows request_line p k xs = elim (Option-cases (crlf_in xs)) [
    | inl e ↦ inl (rw (e, on_request_line))
    | inr (i, e) ↦
        let (_, h) = crlf_in-inside xs i e in
        inr (
          rw
            (
              e,
              crlf_in-append xs ys i e,
              on_request_line,
              take-append i xs ys (omega arith),
              drop-append (i + 2) xs ys h,
            )
            (elim (Bool-cases (parse_request_line p (take i xs)).0) [
              | inl good ↦ rw good (record { same = refl; final = tt })
              | inr bad ↦ rw bad (record { same = refl; final = inr refl })
            ]))
  ]
  round-Grows header p k xs = elim (Option-cases (crlf_in xs)) [
    | inl e ↦ inl (rw (e, on_header))
    | inr (i, e) ↦
        let (_, h) = crlf_in-inside xs i e in
        inr (
          rw
            (
              e,
              crlf_in-append xs ys i e,
              on_header,
              take-append i xs ys (omega arith),
              drop-append (i + 2) xs ys h,
            )
            (elim (Bool-cases (find_byte b':' (take i xs) == length (take i xs))) [
              | inl last ↦ rw last (end-Grows p k xs (drop (i + 2) xs))
              | inr more ↦ rw more (record { same = refl; final = tt })
            ]))
  ]
  round-Grows body p k xs = elim (Bool-cases (leb p.body_length (length xs))) [
    | inl all ↦ inr (
        rw (all, more all, take-append p.body_length xs ys (leb→le _ _ all))
          (record { same = refl; final = inl refl }))
    | inr less ↦ inl (rw less)
  ]
    where
      more : leb p.body_length (length xs) ≡ true → leb p.body_length (length (xs ++ ys)) ≡ true
      more h = ground (arith, length-append xs ys)
  round-Grows got_all p k xs = inl refl

  -- A parse that stopped for want of bytes goes on where it stopped.
  pub resume-Ends :
      {r l : Run Bytes} {x : Round Bytes}
      → Ends t r (stop l)
      → l.ok ≢ some false
      → Ends t (grow ys l) x
      → Ends t (grow ys r) x
  resume-Ends {r} {l} {x} (ends_stop e) ne rest =
      elim (round-Grows r.parser.state r.parser r.ok r.buf) [
        | inl same ↦ let here : l ≡ r = cc in subst (λ z. Ends t (grow ys z) x) here rest
        | inr g ↦ elim (rw e at g.final) [
          | inl done ↦
              let over : round bytes_source t l.parser.state (grow ys l) ≡ stop (grow ys l) =
                rw done (unfold round in refl) in
              subst (Ends t (grow ys r)) (Ends-unique t (ends_stop over) rest)
                (ends_stop (g.same ∙ ap (grow_round ys) e))
          | inr refused ↦ absurd (ne refused)
        ]
      ]
  resume-Ends {r} (ends_later e m) ne rest = elim (round-Grows r.parser.state r.parser r.ok r.buf) [
    | inl same ↦ absurd (cc)
    | inr g ↦ ends_later (g.same ∙ ap (grow_round ys) e) (resume-Ends m ne rest)
  ]
