-- ===== src/Http/Parser/Resume.antt =====
-- http/httpparser.cpp, ParseRequest called again for a request that arrives in pieces.
use sinetlib.Base.{
  ℕ, ◌+◌, ◌≡◌, refl, sym, ap, ◌∙◌, ◌≢◌, inl, inr, Option, none, some, Bool, true, false, ◌++◌,
  length, take, drop, Bytes, leb, ◌==◌, Bool-cases, Option-cases, codes,
}
use sinetlib.Net.Buffer.{find_byte}
use sinetlib.Http.Parser.Input.{bytes_source}
use sinetlib.Http.Parser.Loop.{
  crlf_in, Ends, ends_stop, ends_thrown, ends_later, Ends-of_eq, parse_request-eq,
  parse_request_total,
}
use sinetlib.Http.Parser.Stoi.{stoi_size}
use sinetlib.Http.Parser.{
  Parser, ParseState, request_line, header, body, got_all, Run, Round, again, stop, thrown,
  parse_request_line, on_request_line, end_headers, on_header, on_body, round, parse_request,
}
use sinetlib.Http.Request.{get_header}
use sinetlib.Http.Parser.Grow.{resume-Ends}

-- What a caller sees of a finished parse besides the flag: the parser and the bytes left.
pub data View : Type 0 where
  going stopped threw : Parser → Bytes → View

abbrev pub view : Round Bytes → View
view (again q) = going q.parser q.buf
view (stop l) = stopped l.parser l.buf
view (thrown l) = threw l.parser l.buf

abbrev pub view_of : Option (Round Bytes) → Option View
view_of none = none
view_of (some x) = some (view x)

data Akin : Round Bytes → Round Bytes → Type 0 where
  akin_again : (q : Run Bytes) (k : Option Bool) → Akin (again q) (again (record q { ok = k }))
  akin_stop : (q : Run Bytes) (k : Option Bool) → Akin (stop q) (stop (record q { ok = k }))
  akin_thrown : (q : Run Bytes) (k : Option Bool) → Akin (thrown q) (thrown (record q { ok = k }))

Akin-stop :
    {a b : Round Bytes} {l : Run Bytes}
    → Akin a b
    → a ≡ stop l
    → (k : Option Bool) × (b ≡ stop (record l { ok = k }))
Akin-stop {l = l} (akin_stop q k) e =
    let same : q ≡ l = cc in (k, ap (λ (r : Run Bytes). stop (record r { ok = k })) same)
Akin-stop {l = l} (akin_again q k) e = cc
Akin-stop {l = l} (akin_thrown q k) e = cc

Akin-thrown :
    {a b : Round Bytes} {l : Run Bytes}
    → Akin a b
    → a ≡ thrown l
    → (k : Option Bool) × (b ≡ thrown (record l { ok = k }))
Akin-thrown {l = l} (akin_thrown q k) e =
    let same : q ≡ l = cc in (k, ap (λ (r : Run Bytes). thrown (record r { ok = k })) same)
Akin-thrown {l = l} (akin_again q k) e = cc
Akin-thrown {l = l} (akin_stop q k) e = cc

Akin-again :
    {a b : Round Bytes} {l : Run Bytes}
    → Akin a b
    → a ≡ again l
    → (k : Option Bool) × (b ≡ again (record l { ok = k }))
Akin-again {l = l} (akin_again q k) e =
    let same : q ≡ l = cc in (k, ap (λ (r : Run Bytes). again (record r { ok = k })) same)
Akin-again {l = l} (akin_stop q k) e = cc
Akin-again {l = l} (akin_thrown q k) e = cc

module _ (t : ℕ) where
  end-Akin :
      (r : Run Bytes) (rest : Bytes) (k : Option Bool)
      → Akin
          (end_headers bytes_source t r rest)
          (end_headers bytes_source t (record r { ok = k }) rest)
  unfolding end_headers
  end-Akin r rest k =
      elim (Bool-cases (length (get_header r.parser.request (codes "Content-Length")) == 0)) [
        | inl absent ↦ rw absent (akin_stop _ k)
        | inr present ↦
            rw present
              (elim (Option-cases
                (stoi_size (get_header r.parser.request (codes "Content-Length")))) [
                  | inl e ↦ rw e (akin_thrown r k)
                  | inr (m, e) ↦ rw e (akin_again _ k)
                ])
      ]

  -- The flag is written and never read.
  round-Akin :
      (s : ParseState) (r : Run Bytes) (k : Option Bool)
      → Akin (round bytes_source t s r) (round bytes_source t s (record r { ok = k }))
  unfolding round on_request_line on_header on_body
  round-Akin request_line r k = elim (Option-cases (crlf_in r.buf)) [
    | inl e ↦ rw (e, on_request_line) (akin_stop r k)
    | inr (i, e) ↦
        rw (e, on_request_line)
          (elim (Bool-cases (parse_request_line r.parser (take i r.buf)).0) [
            | inl good ↦ rw good (akin_again _ (some true))
            | inr bad ↦ rw bad (akin_stop _ (some false))
          ])
  ]
  round-Akin header r k = elim (Option-cases (crlf_in r.buf)) [
    | inl e ↦ rw (e, on_header) (akin_stop r k)
    | inr (i, e) ↦
        rw (e, on_header)
          (elim (Bool-cases (find_byte b':' (take i r.buf) == length (take i r.buf))) [
            | inl last ↦ rw last (end-Akin r (drop (i + 2) r.buf) k)
            | inr more ↦ rw more (akin_again _ k)
          ])
  ]
  round-Akin body r k = elim (Bool-cases (leb r.parser.body_length (length r.buf))) [
    | inl all ↦ rw all (akin_stop _ k)
    | inr less ↦ rw less (akin_stop r k)
  ]
  round-Akin got_all r k = akin_stop r k

  Ends-ok :
      {r : Run Bytes} {x : Round Bytes} (k : Option Bool)
      → Ends t r x
      → (y : Round Bytes) × Ends t (record r { ok = k }) y × (view y ≡ view x)
  Ends-ok {r} k (ends_stop e) =
      let (j, d) = Akin-stop (round-Akin r.parser.state r k) e in (_, ends_stop d, refl)
  Ends-ok {r} k (ends_thrown e) =
      let (j, d) = Akin-thrown (round-Akin r.parser.state r k) e in (_, ends_thrown d, refl)
  Ends-ok {r} k (ends_later e m) =
      let (j, d) = Akin-again (round-Akin r.parser.state r k) e in
      let (y, end, same) = Ends-ok j m in (y, ends_later d end, same)

  -- A request may come in any pieces. If ParseRequest over the first bytes stops without refusing the
  -- request line, then calling it again once more bytes are in the buffer ends with the parser and
  -- the bytes that one call over all of them ends with.
  pub parse_request_resumes :
      (p : Parser) (xs ys : Bytes) {l : Run Bytes}
      → parse_request bytes_source t p xs ≡ some (stop l)
      → l.ok ≢ some false
      → view_of (parse_request bytes_source t l.parser (l.buf ++ ys))
        ≡ view_of (parse_request bytes_source t p (xs ++ ys))
  parse_request_resumes p xs ys {l} first ne =
      let (x, run, end) = parse_request_total t l.parser (l.buf ++ ys) in
      let (y, end', same) = Ends-ok l.ok end in
      let whole =
        parse_request-eq t p (xs ++ ys) (resume-Ends t ys (Ends-of_eq t p xs first) ne end') in
      ap view_of run ∙ ap some (sym same) ∙ sym (ap view_of whole)
