-- ===== src/Http/Session/Arrivals.antt =====
-- net/connection.cpp and http/httpserver.cpp: one request, from its first bytes to its answer.
use sinetlib.Base.{
  ℕ, ◌+◌, ◌≡◌, ◌≢◌, refl, sym, ap, ◌∙◌, subst, Bool, inl, true, false, Option, none, some, List, [],
  ◌∷◌, ◌++◌, length, Bytes, codes, arith,
}
use sinetlib.Http.Parser.Fields.{crlf_in-line, render_fields}
use sinetlib.Http.Parser.Loop.{crlf_in, Ends, start, Ends-of_eq}
use sinetlib.Http.Parser.Waiting.{Reads}
use sinetlib.Http.Parser.Pieces.{part-Stops, last-Stops}
use sinetlib.Http.Parser.Whole.{parse_request_whole, stored}
use sinetlib.Http.Parser.{Parser, request_line, got_all, finish, Run, stop}
use sinetlib.Http.Request.{HttpRequest, get_header}
use sinetlib.Http.Router.{Route}
use sinetlib.Http.Server.{Handler, ok_or}
use sinetlib.Http.Session.Calls.{report-Brings, report-BringsNothing}
use sinetlib.Http.Session.Messages.{answered_Goes, part_Goes}
use sinetlib.Http.Session.Served.{
  IsRequest, Brings, Comes, last_piece, piece, no_piece, IsIdle, arrived, Goes, Goes-more,
  Goes-trans, answer, Stays,
}
use sinetlib.Http.Session.{Report, Session, opened, report, reports}
use sinetlib.Net.Buffer
use sinetlib.Net.Buffer.Reading.{delivered}
use sinetlib.Net.Buffer.Valid.{IsValid, Fits}
use sinetlib.Net.Buffer.{Buffer}
use sinetlib.Net.Connection.Stream.{Inv}
use sinetlib.Net.Connection.{Connection}

-- What ParseRequest does with a whole request.
pub record Parses (t : ℕ) (p : Parser) (q : HttpRequest) (text : Bytes) : Type 0 where
  g : Run Bytes
  run : Ends t (start t p text) (stop g)
  used : g.buf ≡ []
  good : g.ok ≡ some true
  all : g.parser.state ≡ got_all
  kept : g.parser.request ≡ q

pub IsRequest-Parses :
    {t : ℕ} {q : HttpRequest} {text : Bytes} {b : Buffer} {p : Parser}
    → IsRequest t q text
    → IsIdle b p
    → Parses t p q text
IsRequest-Parses {t} {q} {text} {b} {p} r idle =
    let no_length =
      subst (λ x. get_header (stored t x r.m r.target r.v r.fields) (codes "Content-Length") ≡ [])
        (sym idle.fresh) r.no_length in
    let parsed =
      parse_request_whole t p idle.state idle.line_state r.is_request_line r.is_line r.are_fields []
        no_length in
    let g : Run Bytes = record {
      parser = record p {
        state = got_all;
        line_state = finish;
        request = stored t p.request r.m r.target r.v r.fields;
      };
      buf = [];
      ok = some true;
    } in
    record {
      g = g;
      run = subst (λ zs. Ends t (start t p zs) (stop g)) (sym r.rendered) (Ends-of_eq t p _ parsed);
      used = refl;
      good = refl;
      all = refl;
      kept = ap (λ x. stored t x r.m r.target r.v r.fields) idle.fresh ∙ sym r.kept;
    }

pub has_line : {t : ℕ} {q : HttpRequest} {text : Bytes} → IsRequest t q text → crlf_in text ≢ none
has_line r e =
    let found = crlf_in-line r.line (render_fields r.fields []) r.is_line in
    let found' = ap crlf_in r.rendered ∙ found in cc

ok_or-true :
    {garbage : Bool} (ok : Option Bool) → garbage ≡ true → ok ≢ some false → ok_or garbage ok ≡ true
ok_or-true none g h = g
ok_or-true (some true) g h = refl
ok_or-true (some false) g h = absurd (h refl)

-- An input and a parser that have got so far with a text.
pub record IsReading (t : ℕ) (p0 : Parser) (before : Bytes) (b : Buffer) (p : Parser) : Type 0 where
  valid : IsValid b
  reads : Reads t p0 before p (Buffer.readable b)

pub IsIdle-IsReading : {t : ℕ} {b : Buffer} {p : Parser} → IsIdle b p → IsReading t p [] b p
unfolding Buffer.found_before Buffer.search_crlf
IsIdle-IsReading idle = record { valid = idle.valid; reads = inl (refl, idle.empty, refl) }

module _ (regex_match : Bytes → Bytes → Option (List Bytes)) (default_handler : Handler)
    (routes : List (Route Handler)) (fd : ℕ) where
  abbrev pub after : Session → List Report → Session
  after s ks = reports regex_match default_handler routes fd s ks

  -- One report, then others.
  pub Goes-after :
      {P Q : Buffer → Parser → Type 0} {c : Connection} {n m : ℕ} {xs ys : Bytes} {s : Session}
      (ks : List Report) (a : Goes P c n xs s)
      → Goes Q a.d m ys (after (opened a.d a.p) ks)
      → Goes Q c (n + m) (xs ++ ys) (after s ks)
  Goes-after {Q} {m} {ys} ks a b =
      Goes-trans a (subst (λ s. Goes Q a.d m ys (after s ks)) (sym a.open_still) b)

  pub whole_Goes :
      {k : Report} {q : HttpRequest} {text : Bytes} {c : Connection} {p : Parser}
      → IsRequest k.time q text
      → Brings k text
      → Inv c
      → IsIdle c.input p
      → Fits c.input (delivered k.read_result)
      → Fits c.output (length (answer regex_match default_handler routes q))
      → Stays regex_match default_handler routes q
      → Goes IsIdle c
          (delivered k.read_result)
          (answer regex_match default_handler routes q)
          (report regex_match default_handler routes fd (opened c p) k)
  whole_Goes {k} {q} {text} {c} {p} r b inv idle f g stays =
      let y = IsRequest-Parses r idle in
      let n : delivered k.read_result ≡ length text = ap delivered b.came in
      let run =
        subst (λ zs. Ends k.time (start k.time p (zs ++ text)) (stop y.g)) (sym idle.empty) y.run in
      Goes-more (delivered k.read_result) (omega (arith, n)) (
        report-Brings regex_match default_handler routes fd p b (
          answered_Goes regex_match default_handler routes k p text inv idle.valid
            (omega (arith, n)) g stays run (ap (ok_or k.garbage) y.good) y.all y.kept y.used))

  module _ (t : ℕ) (p0 : Parser) (fresh : p0.state ≡ request_line) {q : HttpRequest} {text : Bytes}
      (y : Parses t p0 q text) (line : crlf_in text ≢ none) where
    not_bad : y.g.ok ≢ some false
    not_bad e = absurd_eq (sym y.good ∙ e)
      where
        absurd_eq : ◌≡◌ {A = Option Bool} (some true) (some false) → ⊥
        absurd_eq e = cc

    -- The rest of a request in pieces: it is answered when the last one has come.
    pub Comes-Goes :
        {before : Bytes} {ks : List Report} {c : Connection} {p : Parser}
        → Comes t text before ks
        → Inv c
        → IsReading t p0 before c.input p
        → Fits c.input (arrived ks)
        → Fits c.output (length (answer regex_match default_handler routes q))
        → Stays regex_match default_handler routes q
        → Goes IsIdle c
            (arrived ks)
            (answer regex_match default_handler routes q)
            (after (opened c p) ks)
    unfolding reports
    Comes-Goes {before} {p} (last_piece {k} xs b garbage clocked split) inv reading f g stays =
        let n : delivered k.read_result ≡ length xs = ap delivered b.came in
        let (l, stops, parser, buf) =
          last-Stops t p0 fresh text y.g y.run y.used not_bad k.time xs reading.reads split line
            clocked in
        Goes-more (arrived (k ∷ [])) (omega (arith, n)) (
          report-Brings regex_match default_handler routes fd p b (
            answered_Goes regex_match default_handler routes k p xs inv reading.valid
              (omega (arith, n, f)) g stays stops.run (ok_or-true l.ok garbage stops.fine)
              (ap (λ (z : Parser). z.state) parser ∙ y.all)
              (ap (λ (z : Parser). z.request) parser ∙ y.kept) buf))
    Comes-Goes {before} {p} (piece {k} {ks} xs more b garbage clocked some_more split rest) inv
          reading f g stays =
        let n : delivered k.read_result ≡ length xs = ap delivered b.came in
        let (l, stops, part, reads) =
          part-Stops t p0 fresh text y.g y.run y.used not_bad k.time xs more reading.reads split
            some_more clocked in
        let a =
          report-Brings regex_match default_handler routes {P = IsReading t p0 (before ++ xs)} fd p
            b
            (part_Goes regex_match default_handler routes k p xs inv reading.valid
              (omega (arith, n, f)) stops.run (ok_or-true l.ok garbage stops.fine) part
              (λ z v e. record {
                valid = v;
                reads = subst (Reads t p0 (before ++ xs) l.parser) (sym e) reads;
              })) in
        Goes-more (arrived (k ∷ ks)) (omega (arith, n)) (
          Goes-after ks a (
            Comes-Goes rest a.inv a.input (omega (arith, n, f, a.input_size))
              (omega (arith, g, a.output_size)) stays))
    Comes-Goes {before} {p} (no_piece {k} {ks} b rest) inv reading f g stays =
        let a =
          report-BringsNothing regex_match default_handler routes {P = IsReading t p0 before} fd p b
            inv reading in
        Goes-more (arrived (k ∷ ks)) (omega arith) (
          Goes-after ks a (
            Comes-Goes rest a.inv a.input (omega (arith, f, a.input_size))
              (omega (arith, g, a.output_size)) stays))
