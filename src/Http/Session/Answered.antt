-- ===== src/Http/Session/Answered.antt =====
-- net/connection.cpp and http/httpserver.cpp: what a client gets for its requests, one after another.
use sinetlib.Base.{
  ℕ, ◌≡◌, refl, sym, subst, Option, List, [], ◌∷◌, ◌++◌, length, length-append, Bytes, arith,
}
use sinetlib.Http.Parser.{Parser}
use sinetlib.Http.Request.{HttpRequest}
use sinetlib.Http.Router.{Route}
use sinetlib.Http.Server.{Handler}
use sinetlib.Http.Session.Calls.{report-BringsNothing}
use sinetlib.Http.Session.Served.{
  Bring, no_reports, whole, in_pieces, nothing_new, IsIdle, arrived, arrived-append, Goes,
  Goes-nothing, Goes-more, answer, answers, AllStay,
}
use sinetlib.Http.Session.{Report, Session, opened, report, reports}
use sinetlib.Net.Buffer.Valid.{Fits}
use sinetlib.Net.Connection.Stream.{Inv}
use sinetlib.Net.Connection.{Connection}
use sinetlib.Http.Session.Arrivals.{
  IsRequest-Parses, has_line, IsIdle-IsReading, Goes-after, whole_Goes, Comes-Goes,
}

module _ (regex_match : Bytes → Bytes → Option (List Bytes)) (default_handler : Handler)
    (routes : List (Route Handler)) (fd : ℕ) where
  reports-append :
      (s : Session) (ks ls : List Report)
      → reports regex_match default_handler routes fd s (ks ++ ls)
        ≡ reports regex_match default_handler routes fd
            (reports regex_match default_handler routes fd s ks)
            ls
  unfolding reports
  reports-append s [] ls = refl
  reports-append s (k ∷ ks) ls =
      reports-append (report regex_match default_handler routes fd s k) ks ls

  -- The reports bring requests without a body, with writable events in between, to a connection that
  -- is idle, and no response asks to close it. Each request comes in one read, or in pieces; for
  -- pieces, `ok`, which ParseRequest returns uninitialised there, is taken to be true, and the end of
  -- the request line comes at the time that the request is to keep. Nothing stands behind a request
  -- in the read that ends it, and the buffers have room for all that comes and all responses. Then
  -- the session stays open and is idle again, and the bytes that the peer got or is to get grow by
  -- exactly the responses, in order.
  pub reports-answers :
      {ks : List Report} {qs : List HttpRequest} {c : Connection} {p : Parser}
      → Bring ks qs
      → Inv c
      → IsIdle c.input p
      → Fits c.input (arrived ks)
      → Fits c.output (length (answers regex_match default_handler routes qs))
      → AllStay regex_match default_handler routes qs
      → Goes IsIdle c
          (arrived ks)
          (answers regex_match default_handler routes qs)
          (reports regex_match default_handler routes fd (opened c p) ks)
  unfolding reports
  reports-answers no_reports inv idle f g stay = Goes-nothing inv idle
  reports-answers {p} (whole {k} {ks} {q} {qs} text r b rest) inv idle f g stay =
      let n =
        length-append (answer regex_match default_handler routes q)
          (answers regex_match default_handler routes qs) in
      let a =
        whole_Goes regex_match default_handler routes fd {k = k} r b inv idle (omega (arith, f))
          (omega (arith, n, g)) stay.0 in
      Goes-after regex_match default_handler routes fd ks a (
        reports-answers rest a.inv a.input (omega (arith, f, a.input_size))
          (omega (arith, n, g, a.output_size)) stay.1)
  reports-answers {p} (in_pieces {ks} {ls} {q} {qs} t text r come rest) inv idle f g stay =
      let n =
        length-append (answer regex_match default_handler routes q)
          (answers regex_match default_handler routes qs) in
      let m = arrived-append ks ls in
      let a =
        Comes-Goes regex_match default_handler routes fd t p idle.state (IsRequest-Parses r idle)
          (has_line r) come inv (IsIdle-IsReading idle) (omega (arith, m, f)) (omega (arith, n, g))
          stay.0 in
      let b =
        reports-answers rest a.inv a.input (omega (arith, m, f, a.input_size))
          (omega (arith, n, g, a.output_size)) stay.1 in
      subst (Goes IsIdle _ (arrived (ks ++ ls)) _) (sym (reports-append _ ks ls)) (
        Goes-more (arrived (ks ++ ls)) (omega (arith, m))
          (Goes-after regex_match default_handler routes fd ls a b))
  reports-answers {p} (nothing_new {k} {ks} b rest) inv idle f g stay =
      let a =
        report-BringsNothing regex_match default_handler routes {P = IsIdle} fd p b inv idle in
      Goes-more (arrived (k ∷ ks)) (omega arith) (
        Goes-after regex_match default_handler routes fd ks a (
          reports-answers rest a.inv a.input (omega (arith, f, a.input_size))
            (omega (arith, g, a.output_size)) stay))
