-- ===== src/Http/Parser/Pieces.antt =====
-- http/httpparser.cpp, ParseRequest called for each piece of a request that comes in pieces.
use sinetlib.Base.{
  ℕ, ◌≡◌, ◌≢◌, refl, sym, ap, ◌∙◌, inl, inr, none, some, Option-cases, false, [], ◌++◌, Bytes,
  subst,
}
use sinetlib.Http.Parser.Loop.{crlf_in, Ends, start, parse_request_total}
use sinetlib.Http.Parser.Prefix.{Ends-prefix}
use sinetlib.Http.Parser.{Parser, request_line, got_all, Run, stop}
use sinetlib.Http.Parser.Waiting.{
  Reads, Stops, none-ne, some-ne-none, moved, Ends-taken, resumed, waits,
}

line-ne-all : request_line ≢ got_all
line-ne-all e = cc

module _ (t : ℕ) (p0 : Parser) (fresh : p0.state ≡ request_line) where
  module _ (text : Bytes) (g : Run Bytes) (whole : Ends t (start t p0 text) (stop g))
      (all_used : g.buf ≡ []) (good : g.ok ≢ some false) where
    -- The time of a call that is given the end of the request line.
    abbrev pub Clocked : ℕ → Bytes → Bytes → Type 0
    Clocked u before xs = crlf_in before ≡ none → crlf_in (before ++ xs) ≢ none → u ≡ t

    midway :
        (zs more : Bytes)
        → text ≡ zs ++ more
        → more ≢ []
        → (l : Run Bytes) × Ends t (start t p0 zs) (stop l)
          × (l.parser.state ≢ got_all)
          × (l.ok ≢ some false)
    midway zs more split some_more =
        let (x, run, end) = parse_request_total t p0 zs in
        let m =
          Ends-prefix t more end (subst (λ ws. Ends t (start t p0 ws) (stop g)) split whole)
            all_used some_more good none-ne in
        (m.l, subst (Ends t (start t p0 zs)) m.stopped end, m.not_all, m.fine)

    -- A call over one more piece, which is not the last.
    pub part-Stops :
        (u : ℕ) {before left : Bytes} {p : Parser} (xs more : Bytes)
        → Reads t p0 before p left
        → text ≡ (before ++ xs) ++ more
        → more ≢ []
        → Clocked u before xs
        → (k : Run Bytes) × Stops u p (left ++ xs) k
          × (k.parser.state ≢ got_all)
          × Reads t p0 (before ++ xs) k.parser k.buf
    part-Stops u {before} {left} {p} xs more (inl (same, waiting, none_yet)) split some_more
          clocked =
        elim (Option-cases (crlf_in (before ++ xs))) [
          | inl still_none ↦ (
            start u p0 (before ++ xs),
            moved u (sym same) (ap (λ zs. zs ++ xs) (sym waiting))
                (record { run = waits t p0 fresh u (before ++ xs) still_none; fine = none-ne }),
            λ all. line-ne-all (sym fresh ∙ all),
            inl (refl, refl, still_none),
          )
          | inr (i, found) ↦
              let now : u ≡ t = clocked none_yet (λ e. some-ne-none (sym found ∙ e)) in
              let (l, run, not_all, fine) = midway (before ++ xs) more split some_more in
              let passed = Ends-taken t p0 fresh found run fine in
              (
                l,
                moved u (sym same) (ap (λ zs. zs ++ xs) (sym waiting)) (record {
                  run = subst (λ z. Ends z (start z p0 (before ++ xs)) (stop l)) (sym now) run;
                  fine = fine;
                }),
                not_all,
                inr (record {
                  l = l;
                  run = run;
                  parser = refl;
                  buf = refl;
                  fine = fine;
                  passed = passed;
                }),
              )
        ]
    part-Stops u {before} {left} {p} xs more (inr b) split some_more clocked =
        let (l, run, not_all, fine) = midway (before ++ xs) more split some_more in
        let (k, stops, parser, buf, passed) = resumed t p0 fresh u xs b run in
        (
          k,
          stops,
          λ all. not_all (ap (λ (q : Parser). q.state) (sym parser) ∙ all),
          inr (record {
            l = l;
            run = run;
            parser = sym parser;
            buf = sym buf;
            fine = fine;
            passed = passed;
          }),
        )

    -- A call over the last piece.
    pub last-Stops :
        (u : ℕ) {before left : Bytes} {p : Parser} (xs : Bytes)
        → Reads t p0 before p left
        → text ≡ before ++ xs
        → crlf_in text ≢ none
        → Clocked u before xs
        → (k : Run Bytes) × Stops u p (left ++ xs) k × (k.parser ≡ g.parser) × (k.buf ≡ [])
    last-Stops u {before} {left} {p} xs (inl (same, waiting, none_yet)) split line clocked =
        let now : u ≡ t = clocked none_yet (subst (λ zs. crlf_in zs ≢ none) split line) in
        (
          g,
          record {
            run =
                subst (λ z. Ends z (start z p (left ++ xs)) (stop g)) (sym now)
                  (subst (λ q. Ends t (start t q (left ++ xs)) (stop g)) (sym same)
                    (subst (λ zs. Ends t (start t p0 zs) (stop g))
                      (split ∙ ap (λ zs. zs ++ xs) (sym waiting)) whole));
            fine = good;
          },
          refl,
          all_used,
        )
    last-Stops u {before} {left} {p} xs (inr b) split line clocked =
        let (k, stops, parser, buf, passed) =
          resumed t p0 fresh u xs b (subst (λ zs. Ends t (start t p0 zs) (stop g)) split whole) in
        (k, stops, parser, buf ∙ all_used)
