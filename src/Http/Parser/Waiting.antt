-- ===== src/Http/Parser/Waiting.antt =====
-- http/httpparser.cpp, ParseRequest over the first bytes of a request, and over more of them.
use sinetlib.Base.{
  ℕ, ◌≡◌, ◌≢◌, refl, sym, ap, ◌∙◌, ◌⊎◌, inl, inr, Option, none, some, Bool, Bool-cases, false, ◌++◌,
  take, Bytes, subst,
}
use sinetlib.Http.Parser.Input.{bytes_source}
use sinetlib.Http.Parser.Loop.{
  crlf_in, Ends, ends_stop, ends_later, start, parse_request-eq, parse_request_total,
}
use sinetlib.Http.Parser.Prefix.{Ends-behind, Ends_timeless}
use sinetlib.Http.Parser.Resume.{view, view_of, stopped, parse_request_resumes}
use sinetlib.Http.Parser.{
  Parser, request_line, Run, Round, again, stop, thrown, parse_request_line, on_request_line, round,
  parse_request,
}

stopped_of :
    (y : Round Bytes) {p : Parser} {xs : Bytes}
    → view y ≡ stopped p xs
    → (l : Run Bytes) × (y ≡ stop l) × (l.parser ≡ p) × (l.buf ≡ xs)
stopped_of (again q) e = cc
stopped_of (stop l) e = (l, refl, cc, cc)
stopped_of (thrown l) e = cc

-- A round over a complete request line takes it or refuses it.
abbrev IsTaken : Round Bytes → Type 0
IsTaken (again q) = q.parser.state ≢ request_line
IsTaken (stop l) = l.ok ≡ some false
IsTaken (thrown l) = Unit {0}

-- The request text comes to `before` so far, and the parser and the bytes that wait are these: the
-- request line is not complete and nothing was done, or the parser has stopped behind it.
pub record Behind (t : ℕ) (p0 : Parser) (before : Bytes) (p : Parser) (left : Bytes) : Type 0 where
  pub l : Run Bytes
  pub run : Ends t (start t p0 before) (stop l)
  pub parser : l.parser ≡ p
  pub buf : l.buf ≡ left
  pub fine : l.ok ≢ some false
  pub passed : p.state ≢ request_line

abbrev pub Reads : ℕ → Parser → Bytes → Parser → Bytes → Type 0
Reads t p0 before p left =
    ((p ≡ p0) × (left ≡ before) × (crlf_in before ≡ none)) ⊎ Behind t p0 before p left

-- A call of ParseRequest that stops well.
pub record Stops (u : ℕ) (p : Parser) (xs : Bytes) (l : Run Bytes) : Type 0 where
  pub run : Ends u (start u p xs) (stop l)
  pub fine : l.ok ≢ some false

pub none-ne : ◌≢◌ {A = Option Bool} none (some false)
none-ne e = cc

pub some-ne-none {ℓ} : {A : Type ℓ} {a : A} → some a ≢ none
some-ne-none e = cc

pub moved :
    (u : ℕ) {p q : Parser} {xs ys : Bytes} {l : Run Bytes}
    → p ≡ q
    → xs ≡ ys
    → Stops u p xs l
    → Stops u q ys l
moved u {p} {q} {xs} {ys} {l} e f s =
    subst (λ z. Stops u z ys l) e (subst (λ zs. Stops u p zs l) f s)

module _ (t : ℕ) (p0 : Parser) (fresh : p0.state ≡ request_line) where
  round-IsTaken :
      (r : Run Bytes) {i : ℕ}
      → crlf_in r.buf ≡ some i
      → IsTaken (round bytes_source t request_line r)
  unfolding round on_request_line
  round-IsTaken r {i} found =
      rw (found, on_request_line)
        (elim (Bool-cases (parse_request_line r.parser (take i r.buf)).0) [
          | inl good ↦ rw good (λ e. cc)
          | inr bad ↦ rw bad refl
        ])

  round-start :
      (xs : Bytes) {i : ℕ}
      → crlf_in xs ≡ some i
      → IsTaken (round bytes_source t p0.state (start t p0 xs))
  round-start xs found =
      subst (λ s. IsTaken (round bytes_source t s (start t p0 xs))) (sym fresh)
        (round-IsTaken (start t p0 xs) found)

  -- Once the request line is complete, it is taken.
  pub Ends-taken :
      {xs : Bytes} {i : ℕ} {l : Run Bytes}
      → crlf_in xs ≡ some i
      → Ends t (start t p0 xs) (stop l)
      → l.ok ≢ some false
      → l.parser.state ≢ request_line
  Ends-taken {xs} found (ends_stop e) fine =
      let taken = round-start xs found in absurd (fine (subst IsTaken e taken))
  Ends-taken {xs} found (ends_later e m) fine =
      let taken = round-start xs found in (Ends-behind t (subst IsTaken e taken) m).0

  -- A call behind the request line, at any time, does what one call over all would have done.
  pub resumed :
      (u : ℕ) (xs : Bytes) {before left : Bytes} {p : Parser} {l : Run Bytes}
      → Behind t p0 before p left
      → Ends t (start t p0 (before ++ xs)) (stop l)
      → (k : Run Bytes) × Stops u p (left ++ xs) k
        × (k.parser ≡ l.parser)
        × (k.buf ≡ l.buf)
        × (k.parser.state ≢ request_line)
  resumed u xs {before} {left} {p} {l} b whole =
      let (y, run, end) = parse_request_total t p (left ++ xs) in
      let first = parse_request-eq t p0 before b.run in
      let again_run = parse_request_resumes t p0 before xs first b.fine in
      let same : view_of (parse_request bytes_source t p (left ++ xs))
          ≡ view_of (parse_request bytes_source t p0 (before ++ xs)) =
        ap (λ q. view_of (parse_request bytes_source t q (left ++ xs))) (sym b.parser)
        ∙ ap (λ zs. view_of (parse_request bytes_source t b.l.parser (zs ++ xs))) (sym b.buf)
        ∙ again_run in
      let seen : some (view y) ≡ some (stopped l.parser l.buf) =
        sym (ap view_of run) ∙ same ∙ ap view_of (parse_request-eq t p0 (before ++ xs) whole) in
      let (k, is_stop, parser, buf) = stopped_of y {p = l.parser} {xs = l.buf} (cc) in
      let ends = subst (Ends t (start t p (left ++ xs))) is_stop end in
      let (passed, ok) = Ends-behind t b.passed ends in
      (
        k,
        record { run = Ends_timeless t u b.passed ends; fine = λ e. absurd_ok (sym ok ∙ e) },
        parser,
        buf,
        passed,
      )
    where
      absurd_ok : ◌≡◌ {A = Option Bool} none (some false) → ⊥
      absurd_ok e = cc

  -- Nothing happens as long as the request line is not complete.
  pub waits :
      (u : ℕ) (xs : Bytes) → crlf_in xs ≡ none → Ends u (start u p0 xs) (stop (start u p0 xs))
  waits u xs none_yet =
      ends_stop (
        subst (λ s. round bytes_source u s (start u p0 xs) ≡ stop (start u p0 xs)) (sym fresh) here)
    where
      here : round bytes_source u request_line (start u p0 xs) ≡ stop (start u p0 xs)
      here = unfold round on_request_line in rw (none_yet, on_request_line)
