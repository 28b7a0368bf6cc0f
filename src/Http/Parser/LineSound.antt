-- ===== src/Http/Parser/LineSound.antt =====
-- http/httpparser.cpp: that ParseRequestLine accepts request lines only.
use sinetlib.Base.{
  ℕ, suc, ◌+◌, ◌<◌, ◌≡◌, refl, sym, ap, ap₂, ◌∙◌, ◌≢◌, ◌⊎◌, inl, inr, true, false, ◌∷◌, ◌++◌,
  length, take, drop, length-drop, take-append-drop, drop-drop, Bytes, arith, codes, equal_iff,
}
use sinetlib.Net.Buffer.Search.{find_byte-le, find_byte-take, find_byte-splits}
use mathlib.Core.Bool.{false≢true}
use sinetlib.Net.Buffer.{find_byte}
use sinetlib.Http.Request.{Method, Version, http10, http11, set_method, method_named, is_valid}
use sinetlib.Http.Parser.{
  Parser, method, url, version, LineStep, refuse, go_on, line_step, line_method, line_url,
  line_version, is_finish, line_loop, find_space, parse_request_line,
}
use sinetlib.Http.Parser.Line.{version_text, IsRequestLine, method_str-method_named}

LineStep-cases :
    (x : LineStep) → ((q : Parser) × (x ≡ refuse q)) ⊎ ((q : Parser) × (n : ℕ) × (x ≡ go_on q n))
LineStep-cases (refuse q) = inl (q, refl)
LineStep-cases (go_on q n) = inr (q, n, refl)

-- A loop that accepts has gone on.
line_loop-accepts :
    (fuel : ℕ) (p : Parser) (line : Bytes) (space : ℕ)
    → is_finish p.line_state ≡ false
    → (line_loop (suc fuel) p line space).0 ≡ true
    → (q : Parser) × (n : ℕ) × (line_step p.line_state p line space ≡ go_on q n)
      × ((line_loop fuel q line n).0 ≡ true)
unfolding line_loop
line_loop-accepts fuel p line space more h =
    elim (LineStep-cases (line_step p.line_state p line space)) [
      | inl (q, e) ↦ absurd (false≢true (rw (more, e, line_loop) at h))
      | inr (q, n, e) ↦ (q, n, e, rw (more, e, line_loop) at h)
    ]

method_gone :
    (p q : Parser) (line : Bytes) (space n : ℕ)
    → line_method p line space ≡ go_on q n
    → (space ≢ length line)
      × (is_valid (method_named (take space line)) ≡ true)
      × (q.line_state ≡ url)
      × (n ≡ space)
unfolding line_method set_method
method_gone p q line space n e = ground arith

url_gone :
    (p q : Parser) (line : Bytes) (space n : ℕ)
    → line_url p line space ≡ go_on q n
    → (find_space line (space + 1) ≢ length line)
      × (q.line_state ≡ version)
      × (n ≡ find_space line (space + 1))
unfolding line_url
url_gone p q line space n e = ground arith

version_facts :
    (p q : Parser) (line : Bytes) (space n : ℕ)
    → line_version p line space ≡ go_on q n
    → (take 7 (drop (space + 1) line) ≡ codes "HTTP/1.")
      × ((drop 7 (drop (space + 1) line) ≡ codes "1")
          ⊎ (drop 7 (drop (space + 1) line) ≡ codes "0"))
unfolding line_version
version_facts p q line space n e = ground (
  arith,
  equal_iff (take 7 (drop (space + 1) line)) (codes "HTTP/1."),
  equal_iff (drop 7 (drop (space + 1) line)) (codes "1"),
  equal_iff (drop 7 (drop (space + 1) line)) (codes "0"),
)

version_gone :
    (p q : Parser) (line : Bytes) (space n : ℕ)
    → line_version p line space ≡ go_on q n
    → (v : Version) × (v ≢ Version.unknown) × (drop (space + 1) line ≡ version_text v)
version_gone p q line space n e =
    let (a, b) = version_facts p q line space n e in
    let whole = sym (take-append-drop 7 (drop (space + 1) line)) in
    elim b [
      | inl one ↦ (http11, (λ h. cc), whole ∙ ap₂ ◌++◌ a one)
      | inr zero_ ↦ (http10, (λ h. cc), whole ∙ ap₂ ◌++◌ a zero_)
    ]

-- The line behind one space, split at the next.
behind_splits :
    (line tail : Bytes) (space n : ℕ)
    → space < length line
    → find_space line (space + 1) ≢ length line
    → n ≡ find_space line (space + 1)
    → drop (n + 1) line ≡ tail
    → let back = drop (space + 1) line in back ≡ take (find_byte 32 back) back ++ 32 ∷ tail
unfolding find_space
behind_splits line tail space n h found at e =
    find_byte-splits 32 (drop (space + 1) line) inner
    ∙ ap (λ ys. take (find_byte 32 (drop (space + 1) line)) (drop (space + 1) line) ++ 32 ∷ ys)
        (drop-drop (space + 1) (find_byte 32 (drop (space + 1) line) + 1) (n + 1) line (omega arith)
          ∙ e)
  where
    inner : find_byte 32 (drop (space + 1) line) < length (drop (space + 1) line)
    inner = ground (arith, find_byte-le 32 (drop (space + 1) line), length-drop (space + 1) line)

-- Behind the first space of an accepted line stand a target without spaces and a version.
url_accepted :
    (p : Parser) (line : Bytes) (space : ℕ)
    → p.line_state ≡ url
    → space < length line
    → (line_loop 3 p line space).0 ≡ true
    → (target : Bytes) × (v : Version) × (v ≢ Version.unknown)
      × (find_byte 32 target ≡ length target)
      × (drop (space + 1) line ≡ target ++ 32 ∷ version_text v)
url_accepted p line space u inside h =
    let (q, n, e, g) = line_loop-accepts 2 p line space (ap is_finish u) h in
    let (found, w, at) =
      url_gone p q line space n (sym (ap (λ s. line_step s p line space) u) ∙ e) in
    let (q', n', e', g') = line_loop-accepts 1 q line n (ap is_finish w) g in
    let (v, dated, tail) =
      version_gone q q' line n n' (sym (ap (λ s. line_step s q line n) w) ∙ e') in
    let back = drop (space + 1) line in
    (
      take (find_byte 32 back) back,
      v,
      dated,
      find_byte-take 32 back,
      behind_splits line (version_text v) space n inside found at tail,
    )

first_splits :
    (line : Bytes) (n : ℕ)
    → find_space line 0 ≢ length line
    → n ≡ find_space line 0
    → line ≡ take (find_space line 0) line ++ 32 ∷ drop (n + 1) line
first_splits line n found at =
    rw (at, first) (find_byte-splits 32 line (ground (arith, find_byte-le 32 line, first)))
  where
    first : find_space line 0 ≡ find_byte 32 line
    first = unfold find_space in omega arith

-- A parser at the start of a line accepts nothing but request lines: a known method, a target
-- without spaces and a known version, with one space between.
pub parse_request_line_sound :
    (p : Parser) (line : Bytes)
    → p.line_state ≡ method
    → (parse_request_line p line).0 ≡ true
    → (m : Method) × (target : Bytes) × (v : Version) × IsRequestLine line m target v
unfolding parse_request_line
parse_request_line_sound p line e h =
    let (q, n, go, g) = line_loop-accepts 3 p line (find_space line 0) (ap is_finish e) h in
    let (found, known, u, at) =
      method_gone p q line (find_space line 0) n
        (sym (ap (λ s. line_step s p line (find_space line 0)) e) ∙ go) in
    let (target, v, dated, no_space, back) =
      url_accepted q line n u (omega (arith, at, inside found)) g in
    (
      method_named (take (find_space line 0) line),
      target,
      v,
      record {
        text =
            first_splits line n found at
            ∙ ap₂ (λ a b. a ++ 32 ∷ b) (sym (method_str-method_named _ known)) back;
        known = known;
        no_space = no_space;
        dated = dated;
      },
    )
  where
    inside : find_space line 0 ≢ length line → find_space line 0 < length line
    inside ne = unfold find_space in ground (arith, find_byte-le 32 line)
