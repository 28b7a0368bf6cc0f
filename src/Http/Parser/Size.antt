-- ===== src/Http/Parser/Size.antt =====
-- http/httpparser.cpp: ParseRequest takes bytes from the buffer, and never makes its vector larger.
use sinetlib.Base.{
  ℕ, zero, suc, ◌+◌, ◌≡◌, refl, sym, ap, ◌∙◌, inl, inr, some, Option-cases, Bool-cases, take,
  length, codes, leb, ◌==◌, arith,
}
use sinetlib.Http.Parser.Input.{buffer_source}
use sinetlib.Http.Parser.Stoi.{stoi_size}
use sinetlib.Http.Parser.{
  Parser, ParseState, request_line, header, body, got_all, Run, Round, again, stop, thrown,
  parse_request_line, on_request_line, end_headers, on_header, on_body, round, parse_loop,
  parse_request,
}
use sinetlib.Http.Request.{get_header}
use sinetlib.Net.Buffer
use sinetlib.Net.Buffer.{Buffer, find_byte}

abbrev buf_of : Round Buffer → Buffer
buf_of (again r) = r.buf
buf_of (stop r) = r.buf
buf_of (thrown r) = r.buf

-- The vector behind the buffer is the same.
abbrev Retains : Run Buffer → Round Buffer → Type 0
Retains r x = (buf_of x).buffer ≡ r.buf.buffer

retrieve_until-buffer : (b : Buffer) (n : ℕ) → (Buffer.retrieve_until b n).buffer ≡ b.buffer
unfolding Buffer.retrieve_until Buffer.retrieve_all
retrieve_until-buffer b n = ground arith

module _ (t : ℕ) where
  end-Retains :
      (r : Run Buffer) (b : Buffer)
      → b.buffer ≡ r.buf.buffer
      → Retains r (end_headers buffer_source t r b)
  unfolding end_headers
  end-Retains r b h =
      elim (Bool-cases (length (get_header r.parser.request (codes "Content-Length")) == 0)) [
        | inl absent ↦ rw absent h
        | inr present ↦
            rw present
              (elim (Option-cases
                (stoi_size (get_header r.parser.request (codes "Content-Length")))) [
                  | inl e ↦ rw e refl
                  | inr (m, e) ↦ rw e h
                ])
      ]

  round-Retains : (s : ParseState) (r : Run Buffer) → Retains r (round buffer_source t s r)
  unfolding round on_request_line on_header on_body
  round-Retains request_line r = elim (Option-cases (Buffer.find_crlf r.buf)) [
    | inl e ↦ rw (e, on_request_line) refl
    | inr (i, e) ↦
        rw (e, on_request_line)
          (elim (Bool-cases (parse_request_line r.parser (take i (Buffer.readable r.buf))).0) [
            | inl good ↦ rw good (retrieve_until-buffer r.buf (i + 2))
            | inr bad ↦ rw bad refl
          ])
  ]
  round-Retains header r = elim (Option-cases (Buffer.find_crlf r.buf)) [
    | inl e ↦ rw (e, on_header) refl
    | inr (i, e) ↦
        rw (e, on_header)
          (elim (Bool-cases (
            find_byte b':' (take i (Buffer.readable r.buf))
            == length (take i (Buffer.readable r.buf)))) [
              | inl last ↦ rw last (end-Retains r _ (retrieve_until-buffer r.buf (i + 2)))
              | inr more ↦ rw more (retrieve_until-buffer r.buf (i + 2))
            ])
  ]
  round-Retains body r = elim (Bool-cases (leb r.parser.body_length (Buffer.readable_size r.buf))) [
    | inl all ↦ rw all refl
    | inr less ↦ rw less refl
  ]
  round-Retains got_all r = refl

  parse_loop-Retains :
      (fuel : ℕ) (r : Run Buffer) (x : Round Buffer)
      → parse_loop buffer_source t fuel r ≡ some x
      → Retains r x
  unfolding parse_loop
  parse_loop-Retains zero r x e = cc
  parse_loop-Retains (suc fuel) r x e =
      go (round buffer_source t r.parser.state r) (round-Retains r.parser.state r)
        (parse_loop-Retains fuel) e
    where
      go :
          (y : Round Buffer)
          → Retains r y
          → ((q : Run Buffer) (z : Round Buffer)
              → parse_loop buffer_source t fuel q ≡ some z
              → Retains q z)
          → (elim y [
            | again next ↦ parse_loop buffer_source t fuel next
            | stop last ↦ some (stop last)
            | thrown last ↦ some (thrown last)
          ])
            ≡ some x
          → Retains r x
      go (again q) h ih d = ih q x d ∙ h
      go (stop q) h ih d = let same : stop q ≡ x = cc in ap (λ y. (buf_of y).buffer) (sym same) ∙ h
      go (thrown q) h ih d =
          let same : thrown q ≡ x = cc in ap (λ y. (buf_of y).buffer) (sym same) ∙ h

  pub parse_request-buffer :
      (p : Parser) (b : Buffer) {r : Run Buffer}
      → parse_request buffer_source t p b ≡ some (stop r)
      → r.buf.buffer ≡ b.buffer
  unfolding parse_request
  parse_request-buffer p b e = parse_loop-Retains (Buffer.readable_size b + 2) _ _ e
