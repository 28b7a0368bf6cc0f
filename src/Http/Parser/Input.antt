-- ===== src/Http/Parser/Input.antt =====
-- The inputs of the parser: IOBuffer and the plain bytes.
use sinetlib.Base.{
  ℕ, zero, suc, ◌+◌, ◌≡◌, refl, Option, none, some, Bool, length, take, drop, Bytes, leb, ◌==◌, inl,
  inr, Bool-cases, Option-cases, codes, subst,
}
use sinetlib.Net.Buffer.Contents.{readable-retrieve}
use sinetlib.Net.Buffer.Valid.{IsValid, length-readable, retrieve-IsValid}
use sinetlib.Net.Buffer
use sinetlib.Net.Buffer.{Buffer, search_crlf, find_crlf, found_before, retrieve_until, find_byte}
use sinetlib.Http.Parser.{
  Parser, ParseState, request_line, header, body, got_all, Source, Run, Round, again, stop, thrown,
  parse_request_line, on_request_line, end_headers, on_header, on_body, round, parse_loop,
  parse_request,
}
use sinetlib.Http.Parser.Stoi.{stoi_size}
use sinetlib.Http.Request.{get_header}

abbrev pub buffer_source : Source Buffer
buffer_source = record {
  readable = Buffer.readable;
  readable_size = Buffer.readable_size;
  find_crlf = Buffer.find_crlf;
  retrieve_until = Buffer.retrieve_until;
}

abbrev pub bytes_source : Source Bytes
bytes_source = record {
  readable = λ xs. xs;
  readable_size = length;
  find_crlf = λ xs. found_before (length xs) (search_crlf xs);
  retrieve_until = λ xs n. drop n xs;
}

-- The same parser variables, and a buffer that holds the bytes.
pub record Holds (r : Run Buffer) (s : Run Bytes) : Type 0 where
  pub parser : r.parser ≡ s.parser
  pub ok : r.ok ≡ s.ok
  pub valid : IsValid r.buf
  pub bytes : Buffer.readable r.buf ≡ s.buf

-- Rounds that end the same way, in runs of which one holds the other.
pub data Agree : Round Buffer → Round Bytes → Type 0 where
  agree_again : {r : Run Buffer} {s : Run Bytes} → Holds r s → Agree (again r) (again s)
  agree_stop : {r : Run Buffer} {s : Run Bytes} → Holds r s → Agree (stop r) (stop s)
  agree_thrown : {r : Run Buffer} {s : Run Bytes} → Holds r s → Agree (thrown r) (thrown s)

-- Both inputs after CR LF at position i.
retrieved-Holds :
    {b : Buffer} (v : IsValid b) (p : Parser) (k : Option Bool) (n : ℕ)
    → Holds
        (record { parser = p; buf = Buffer.retrieve_until b n; ok = k })
        (record { parser = p; buf = drop n (Buffer.readable b); ok = k })
unfolding retrieve_until
retrieved-Holds v p k n = record {
  parser = refl;
  ok = refl;
  valid = retrieve-IsValid v n;
  bytes = readable-retrieve n v;
}

unmoved-Holds :
    {b : Buffer} (v : IsValid b) (p : Parser) (k : Option Bool)
    → Holds
        (record { parser = p; buf = b; ok = k })
        (record { parser = p; buf = Buffer.readable b; ok = k })
unmoved-Holds v p k = record { parser = refl; ok = refl; valid = v; bytes = refl }

module _ (t : ℕ) {b : Buffer} (v : IsValid b) (p : Parser) (k : Option Bool) where
  abbrev in_buffer : Run Buffer
  in_buffer = record { parser = p; buf = b; ok = k }

  abbrev in_bytes : Run Bytes
  in_bytes = record { parser = p; buf = Buffer.readable b; ok = k }

  abbrev crlf : Option ℕ
  crlf = found_before (length (Buffer.readable b)) (search_crlf (Buffer.readable b))

  line-Agree :
      Agree (on_request_line buffer_source t in_buffer) (on_request_line bytes_source t in_bytes)
  unfolding on_request_line find_crlf
  line-Agree = elim (Option-cases crlf) [
    | inl e ↦ rw (e, on_request_line) (agree_stop (unmoved-Holds v _ _))
    | inr (i, e) ↦
        rw (e, on_request_line)
          (elim (Bool-cases (parse_request_line p (take i (Buffer.readable b))).0) [
            | inl good ↦ rw good (agree_again (retrieved-Holds v _ _ (i + 2)))
            | inr bad ↦ rw bad (agree_stop (unmoved-Holds v _ _))
          ])
  ]

  end-Agree :
      (n : ℕ)
      → Agree
          (end_headers buffer_source t in_buffer (Buffer.retrieve_until b n))
          (end_headers bytes_source t in_bytes (drop n (Buffer.readable b)))
  unfolding end_headers
  end-Agree n = elim (Bool-cases (length (get_header p.request (codes "Content-Length")) == 0)) [
    | inl absent ↦ rw absent (agree_stop (retrieved-Holds v _ _ n))
    | inr present ↦
        rw present
          (elim (Option-cases (stoi_size (get_header p.request (codes "Content-Length")))) [
            | inl e ↦ rw e (agree_thrown (unmoved-Holds v _ _))
            | inr (m, e) ↦ rw e (agree_again (retrieved-Holds v _ _ n))
          ])
  ]

  header-Agree : Agree (on_header buffer_source t in_buffer) (on_header bytes_source t in_bytes)
  unfolding on_header find_crlf
  header-Agree = elim (Option-cases crlf) [
    | inl e ↦ rw (e, on_header) (agree_stop (unmoved-Holds v _ _))
    | inr (i, e) ↦
        rw (e, on_header)
          (elim (Bool-cases
            (find_byte b':' (take i (Buffer.readable b)) == length (take i (Buffer.readable b)))) [
              | inl last ↦ rw last (end-Agree (i + 2))
              | inr more ↦ rw more (agree_again (retrieved-Holds v _ _ (i + 2)))
            ])
  ]

  body-Agree : Agree (on_body buffer_source t in_buffer) (on_body bytes_source t in_bytes)
  unfolding on_body
  body-Agree =
      rw (← length-readable v) (elim (Bool-cases (leb p.body_length (length (Buffer.readable b)))) [
        | inl all ↦ rw all (agree_stop (unmoved-Holds v _ _))
        | inr less ↦ rw less (agree_stop (unmoved-Holds v _ _))
      ])

  round-Agree :
      (s : ParseState) → Agree (round buffer_source t s in_buffer) (round bytes_source t s in_bytes)
  unfolding round
  round-Agree request_line = line-Agree
  round-Agree header = header-Agree
  round-Agree body = body-Agree
  round-Agree got_all = agree_stop (unmoved-Holds v _ _)

-- The plain bytes that a run over a buffer stands for.
abbrev pub to_bytes : Run Buffer → Run Bytes
to_bytes r = record { parser = r.parser; buf = Buffer.readable r.buf; ok = r.ok }

Holds-to_bytes : {r : Run Buffer} {s : Run Bytes} → Holds r s → to_bytes r ≡ s
Holds-to_bytes h = λ i. record { parser = h.parser i; buf = h.bytes i; ok = h.ok i }

-- Two whole parses that end the same way.
pub data Alike : Option (Round Buffer) → Option (Round Bytes) → Type 0 where
  unfinished : Alike none none
  finished : {r : Round Buffer} {s : Round Bytes} → Agree r s → Alike (some r) (some s)

module _ (t : ℕ) where
  parse_loop-Alike :
      (fuel : ℕ) (r : Run Buffer)
      → IsValid r.buf
      → Alike (parse_loop buffer_source t fuel r) (parse_loop bytes_source t fuel (to_bytes r))
  unfolding parse_loop
  parse_loop-Alike zero r v = unfinished
  parse_loop-Alike (suc fuel) r v =
      step _ _ (round-Agree t v r.parser r.ok r.parser.state) (parse_loop-Alike fuel)
    where
      step :
          (x : Round Buffer) (y : Round Bytes)
          → Agree x y
          → ((q : Run Buffer)
              → IsValid q.buf
              → Alike
                  (parse_loop buffer_source t fuel q)
                  (parse_loop bytes_source t fuel (to_bytes q)))
          → Alike
              (elim x [
                | again next ↦ parse_loop buffer_source t fuel next
                | stop last ↦ some (stop last)
                | thrown last ↦ some (thrown last)
              ])
              (elim y [
                | again next ↦ parse_loop bytes_source t fuel next
                | stop last ↦ some (stop last)
                | thrown last ↦ some (thrown last)
              ])
      step _ _ (agree_again {r = q} h) ih =
          subst (λ s. Alike (parse_loop buffer_source t fuel q) (parse_loop bytes_source t fuel s))
            (Holds-to_bytes h) (ih q h.valid)
      step _ _ (agree_stop h) ih = finished (agree_stop h)
      step _ _ (agree_thrown h) ih = finished (agree_thrown h)

  -- ParseRequest over a valid IOBuffer ends as it does over its readable bytes: the same parser, the
  -- same result, and the bytes that are left.
  pub parse_request-Alike :
      (p : Parser) {b : Buffer}
      → IsValid b
      → Alike
          (parse_request buffer_source t p b)
          (parse_request bytes_source t p (Buffer.readable b))
  unfolding parse_request
  parse_request-Alike p {b} v =
      rw (length-readable v) (
        parse_loop-Alike (Buffer.readable_size b + 2) (record { parser = p; buf = b; ok = none }) v)
