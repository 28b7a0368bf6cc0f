-- ===== src/Http/Parser/Fields.antt =====
-- http/httpparser.cpp: header lines and the rounds of ParseRequest over them.
use sinetlib.Base.{
  ℕ, suc, ◌+◌, ◌≡◌, refl, ap, ◌∙◌, ◌≢◌, List, some, true, false, [], ◌∷◌, ◌++◌, length, drop,
  length-append, take-length-append, drop-length-append, append_assoc, Bytes, Dict, arith, leb,
  ◌==◌, codes, insert,
}
use sinetlib.Net.Buffer.Search.{search_crlf-line, find_byte-cons, drop_behind}
use sinetlib.Net.Buffer.{found_before, find_byte}
use sinetlib.Http.Parser.Input.{bytes_source}
use sinetlib.Http.Parser.Line.{IsRequestLine, parse_request_line_accepts}
use sinetlib.Http.Parser.Loop.{crlf_in, Ends, ends_later, start}
use sinetlib.Http.Parser.Stoi.{stoi_size}
use sinetlib.Http.Parser.{
  Parser, request_line, header, body, got_all, finish, Run, Round, again, stop, on_request_line,
  end_headers, on_header, on_body, round, set_target, method, LineState, add_parameters,
}
use sinetlib.Http.Request.{
  Method, Version, HttpRequest, set_version, set_receive_time, get_header, add_header, trim_end,
  skip_spaces,
}

abbrev pub crlf : Bytes → Bytes
crlf rest = 13 ∷ 10 ∷ rest

-- A line without a carriage return.
abbrev pub IsLine : Bytes → Type 0
IsLine line = find_byte 13 line ≡ length line

pub crlf_in-line :
    (line rest : Bytes) → IsLine line → crlf_in (line ++ crlf rest) ≡ some (length line)
unfolding found_before
crlf_in-line line rest h = rw (search_crlf-line line rest h) (rw less)
  where
    less : (length line == length (line ++ crlf rest)) ≡ false
    less = ground (arith, length-append line (crlf rest))

drop-line : (line rest : Bytes) → drop (length line + 2) (line ++ crlf rest) ≡ rest
drop-line line rest = rw (← append_assoc line (13 ∷ 10 ∷ []) rest) (
    drop-length-append (line ++ 13 ∷ 10 ∷ []) rest _
      (omega (arith, length-append line (13 ∷ 10 ∷ []))))

-- A field name without ':', and a value; no carriage return in either.
pub record IsField (f : Bytes × Bytes) : Type 0 where
  pub name : find_byte b':' f.0 ≡ length f.0
  pub line : IsLine (f.0 ++ b':' ∷ f.1)

pub data AreFields : List (Bytes × Bytes) → Type 0 where
  no_fields : AreFields []
  more_fields :
      {f : Bytes × Bytes} {fs : List (Bytes × Bytes)}
      → IsField f
      → AreFields fs
      → AreFields (f ∷ fs)

-- The header as it is sent, up to the empty line.
abbrev pub render_fields : List (Bytes × Bytes) → Bytes → Bytes
render_fields [] rest = crlf rest
render_fields ((n, v) ∷ fs) rest = (n ++ b':' ∷ v) ++ crlf (render_fields fs rest)

-- Values are stored without the spaces round them; a later field takes the place of an earlier one.
abbrev pub store_fields : Dict → List (Bytes × Bytes) → Dict
store_fields d [] = d
store_fields d ((n, v) ∷ fs) = store_fields (insert n (trim_end (skip_spaces v)) d) fs

not_empty : (xs : Bytes) → xs ≢ [] → (length xs == 0) ≡ false
not_empty [] h = absurd (h refl)
not_empty (x ∷ xs) h = ground arith

module _ (t : ℕ) where
  abbrev header_run : HttpRequest → LineState → ℕ → Bytes → Run Bytes
  header_run q l n xs = record {
    parser = record { state = header; line_state = l; request = q; body_length = n };
    buf = xs;
    ok = some true;
  }

  field_round :
      (q : HttpRequest) (l : LineState) (n : ℕ) (f : Bytes × Bytes) (rest : Bytes)
      → IsField f
      → round bytes_source t header (header_run q l n ((f.0 ++ b':' ∷ f.1) ++ crlf rest))
        ≡ again (
            header_run
              (record q { headers = insert f.0 (trim_end (skip_spaces f.1)) q.headers })
              l
              n
              rest)
  unfolding round on_header add_header
  field_round q l n (name, value) rest h =
      rw (crlf_in-line (name ++ b':' ∷ value) rest h.line, on_header)
        (rw
          (
            take-length-append (name ++ b':' ∷ value) (crlf rest) _ refl,
            drop-line (name ++ b':' ∷ value) rest,
          )
          (rw (find_byte-cons b':' name value h.name, inside)
            (rw (
              take-length-append name (b':' ∷ value) _ refl,
              drop_behind name value b':' (length name + 1) (omega arith),
            ))))
    where
      inside : (length name == length (name ++ b':' ∷ value)) ≡ false
      inside = ground (arith, length-append name (b':' ∷ value))

  -- The headers of a request, and the empty line behind them.
  pub fields_run :
      (q : HttpRequest) (l : LineState) (n : ℕ) (fs : List (Bytes × Bytes)) (rest : Bytes)
      {x : Round Bytes}
      → AreFields fs
      → Ends t (header_run (record q { headers = store_fields q.headers fs }) l n (crlf rest)) x
      → Ends t (header_run q l n (render_fields fs rest)) x
  fields_run q l n _ rest no_fields e = e
  fields_run q l n _ rest (more_fields {f} {fs} h hs) e =
      ends_later (field_round q l n f (render_fields fs rest) h) (
        fields_run (record q { headers = insert f.0 (trim_end (skip_spaces f.1)) q.headers }) l n fs
          rest hs e)

  -- The empty line of a request that names no length.
  pub last_round :
      (q : HttpRequest) (l : LineState) (n : ℕ) (rest : Bytes)
      → get_header q (codes "Content-Length") ≡ []
      → round bytes_source t header (header_run q l n (crlf rest))
        ≡ stop (record {
          parser = record { state = got_all; line_state = l; request = q; body_length = n };
          buf = rest;
          ok = some true;
        })
  unfolding round on_header end_headers find_byte
  last_round q l n rest h = rw (crlf_in-line [] rest refl, on_header) (rw (h, end_headers))

  -- The empty line of a request that names one.
  pub length_round :
      (q : HttpRequest) (l : LineState) (n size : ℕ) (rest : Bytes)
      → get_header q (codes "Content-Length") ≢ []
      → stoi_size (get_header q (codes "Content-Length")) ≡ some size
      → round bytes_source t header (header_run q l n (crlf rest))
        ≡ again (record {
          parser = record { state = body; line_state = l; request = q; body_length = size };
          buf = rest;
          ok = some true;
        })
  unfolding round on_header end_headers find_byte
  length_round q l n size rest ne h =
      rw (crlf_in-line [] rest refl, on_header) (rw (not_empty _ ne, h, end_headers))

  pub body_round :
      (q : HttpRequest) (l : LineState) (form rest : Bytes)
      → round bytes_source t body (record {
        parser = record { state = body; line_state = l; request = q; body_length = length form };
        buf = form ++ rest;
        ok = some true;
      })
        ≡ stop (record {
          parser = record {
            state = got_all;
            line_state = l;
            request = add_parameters (suc (length form)) q form;
            body_length = length form;
          };
          buf = form ++ rest;
          ok = some true;
        })
  unfolding round on_body
  body_round q l form rest = rw (enough, take-length-append form rest (length form) refl)
    where
      enough : leb (length form) (length (form ++ rest)) ≡ true
      enough = ground (arith, length-append form rest)

  -- The request line of a parser that expects one.
  pub first_round :
      (p : Parser) {line : Bytes} {m : Method} {target : Bytes} {v : Version} (rest : Bytes)
      → p.state ≡ request_line
      → p.line_state ≡ method
      → IsRequestLine line m target v
      → IsLine line
      → round bytes_source t p.state (start t p (line ++ crlf rest))
        ≡ again (
            header_run
              (set_receive_time
                (set_version (set_target (record p.request { method = m }) target) v)
                t)
              finish
              p.body_length
              rest)
  unfolding round on_request_line
  first_round p {line} {m} {target} {v} rest e d h c =
      ap (λ s. round bytes_source t s (start t p (line ++ crlf rest))) e
      ∙ rw (crlf_in-line line rest c, on_request_line)
          (rw (take-length-append line (crlf rest) _ refl, drop-line line rest)
            (rw (parse_request_line_accepts p m target v d h)))
