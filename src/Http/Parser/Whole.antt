-- ===== src/Http/Parser/Whole.antt =====
-- http/httpparser.cpp: ParseRequest over whole requests, without a body and with a form.
use sinetlib.Base.{ℕ, suc, ◌≡◌, ◌≢◌, List, some, true, [], ◌++◌, length, Bytes, codes}
use sinetlib.Http.Parser.Input.{bytes_source}
use sinetlib.Http.Parser.Line.{IsRequestLine}
use sinetlib.Http.Parser.Loop.{ends_stop, ends_later, parse_request-eq}
use sinetlib.Http.Parser.Stoi.{stoi_size}
use sinetlib.Http.Parser.{
  Parser, request_line, got_all, finish, stop, parse_request, set_target, method, add_parameters,
}
use sinetlib.Http.Request.{Method, Version, HttpRequest, set_version, set_receive_time, get_header}
use sinetlib.Http.Parser.Fields.{
  crlf, IsLine, AreFields, render_fields, store_fields, fields_run, last_round, length_round,
  body_round, first_round,
}

-- What a parser keeps of a request line and fields.
abbrev pub stored : ℕ → HttpRequest → Method → Bytes → Version → List (Bytes × Bytes) → HttpRequest
stored t q m target v fs =
    let r = set_receive_time (set_version (set_target (record q { method = m }) target) v) t in
    record r { headers = store_fields r.headers fs }

module _ (t : ℕ) (p : Parser) {line : Bytes} {m : Method} {target : Bytes} {v : Version}
    {fs : List (Bytes × Bytes)} (fresh : p.state ≡ request_line)
    (fresh_line : p.line_state ≡ method) (h : IsRequestLine line m target v) (c : IsLine line)
    (fields : AreFields fs) where
  -- For a parser that expects a request: over a request line, header fields and the empty line, of
  -- which none has a stray carriage return and which name no Content-Length, ParseRequest returns
  -- true with the whole request stored, and leaves in the buffer what follows the empty line.
  pub parse_request_whole :
      (rest : Bytes)
      → get_header (stored t p.request m target v fs) (codes "Content-Length") ≡ []
      → parse_request bytes_source t p (line ++ crlf (render_fields fs rest))
        ≡ some (
            stop (record {
              parser = record {
                state = got_all;
                line_state = finish;
                request = stored t p.request m target v fs;
                body_length = p.body_length;
              };
              buf = rest;
              ok = some true;
            }))
  parse_request_whole rest no_length = parse_request-eq t p _ (
      ends_later (first_round t p (render_fields fs rest) fresh fresh_line h c) (
        fields_run t _ finish p.body_length fs rest fields
          (ends_stop (last_round t _ finish p.body_length rest no_length))))

  -- The same for a request whose Content-Length is the length of the form behind it: the
  -- parameters of the form are added, and the form itself stays in the buffer, in front of the
  -- next request.
  pub parse_request_form :
      (form rest : Bytes)
      → get_header (stored t p.request m target v fs) (codes "Content-Length") ≢ []
      → stoi_size (get_header (stored t p.request m target v fs) (codes "Content-Length"))
        ≡ some (length form)
      → parse_request bytes_source t p (line ++ crlf (render_fields fs (form ++ rest)))
        ≡ some (
            stop (record {
              parser = record {
                state = got_all;
                line_state = finish;
                request =
                    add_parameters (suc (length form)) (stored t p.request m target v fs) form;
                body_length = length form;
              };
              buf = form ++ rest;
              ok = some true;
            }))
  parse_request_form form rest ne size = parse_request-eq t p _ (
      ends_later (first_round t p (render_fields fs (form ++ rest)) fresh fresh_line h c) (
        fields_run t _ finish p.body_length fs (form ++ rest) fields (
          ends_later (length_round t _ finish p.body_length (length form) (form ++ rest) ne size)
            (ends_stop (body_round t _ finish form rest)))))
