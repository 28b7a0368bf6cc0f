-- ===== src/Http/Server/Answers.antt =====
-- http/httpserver.cpp, HttpServer::OnMessage and OnRequest: what a message is answered with.
use sinetlib.Base.{
  ℕ, ◌≡◌, refl, sym, ap, ◌∙◌, Bool, Option, some, List, [], ◌++◌, Bytes, codes, subst,
}
use sinetlib.Http.Parser.Fields.{AreFields, IsLine, crlf, render_fields}
use sinetlib.Http.Parser.Whole.{parse_request_whole, stored}
use sinetlib.Http.Parser.Input.{
  Alike, finished, unfinished, agree_again, agree_stop, agree_thrown, Holds, buffer_source,
  bytes_source, parse_request-Alike,
}
use sinetlib.Http.Parser.Size.{parse_request-buffer}
use sinetlib.Http.Parser.Line.{IsRequestLine}
use sinetlib.Http.Parser.{
  Parser, request_line, method, Run, Round, stop, parse_request, reset, is_got_all,
}
use sinetlib.Http.Request.{Method, Version, get_header}
use sinetlib.Http.Router.{Route}
use sinetlib.Http.Server.{Handler, handled, on_message, on_request, finish_message}
use sinetlib.Net.Buffer.Valid.{IsValid}
use sinetlib.Net.Buffer
use sinetlib.Net.Buffer.{Buffer}
use sinetlib.Net.Connection.{Connection, WriteResult}

-- A buffer that parses as bytes do which end with `stop`.
pub stop_in_buffer :
    (t : ℕ) (p : Parser) {b : Buffer} (s : Run Bytes)
    → IsValid b
    → parse_request bytes_source t p (Buffer.readable b) ≡ some (stop s)
    → (r : Run Buffer) × (parse_request buffer_source t p b ≡ some (stop r)) × Holds r s
stop_in_buffer t p {b} s v e = go _ _ (parse_request-Alike t p v) refl e
  where
    go :
        (x : Option (Round Buffer)) (y : Option (Round Bytes))
        → Alike x y
        → x ≡ parse_request buffer_source t p b
        → y ≡ some (stop s)
        → (r : Run Buffer) × (parse_request buffer_source t p b ≡ some (stop r)) × Holds r s
    go _ _ unfinished a c = absurd cc
    go _ _ (finished (agree_again h)) a c = absurd cc
    go _ _ (finished (agree_thrown h)) a c = absurd cc
    go _ _ (finished (agree_stop {r} {s = z} h)) a c =
        let same : z ≡ s = cc in (r, sym a, subst (Holds r) same h)

module _ (regex_match : Bytes → Bytes → Option (List Bytes)) (default_handler : Handler)
    (routes : List (Route Handler)) where
  -- A parser that expects a request, and an input that starts with a whole request without a body:
  -- OnMessage answers just this request, resets the parser for the next one, and leaves in the input
  -- what follows the request, in the same vector.
  pub on_message_whole :
      (c : Connection) (p : Parser) (t : ℕ) (garbage : Bool) (refusal result : WriteResult)
      {line : Bytes} {m : Method} {target : Bytes} {v : Version} {fs : List (Bytes × Bytes)}
      (rest : Bytes)
      → IsValid c.input
      → Buffer.readable c.input ≡ line ++ crlf (render_fields fs rest)
      → p.state ≡ request_line
      → p.line_state ≡ method
      → IsRequestLine line m target v
      → IsLine line
      → AreFields fs
      → get_header (stored t p.request m target v fs) (codes "Content-Length") ≡ []
      → (b : Buffer) × IsValid b
        × (Buffer.readable b ≡ rest)
        × (b.buffer ≡ c.input.buffer)
        × (on_message regex_match default_handler routes c p t garbage refusal result ≡ (
            let (d, effects) =
              on_request regex_match default_handler routes
                (record c { input = b })
                (stored t p.request m target v fs)
                result in
            handled d (reset p) effects))
  unfolding on_message finish_message is_got_all reset
  on_message_whole c p t garbage refusal result {line} {m} {target} {v} {fs} rest valid bytes e d l
        k fields no_length =
      let parsed = parse_request_whole t p e d l k fields rest no_length in
      let (r, run, h) =
        stop_in_buffer t p _ valid (ap (parse_request bytes_source t p) bytes ∙ parsed) in
      (
        r.buf,
        h.valid,
        h.bytes,
        parse_request-buffer t p c.input run,
        rw (run, on_message) (rw (h.parser, h.ok) refl),
      )
