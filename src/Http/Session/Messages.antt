-- ===== src/Http/Session/Messages.antt =====
-- http/httpserver.cpp, OnMessage: what it makes of bytes that a report has brought.
use sinetlib.Base.{
  ℕ, ◌≡◌, ◌≢◌, refl, sym, ap, ◌∙◌, subst, true, false, Option, List, [], ◌∷◌, ◌++◌, append-nil,
  length, Bytes, arith,
}
use sinetlib.Http.Parser.Loop.{Ends, start, parse_request-eq}
use sinetlib.Http.Parser.Size.{parse_request-buffer}
use sinetlib.Http.Parser.{
  Parser, ParseState, request_line, header, body, got_all, Run, stop, reset, is_got_all,
}
use sinetlib.Http.Request.{HttpRequest}
use sinetlib.Http.Router.{Route}
use sinetlib.Http.Server.Answers.{stop_in_buffer}
use sinetlib.Http.Server.{Handler, handled, ok_or, on_message, on_request, finish_message}
use sinetlib.Http.Session.Calls.{after_read-handled, with_input}
use sinetlib.Http.Session.Served.{Goes, IsIdle, answer, Stays}
use sinetlib.Http.Session.{Report, shuts, after_read, opened}
use sinetlib.Net.Buffer
use sinetlib.Net.Buffer.Reading.{read_fd_lem}
use sinetlib.Net.Buffer.Valid.{IsValid, Fits}
use sinetlib.Net.Buffer.{Buffer, received}
use sinetlib.Net.Connection.Growth.{Grows, send-Grows}
use sinetlib.Net.Connection.Stream.{Inv, stream, send-stream}
use sinetlib.Net.Connection.{
  Connection, WriteResult, message_arrival, wrote, would_block, broken, send, after_write,
  keep_rest, send_buffer,
}

send-shuts :
    (c : Connection) (xs : Bytes) (result : WriteResult) → shuts (send c xs result).1 ≡ false
unfolding send after_write keep_rest shuts
send-shuts c xs (wrote n) = ground arith
send-shuts c xs would_block = ground arith
send-shuts c xs broken = ground arith

is_got_all_not : (p : Parser) → p.state ≢ got_all → is_got_all p ≡ false
unfolding is_got_all
is_got_all_not p ne = go p.state ne
  where
    go : (s : ParseState) → s ≢ got_all → (elim s [ got_all ↦ true | _ ↦ false ]) ≡ false
    go request_line h = refl
    go header h = refl
    go body h = refl
    go got_all h = absurd (h refl)

is_got_all_all : (p : Parser) → p.state ≡ got_all → is_got_all p ≡ true
unfolding is_got_all
is_got_all_all p e = rw e refl

with_input_Inv : {c : Connection} {b : Buffer} → Inv c → Inv (record c { input = b })
with_input_Inv v = record { valid = v.valid; idle = v.idle; busy = v.busy }

module _ (regex_match : Bytes → Bytes → Option (List Bytes)) (default_handler : Handler)
    (routes : List (Route Handler)) where
  -- A parse that stops well leaves OnMessage with its parser and its bytes.
  message :
      (k : Report) (p : Parser) (c : Connection) {l : Run Bytes}
      → IsValid c.input
      → Ends k.time (start k.time p (Buffer.readable c.input)) (stop l)
      → ok_or k.garbage l.ok ≡ true
      → (b : Buffer) × IsValid b
        × (Buffer.readable b ≡ l.buf)
        × (b.buffer ≡ c.input.buffer)
        × (on_message regex_match default_handler routes c p k.time k.garbage k.refusal k.reply
            ≡ finish_message regex_match default_handler routes
                (record c { input = b })
                l.parser
                true
                k.refusal
                k.reply)
  unfolding on_message
  message k p c {l} v run good =
      let (r, found, h) =
        stop_in_buffer k.time p l v (parse_request-eq k.time p (Buffer.readable c.input) run) in
      (
        r.buf,
        h.valid,
        h.bytes,
        parse_request-buffer k.time p c.input found,
        rw (found, on_message) (rw (h.parser, h.ok, good) refl),
      )

  finish_part :
      (c : Connection) (p : Parser) (refusal result : WriteResult)
      → p.state ≢ got_all
      → finish_message regex_match default_handler routes c p true refusal result ≡ handled c p []
  unfolding finish_message
  finish_part c p refusal result ne = rw (is_got_all_not p ne, finish_message) refl

  finish_all :
      (c : Connection) (p : Parser) (refusal result : WriteResult)
      → p.state ≡ got_all
      → finish_message regex_match default_handler routes c p true refusal result ≡ (
          let (d, effects) = on_request regex_match default_handler routes c p.request result in
          handled d (reset p) effects)
  unfolding finish_message
  finish_all c p refusal result e = rw (is_got_all_all p e, finish_message) refl

  -- The response of OnRequest on the connection.
  request_Grows :
      (c : Connection) (q : HttpRequest) (result : WriteResult)
      → Inv c
      → Fits c.output (length (answer regex_match default_handler routes q))
      → let d = (on_request regex_match default_handler routes c q result).0 in
        let text = answer regex_match default_handler routes q in
        Inv d × (stream d ≡ stream c ++ text) × Grows c (length text) d
  unfolding on_request send_buffer
  request_Grows c q result v f =
      let text = answer regex_match default_handler routes q in
      let (inv, bytes) = send-stream c text result v f in (inv, bytes, send-Grows c text result v f)

  -- A response that does not ask for it does not shut the connection.
  request-Stays :
      (c : Connection) (q : HttpRequest) (result : WriteResult)
      → Stays regex_match default_handler routes q
      → shuts (on_request regex_match default_handler routes c q result).1 ≡ false
  unfolding on_request send_buffer
  request-Stays c q result stays =
      let text = answer regex_match default_handler routes q in
      rw (stays, append-nil (send c text result).1) (send-shuts c text result)

  -- The last bytes of a request: it is answered, and the parser is ready for the next one.
  pub answered_Goes :
      (k : Report) (p : Parser) (xs : Bytes) {c : Connection} {l : Run Bytes} {q : HttpRequest}
      → Inv c
      → IsValid c.input
      → Fits c.input (length xs)
      → Fits c.output (length (answer regex_match default_handler routes q))
      → Stays regex_match default_handler routes q
      → Ends k.time (start k.time p (Buffer.readable c.input ++ xs)) (stop l)
      → ok_or k.garbage l.ok ≡ true
      → l.parser.state ≡ got_all
      → l.parser.request ≡ q
      → l.buf ≡ []
      → Goes IsIdle c (length xs) (answer regex_match default_handler routes q) (
          after_read regex_match default_handler routes k p
            (with_input c xs)
            (message_arrival ∷ []))
  unfolding reset
  answered_Goes k p xs {c} {l} {q} inv valid f g stays run good all kept used =
      let (a, _) = read_fd_lem (received xs) valid f in
      let c0 = with_input c xs in
      let (b, v, bytes, size, done) =
        message k p c0 a.valid
          (subst (λ zs. Ends k.time (start k.time p zs) (stop l)) (sym a.bytes) run) good in
      let c1 = record c { input = b } in
      let (inv', behind, grown) = request_Grows c1 q k.reply (with_input_Inv inv) g in
      let finished = finish_all c1 l.parser k.refusal k.reply all in
      record {
        d = (on_request regex_match default_handler routes c1 q k.reply).0;
        p = reset l.parser;
        open_still =
            after_read-handled regex_match default_handler routes k p c0 (done ∙ finished) (
              request-Stays c1 l.parser.request k.reply
                (subst (Stays regex_match default_handler routes) (sym kept) stays))
            ∙ ap
                (λ x.
                  opened (on_request regex_match default_handler routes c1 x k.reply).0
                    (reset l.parser))
                kept;
        inv = inv';
        input = record {
          valid = subst IsValid (sym grown.input) v;
          empty = ap Buffer.readable grown.input ∙ bytes ∙ used;
          state = refl;
          line_state = refl;
          fresh = refl;
        };
        bytes = behind;
        input_size = omega (
          arith,
          ap (λ (x : Buffer). length x.buffer) grown.input,
          ap (length {A = ℕ}) size,
          a.growth,
        );
        output_size = grown.output;
      }

  -- Bytes in the middle of a request.
  pub part_Goes :
      {P : Buffer → Parser → Type 0} (k : Report) (p : Parser) (xs : Bytes) {c : Connection}
      {l : Run Bytes}
      → Inv c
      → IsValid c.input
      → Fits c.input (length xs)
      → Ends k.time (start k.time p (Buffer.readable c.input ++ xs)) (stop l)
      → ok_or k.garbage l.ok ≡ true
      → l.parser.state ≢ got_all
      → ((b : Buffer) → IsValid b → Buffer.readable b ≡ l.buf → P b l.parser)
      → Goes P c (length xs) [] (
          after_read regex_match default_handler routes k p
            (with_input c xs)
            (message_arrival ∷ []))
  unfolding shuts
  part_Goes k p xs {c} {l} inv valid f run good part here =
      let (a, _) = read_fd_lem (received xs) valid f in
      let c0 = with_input c xs in
      let (b, v, bytes, size, done) =
        message k p c0 a.valid
          (subst (λ zs. Ends k.time (start k.time p zs) (stop l)) (sym a.bytes) run) good in
      let c1 = record c { input = b } in
      record {
        d = c1;
        p = l.parser;
        open_still =
            after_read-handled regex_match default_handler routes k p c0
              (done ∙ finish_part c1 l.parser k.refusal k.reply part) refl;
        inv = with_input_Inv inv;
        input = here b v bytes;
        bytes = sym (append-nil (stream c));
        input_size = omega (arith, ap (length {A = ℕ}) size, a.growth);
        output_size = omega arith;
      }
