-- ===== src/Http/Server/Refusals.antt =====
-- http/httpserver.cpp: what OnMessage does with a line that is no request line, and that it ends.
use sinetlib.Base.{
  ℕ, zero, suc, ◌≡◌, ◌≢◌, refl, sym, ap, ◌∙◌, Bool, false, Option, some, List, ◌++◌, take, Bytes,
  codes, arith, subst, Bool-cases, inl, inr, ◌⊎◌,
}
use sinetlib.Http.Parser.Input.{
  Alike, finished, unfinished, Agree, agree_again, agree_stop, agree_thrown, buffer_source,
  bytes_source, parse_request-Alike,
}
use sinetlib.Http.Parser.Loop.{
  crlf_in, Ends, ends_stop, ends_later, start, parse_request-eq, parse_request_total,
}
use sinetlib.Http.Parser.{
  Parser, request_line, finish, method, round, on_request_line, Run, Round, stop, thrown,
  parse_request, parse_request_line, is_got_all, LineState, url, version, LineStep, refuse, go_on,
  line_step, line_method, line_url, line_version, line_loop, is_finish,
}
use sinetlib.Http.Router.{Route}
use sinetlib.Http.Server.{
  Handler, handled, ok_or, out_of_fuel, on_message, finish_message, refuse_message,
}
use sinetlib.Net.Buffer.Valid.{IsValid}
use sinetlib.Net.Buffer
use sinetlib.Net.Buffer.{Buffer}
use sinetlib.Net.Connection.{Connection, WriteResult, send, shutdown}
use sinetlib.Http.Server.Answers.{stop_in_buffer}

-- The parser that a step of the request line hands on has the same state of the whole request.
abbrev KeepsState : Parser → LineStep → Type 0
KeepsState p (refuse q) = q.state ≡ p.state
KeepsState p (go_on q next) = q.state ≡ p.state

line_step-state :
    (p : Parser) (line : Bytes) (space : ℕ) (l : LineState)
    → KeepsState p (line_step l p line space)
unfolding line_method line_url line_version
line_step-state p line space method = ground arith
line_step-state p line space url = ground arith
line_step-state p line space version = ground arith
line_step-state p line space finish = refl

-- The rest of the loop behind a step.
abbrev loop_from : ℕ → Bytes → LineStep → Bool × Parser
loop_from fuel line x = elim x [ refuse q ↦ (false, q) | go_on q next ↦ line_loop fuel q line next ]

loop_from-state :
    (fuel : ℕ) (p : Parser) (line : Bytes) (x : LineStep)
    → KeepsState p x
    → ((q : Parser) (next : ℕ) → (line_loop fuel q line next).1.state ≡ q.state)
    → (loop_from fuel line x).1.state ≡ p.state
loop_from-state fuel p line (refuse q) k ih = k
loop_from-state fuel p line (go_on q next) k ih = ih q next ∙ k

line_loop-state :
    (fuel : ℕ) (p : Parser) (line : Bytes) (space : ℕ)
    → (line_loop fuel p line space).1.state ≡ p.state
unfolding line_loop
line_loop-state zero p line space = refl
line_loop-state (suc fuel) p line space = elim (Bool-cases (is_finish p.line_state)) [
  | inl e ↦ rw (e, line_loop) refl
  | inr e ↦
      rw (e, line_loop)
        (loop_from-state fuel p line (line_step p.line_state p line space)
          (line_step-state p line space p.line_state) (λ q next. line_loop-state fuel q line next))
]

-- The run of ParseRequest over a line that is not a request line.
refused_run :
    (t : ℕ) (p : Parser) (xs : Bytes) (i : ℕ)
    → p.state ≡ request_line
    → crlf_in xs ≡ some i
    → (parse_request_line p (take i xs)).0 ≡ false
    → parse_request bytes_source t p xs
      ≡ some (
          stop
            (record { parser = (parse_request_line p (take i xs)).1; buf = xs; ok = some false }))
unfolding round on_request_line
refused_run t p xs i e found bad = parse_request-eq t p xs (
    ends_stop (
      ap (λ s. round bytes_source t s (start t p xs)) e
      ∙ rw (found, on_request_line) (rw bad refl)))

-- How ParseRequest ends over a buffer.
IsOver : Option (Round Buffer) → Type 0
IsOver x = ((r : Run Buffer) × (x ≡ some (stop r))) ⊎ ((r : Run Buffer) × (x ≡ some (thrown r)))

Ends-IsOver :
    (t : ℕ) {s : Run Bytes} {x : Round Buffer} {y : Round Bytes}
    → Agree x y
    → Ends t s y
    → IsOver (some x)
unfolding IsOver
Ends-IsOver t (agree_stop {r} h) e = inl (r, refl)
Ends-IsOver t (agree_thrown {r} h) e = inr (r, refl)
Ends-IsOver t (agree_again h) (ends_later d e) = Ends-IsOver t (agree_again h) e

parse-IsOver :
    (t : ℕ) (p : Parser) {b : Buffer} → IsValid b → IsOver (parse_request buffer_source t p b)
parse-IsOver t p {b} v =
    let (y, run, e) = parse_request_total t p (Buffer.readable b) in
    go _ _ (parse_request-Alike t p v) y run e
  where
    go :
        (x : Option (Round Buffer)) (z : Option (Round Bytes))
        → Alike x z
        → (y : Round Bytes) → z ≡ some y
        → Ends t (start t p (Buffer.readable b)) y
        → IsOver x
    go _ _ unfinished y run e = absurd cc
    go _ _ (finished {s} a) y run e =
        let same : s ≡ y = cc in
        Ends-IsOver t a (subst (Ends t (start t p (Buffer.readable b))) (sym same) e)

module _ (regex_match : Bytes → Bytes → Option (List Bytes)) (default_handler : Handler)
    (routes : List (Route Handler)) where
  on_message-stop :
      (c : Connection) (p : Parser) (t : ℕ) (garbage : Bool) (refusal result : WriteResult)
      (r : Run Buffer)
      → parse_request buffer_source t p c.input ≡ some (stop r)
      → on_message regex_match default_handler routes c p t garbage refusal result
        ≡ finish_message regex_match default_handler routes
            (record c { input = r.buf })
            r.parser
            (ok_or garbage r.ok)
            refusal
            result
  unfolding on_message
  on_message-stop c p t garbage refusal result r e = rw (e, on_message) refl

  finish_message-refused :
      (c : Connection) (p q : Parser) (refusal result : WriteResult)
      → q ≡ p
      → p.state ≡ request_line
      → finish_message regex_match default_handler routes c q false refusal result ≡ (
          let (d, effects) = send c (codes "HTTP/1.1 400 Bad Request\r\n\r\n") refusal in
          handled d p (effects ++ shutdown d))
  unfolding finish_message refuse_message is_got_all
  finish_message-refused c p q refusal result e s = rw e (rw s refl)

  finish_message-ends :
      (c : Connection) (p : Parser) (good : Bool) (refusal result : WriteResult)
      → finish_message regex_match default_handler routes c p good refusal result ≢ out_of_fuel
  unfolding finish_message
  finish_message-ends c p good refusal result = elim (Bool-cases (is_got_all p)) [
    | inl e ↦ rw e (λ x. cc)
    | inr e ↦ rw e (λ x. cc)
  ]

  -- A parser that expects a request, and an input that starts with a line that is not a request line:
  -- OnMessage answers 400 and asks for the shutdown, and calls no handler. The input keeps its bytes.
  pub on_message_refused :
      (c : Connection) (p : Parser) (t : ℕ) (garbage : Bool) (refusal result : WriteResult) (i : ℕ)
      → IsValid c.input
      → p.state ≡ request_line
      → crlf_in (Buffer.readable c.input) ≡ some i
      → (parse_request_line p (take i (Buffer.readable c.input))).0 ≡ false
      → (b : Buffer) × IsValid b
        × (Buffer.readable b ≡ Buffer.readable c.input)
        × (on_message regex_match default_handler routes c p t garbage refusal result ≡ (
            let (d, effects) =
              send (record c { input = b }) (codes "HTTP/1.1 400 Bad Request\r\n\r\n") refusal in
            handled d
              (parse_request_line p (take i (Buffer.readable c.input))).1
              (effects ++ shutdown d)))
  unfolding parse_request_line
  on_message_refused c p t garbage refusal result i valid e found bad =
      let (r, run, h) = stop_in_buffer t p _ valid (refused_run t p _ i e found bad) in
      let same : (parse_request_line p (take i (Buffer.readable c.input))).1.state ≡ request_line =
        line_loop-state 4 p (take i (Buffer.readable c.input)) _ ∙ e in
      (
        r.buf,
        h.valid,
        h.bytes,
        on_message-stop c p t garbage refusal result r run
            ∙ rw (h.ok) (
                finish_message-refused (record c { input = r.buf }) _ r.parser refusal result
                  h.parser same),
      )

  -- Over a valid input the model's fuel is enough: OnMessage ends, or `stoi` throws.
  pub on_message_total :
      (c : Connection) (p : Parser) (t : ℕ) (garbage : Bool) (refusal result : WriteResult)
      → IsValid c.input
      → on_message regex_match default_handler routes c p t garbage refusal result ≢ out_of_fuel
  unfolding on_message IsOver
  on_message_total c p t garbage refusal result valid = elim (parse-IsOver t p valid) [
    | inl (r, e) ↦
        rw (e, on_message)
          (finish_message-ends (record c { input = r.buf }) r.parser (ok_or garbage r.ok) refusal
            result)
    | inr (r, e) ↦ rw (e, on_message) (λ x. cc)
  ]
