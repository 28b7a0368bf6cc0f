-- ===== src/Http/Session/Calls.antt =====
-- net/eventbase.cpp and net/connection.cpp: the calls that HandleEvent makes for a report.
use sinetlib.Base.{
  ℕ, ◌≡◌, ◌≢◌, refl, sym, ap, ◌∙◌, subst, Bool, true, false, if◌then◌else◌, Option, List, [], ◌∷◌,
  ◌++◌, length, Bytes, arith,
}
use sinetlib.Http.Parser.{Parser}
use sinetlib.Http.Router.{Route}
use sinetlib.Http.Server.{Handler, handled, on_message}
use sinetlib.Http.Session.Served.{can_read, Brings, BringsNothing, Goes, Goes-nothing}
use sinetlib.Http.Session.{
  Report, Session, opened, shuts, event_base, after_read, call_back, call_all, report,
}
use sinetlib.Net.Buffer
use sinetlib.Net.Buffer.{Buffer, received}
use sinetlib.Net.Connection.Growth.{handle_write-Grows}
use sinetlib.Net.Connection.Stream.{Inv, handle_write-stream}
use sinetlib.Net.Connection.{Connection, Effect, message_arrival, handle_read, handle_write}
use sinetlib.Net.EventBase.{Events, read, write, handle_event, is_broken}

handle_read-some :
    (c : Connection) (xs : Bytes)
    → xs ≢ []
    → handle_read c (received xs)
      ≡ (record c { input = (Buffer.read_fd c.input (received xs)).0 }, message_arrival ∷ [])
unfolding handle_read
handle_read-some c [] h = absurd (h refl)
handle_read-some c (x ∷ xs) h = refl

-- What HandleEvent calls for a peer that is not broken.
handle_event_unbroken :
    (fd : ℕ) (c : Connection) (e : Events)
    → is_broken e ≡ false
    → handle_event (event_base fd c e)
      ≡ (if can_read e then read ∷ [] else []) ++ (if e.epoll_out then write ∷ [] else [])
unfolding handle_event
handle_event_unbroken fd c e sound = ground arith

-- The connection with what has been read.
abbrev pub with_input : Connection → Bytes → Connection
with_input c xs = record c { input = (Buffer.read_fd c.input (received xs)).0 }

module _ (regex_match : Bytes → Bytes → Option (List Bytes)) (default_handler : Handler)
    (routes : List (Route Handler)) where
  pub after_read-handled :
      (k : Report) (p : Parser) (d : Connection) {e : Connection} {q : Parser}
      {effects : List Effect}
      → on_message regex_match default_handler routes d p k.time k.garbage k.refusal k.reply
        ≡ handled e q effects
      → shuts effects ≡ false
      → after_read regex_match default_handler routes k p d (message_arrival ∷ []) ≡ opened e q
  unfolding after_read
  after_read-handled k p d run stays = rw (run, after_read, stays) refl

  module _ {P : Buffer → Parser → Type 0} where
    write_Goes :
        (k : Report) {c : Connection} {n : ℕ} {text : Bytes} {s : Session}
        → Goes P c n text s
        → Goes P c n text (call_back regex_match default_handler routes k s write)
    unfolding call_back
    write_Goes k {text} a =
        let (inv, same) = handle_write-stream a.d k.rest a.inv in
        let grown = handle_write-Grows a.d k.rest in
        record {
          d = (handle_write a.d k.rest).0;
          p = a.p;
          open_still =
              ap (λ z. call_back regex_match default_handler routes k z write) a.open_still;
          inv = inv;
          input = subst (λ b. P b a.p) (sym grown.input) a.input;
          bytes = same ∙ a.bytes;
          input_size =
              omega (arith, a.input_size, ap (λ (x : Buffer). length x.buffer) grown.input);
          output_size = omega (arith, a.output_size, grown.output);
        }

    writes_Goes :
        (k : Report) (out : Bool) {c : Connection} {n : ℕ} {text : Bytes} {s : Session}
        → Goes P c n text s
        → Goes P c n text
            (call_all regex_match default_handler routes k s (if out then write ∷ [] else []))
    unfolding call_all
    writes_Goes k true a = write_Goes k a
    writes_Goes k false a = a

    -- A report that brings bytes is what OnMessage makes of them, and writing.
    pub report-Brings :
        (fd : ℕ) {k : Report} {xs : Bytes} {c : Connection} (p : Parser) {n : ℕ} {text : Bytes}
        → Brings k xs
        → Goes P c n text (
            after_read regex_match default_handler routes k p
              (with_input c xs)
              (message_arrival ∷ []))
        → Goes P c n text (report regex_match default_handler routes fd (opened c p) k)
    unfolding report call_all call_back
    report-Brings fd {k} {xs} {c} p {n} {text} b a =
        let seen : call_back regex_match default_handler routes k (opened c p) read
            ≡ after_read regex_match default_handler routes k p (with_input c xs)
                (message_arrival ∷ []) =
          ap
            (λ z.
              let (d, effects) = handle_read c z in
              after_read regex_match default_handler routes k p d effects)
            b.came
          ∙ ap (λ z. after_read regex_match default_handler routes k p z.0 z.1)
              (handle_read-some c xs b.some_came) in
        rw (handle_event_unbroken fd c k.revents b.unbroken, b.readable)
          (writes_Goes k k.revents.epoll_out (subst (Goes P c n text) (sym seen) a))

    pub report-BringsNothing :
        (fd : ℕ) {k : Report} {c : Connection} (p : Parser)
        → BringsNothing k
        → Inv c
        → P c.input p
        → Goes P c 0 [] (report regex_match default_handler routes fd (opened c p) k)
    unfolding report
    report-BringsNothing fd {k} {c} p b inv input =
        rw (handle_event_unbroken fd c k.revents b.unbroken, b.nothing)
          (writes_Goes k k.revents.epoll_out (Goes-nothing inv input))
