-- ===== src/Http/Session.antt =====
-- net/eventbase.cpp, net/connection.cpp and http/httpserver.cpp put together: one connection from its
-- registration on, as the loop calls HandleEvent for it, that calls HandleRead and HandleWrite, and
-- these call OnMessage. What the system calls answer in a round is an argument.
pub mod Served
pub mod Calls
pub mod Messages
pub mod Arrivals
pub mod Answered
use sinetlib.Base.{ℕ, Bool, true, false, if◌then◌else◌, Option, none, some, List, [], ◌∷◌, Bytes}
use sinetlib.Http.Parser.{Parser}
use sinetlib.Http.Router.{Route}
use sinetlib.Http.Server.{
  Handler, Handled, handled, uncaught, out_of_fuel, on_connection, on_message,
}
use sinetlib.Net.Buffer.{ReadResult}
use sinetlib.Net.Connection.{
  Connection, Effect, message_arrival, shutdown_write, WriteResult, new_connection, handle_read,
  handle_write,
}
use sinetlib.Net.EventBase.{
  Events, Callbacks, EventBase, Call, close, error, read, write, new_event_base, set_revents,
  handle_event,
}

-- One time that Poll reports the connection: the events, the clock, what `readv` answers, the value of
-- the uninitialised `ok`, and what `write` answers for a refusal, for a response and in HandleWrite.
pub record Report : Type 0 where
  pub revents : Events
  pub time : ℕ
  pub garbage : Bool
  pub read_result : ReadResult
  pub refusal : WriteResult
  pub reply : WriteResult
  pub rest : WriteResult

-- A connection with the parser in its context; behind `shutdown` of its writing side, where the session
-- ends, since no later `write` reaches the peer; behind HandleClose; or `stoi` has thrown.
pub data Session : Type 0 where
  opened shut closed : Connection → Parser → Session
  crashed stuck : Session

-- The callbacks that Connection's constructor sets.
abbrev pub conn_callbacks : Callbacks
conn_callbacks = record {
  read_callback = true;
  write_callback = true;
  error_callback = false;
  close_callback = true;
}

-- Register, with OnConnection as its callback.
abbrev pub new_session : Session
new_session = opened new_connection on_connection

-- The EventBase of a connection when HandleEvent is called.
abbrev pub event_base : ℕ → Connection → Events → EventBase
event_base fd c revents = record {
  fd = fd;
  events = c.events;
  revents = revents;
  callbacks = conn_callbacks;
}

-- Whether `shutdown` is called.
unfoldable pub shuts : List Effect → Bool
shuts [] = false
shuts (shutdown_write ∷ effects) = true
shuts (e ∷ effects) = shuts effects

module _ (regex_match : Bytes → Bytes → Option (List Bytes)) (default_handler : Handler)
    (routes : List (Route Handler)) where
  -- HandleRead has called the message callback, or HandleClose.
  unfoldable pub after_read : Report → Parser → Connection → List Effect → Session
  after_read k p d (message_arrival ∷ effects) =
      elim (on_message regex_match default_handler routes d p k.time k.garbage k.refusal k.reply) [
        | handled e q more ↦ if shuts more then shut e q else opened e q
        | uncaught ↦ crashed
        | out_of_fuel ↦ stuck
      ]
  after_read k p d _ = closed d p

  -- One callback. A connection whose writing side is shut does not wait to write.
  unfoldable pub call_back : Report → Session → Call → Session
  call_back k (opened c p) read =
      let (d, effects) = handle_read c k.read_result in after_read k p d effects
  call_back k (opened c p) write = opened (handle_write c k.rest).0 p
  call_back k (opened c p) close = closed c p
  call_back k (closed c p) write = closed (handle_write c k.rest).0 p
  call_back k s _ = s

  unfoldable pub call_all : Report → Session → List Call → Session
  call_all k s [] = s
  call_all k s (c ∷ cs) = call_all k (call_back k s c) cs

  -- HandleEvent. A connection that is closed is not watched any more, and reports behind `shutdown`
  -- are left out.
  unfoldable pub report : ℕ → Session → Report → Session
  report fd (opened c p) k = call_all k (opened c p) (handle_event (event_base fd c k.revents))
  report fd s k = s

  unfoldable pub reports : ℕ → Session → List Report → Session
  reports fd s [] = s
  reports fd s (k ∷ ks) = reports fd (report fd s k) ks
