-- ===== src/Net/Connection.antt =====
-- net/connection.h and net/connection.cpp: class Connection. What the kernel answers to `write` is an
-- argument; what it has accepted for the peer is a field; calls of the loop, of the callbacks and of
-- `shutdown` are effects, in order. All callbacks are set, as HttpServer and Server set them.
pub mod Stream
pub mod Growth
use sinetlib.Base.{
  ℕ, ◌+◌, ◌-◌, Bool, true, false, not, ◌&&◌, Option, none, some, List, [], ◌∷◌, ◌++◌, ltb, ◌==◌,
  if◌then◌else◌, length, take, drop, Bytes,
}
use sinetlib.Net.Buffer
use sinetlib.Net.Buffer.{Buffer, ReadResult, failed, received, initial_size}
use sinetlib.Net.EventBase.{
  Events, no_events, enable_read_events, enable_write_events, disable_write_events, is_writing,
}

pub data Effect : Type 0 where
  add_event_base mod_event_base del_event_base : Effect
  connection_established message_arrival reply_complete connection_close suicide : Effect
  shutdown_write log_error : Effect

-- `events` are those of conn_eventbase_, `sent` the bytes that `write` has accepted.
pub record Connection : Type 0 where
  pub events : Events
  pub input : Buffer
  pub output : Buffer
  pub sent : Bytes

-- The constructor.
unfoldable pub new_connection : Connection
new_connection = record {
  events = enable_read_events (record no_events { epoll_rdhup = true });
  input = Buffer.new initial_size;
  output = Buffer.new initial_size;
  sent = [];
}

unfoldable pub register : Connection → Connection × List Effect
register c = (c, add_event_base ∷ connection_established ∷ [])

-- What `write` returned: how many of the bytes it took, or an error; EWOULDBLOCK is told apart.
pub data WriteResult : Type 0 where
  wrote : ℕ → WriteResult
  would_block broken : WriteResult

-- How many bytes went out at once.
abbrev pub taken : WriteResult → ℕ
taken (wrote n) = n
taken would_block = 0
taken broken = 0

-- The calls behind a `write` of len bytes in Send.
unfoldable pub after_write : ℕ → WriteResult → List Effect
after_write len (wrote n) = if n == len then reply_complete ∷ [] else []
after_write len would_block = []
after_write len broken = log_error ∷ []

-- The bytes that did not go out wait in the output buffer.
unfoldable pub keep_rest : Connection → Bytes → Connection × List Effect
keep_rest c rest =
    if ltb 0 (length rest)
    then if is_writing c.events then (record c { output = Buffer.append c.output rest }, []) else (
      record c { output = Buffer.append c.output rest; events = enable_write_events c.events },
      mod_event_base ∷ [],
    )
    else (c, [])

abbrev pub after : List Effect → Connection × List Effect → Connection × List Effect
after effects (c, more) = (c, effects ++ more)

-- Send; the result of `write` is used only if the code calls it.
unfoldable pub send : Connection → Bytes → WriteResult → Connection × List Effect
send c bytes result =
    if not (is_writing c.events) && Buffer.readable_size c.output == 0
    then after (after_write (length bytes) result) (
        keep_rest (record c { sent = c.sent ++ take (taken result) bytes })
          (drop (taken result) bytes))
    else keep_rest c bytes

-- `Send(IOBuffer& buffer)`: the buffer is emptied.
unfoldable pub send_buffer : Connection → Buffer → WriteResult → Connection × Buffer × List Effect
send_buffer c b result =
    let (d, effects) = send c (Buffer.readable b) result in (d, Buffer.retrieve_all b, effects)

unfoldable pub shutdown : Connection → List Effect
shutdown c = if is_writing c.events then [] else shutdown_write ∷ []

unfoldable pub handle_close : List Effect
handle_close = del_event_base ∷ connection_close ∷ suicide ∷ []

-- HandleRead; ReadFd returns the number of bytes, zero at the end of the stream.
unfoldable pub handle_read : Connection → ReadResult → Connection × List Effect
handle_read c result =
    let d = record c { input = (Buffer.read_fd c.input result).0 } in
    elim result [
      | failed errno ↦ (d, handle_close)
      | received [] ↦ (d, handle_close)
      | received (x ∷ xs) ↦ (d, message_arrival ∷ [])
    ]

-- HandleWrite after `write` took n bytes, n > 0.
unfoldable pub wrote_some : Connection → ℕ → Connection × List Effect
wrote_some c n =
    let d = record c {
      sent = c.sent ++ take n (Buffer.readable c.output);
      output = Buffer.retrieve c.output n;
    } in
    if Buffer.readable_size d.output == 0
    then (record d { events = disable_write_events d.events }, mod_event_base ∷ reply_complete ∷ [])
    else (d, [])

unfoldable pub handle_write : Connection → WriteResult → Connection × List Effect
handle_write c result =
    if is_writing c.events
    then if ltb 0 (taken result) then wrote_some c (taken result) else (c, log_error ∷ [])
    else (c, [])
