-- ===== src/Net/Tests.antt =====
-- The theorems on net/ at concrete buffers, connections and pools.
use sinetlib.Base.{◌≡◌, ◌≢◌, arith, refl, length, some, List, [], ◌∷◌, ◌++◌, codes}
use sinetlib.Net.Buffer.Contents.{readable-new}
use sinetlib.Net.Buffer.Reading.{Received, read_fd_lem}
use sinetlib.Net.Buffer.Refine.{
  Op, appends, retrieves, ensures, shrinks, run, run_queue, run_refines,
}
use sinetlib.Net.Buffer.Search.{FindsFirst, IsCrlf, find_crlf_lem}
use sinetlib.Net.Buffer.Valid.{IsValid, Fits, new-IsValid}
use sinetlib.Net.Buffer
use sinetlib.Net.Buffer.{
  Buffer, received, initial_size, prepend_size, add_size, sub_size, readable_size, writable_size,
  prepended_size,
}
use sinetlib.Net.Connection.Stream.{
  Inv, Never, drain, handle_write-stream, send-stream, shutdown_forgotten, stream,
}
use sinetlib.Net.Connection.{
  Connection, new_connection, wrote, send, shutdown, shutdown_write, handle_write, keep_rest,
}
use sinetlib.Net.EventBase.{enable_read_events, enable_write_events, is_writing}
use sinetlib.Net.ThreadPool.{new_pool, start, start-take_out, take_out}

abbrev first : Buffer
first = Buffer.new initial_size

first-IsValid : IsValid first
first-IsValid = new-IsValid initial_size

first_size : length first.buffer ≡ 1032
unfolding Buffer.new
first_size = refl

abbrev some_ops : List Op
some_ops =
    appends (codes "abc") ∷ retrieves 1 ∷ ensures 5000 ∷ appends (codes "de") ∷ shrinks 0 ∷ []

run_refines_example :
    IsValid (run first some_ops)
    × (Buffer.readable (run first some_ops) ≡ run_queue (Buffer.readable first) some_ops)
run_refines_example = run_refines some_ops first-IsValid (omega (arith, first_size))

read_fd_lem_example :
    Received first (received (codes "abc")) (Buffer.read_fd first (received (codes "abc")))
read_fd_lem_example = read_fd_lem (received (codes "abc")) first-IsValid (omega (arith, first_size))

find_crlf_lem_example : FindsFirst (IsCrlf (Buffer.readable first)) (Buffer.find_crlf first)
find_crlf_lem_example = find_crlf_lem first

-- Six bytes at the end of a small vector: there is room in front of them.
abbrev late : Buffer
late = record { buffer = codes "............abcdef"; read_index = 12; write_index = 18 }

new_Inv : Inv new_connection
unfolding new_connection
new_Inv = record {
  valid = first-IsValid;
  idle = λ h. readable-new initial_size;
  busy = λ h. unfold is_writing enable_read_events in cc;
}

new_Fits : Fits new_connection.output 3
unfolding new_connection
new_Fits = omega (arith, first_size)

abbrev half_sent : Connection
half_sent = (send new_connection (codes "abc") (wrote 1)).0

send-stream_example : Inv half_sent × (stream half_sent ≡ stream new_connection ++ codes "abc")
send-stream_example = send-stream new_connection (codes "abc") (wrote 1) new_Inv new_Fits

handle_write-stream_example :
    Inv (handle_write half_sent (wrote 1)).0
    × (stream (handle_write half_sent (wrote 1)).0 ≡ stream half_sent)
handle_write-stream_example = handle_write-stream half_sent (wrote 1) send-stream_example.0

half_output : Buffer.readable half_sent.output ≡ codes "bc"
unfolding send keep_rest new_connection is_writing enable_read_events enable_write_events Buffer.new
    Buffer.append Buffer.ensure_writable Buffer.readable readable_size writable_size sub_size
    add_size
half_output = refl

half_waits : Buffer.readable half_sent.output ≢ []
half_waits = rw half_output (λ e. cc)

shutdown_forgotten_example :
    (shutdown half_sent ≡ []) × Never shutdown_write (drain half_sent (wrote 2 ∷ [])).1
shutdown_forgotten_example =
    shutdown_forgotten new_connection (codes "abc") (wrote 1) (wrote 2 ∷ []) new_Inv new_Fits
      half_waits

start-take_out_example : take_out 4 (start (λ i. i) (new_pool 100 3)) ≡ some (0 ∷ 1 ∷ 2 ∷ 0 ∷ [])
start-take_out_example = start-take_out (λ i. i) 100 3 4 (omega arith)
