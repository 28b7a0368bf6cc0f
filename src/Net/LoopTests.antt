-- ===== src/Net/LoopTests.antt =====
-- The theorems on net/ at concrete timers, loops, event tables and servers.
use sinetlib.Base.{
  ℕ, zero, suc, ◌+◌, ◌≤◌, ◌≡◌, ◌≢◌, ◌⊎◌, refl, inl, inr, Bool, true, false, Bool-cases, ◌==◌, none,
  some, List, [], ◌∷◌, length, if◌then◌else◌, arith,
}
use sinetlib.Net.EventBase.{EventBase, Events, no_events, new_event_base}
use sinetlib.Net.Epoller.{EventTable, IsEventTable, Epoller, add, poll}
use sinetlib.Net.Epoller.Covers.{added_again, begin, added, reported, poll-reported}
use sinetlib.Net.Looper.{State, started, Prompt, Prompts, Step}
use sinetlib.Net.Looper
use sinetlib.Net.Looper.Early.{started-waits}
use sinetlib.Net.LooperThread
use sinetlib.Net.LooperThread.{
  LooperThread, new_looper_thread, nobody, caller, thread, starting, locked, notified, testing,
  waiting, returned, running, Move, caller_locks, caller_waits, caller_wakes, caller_returns,
  thread_locks, thread_notifies, thread_unlocks, Moves, quits_loop, joins_thread, destroy,
}
use sinetlib.Net.LooperThread.Handshake.{moves_left, Moves-returned}
use sinetlib.Base.Int.{pos}
use sinetlib.Net.ThreadPool.{new_pool, take_out_loop}
use sinetlib.Net.Server.Life
use sinetlib.Net.Server.Life.{Life, accepted, asked_for, accepts, asks, Lives, IsDue}
use sinetlib.Net.Server.Removal.{Lives-removes}
use sinetlib.Net.Server.{
  store, add_connection, remove_connection, Server, Conn, new_server, start_server, accept_all,
}
use sinetlib.Net.Server.Placed.{Places, accept_all-Places}
use sinetlib.Net.TimerQueue.{Timer, TimerQueue, add_timer, handle_timer_expired}
use sinetlib.Net.TimerQueue.Expired.{Runs, handle_timer_expired-Runs}
use sinetlib.Net.TimerQueue.Order.{IsFrom, IsTimed, IsKept, add_timer-IsKept}

-- Timer 0 adds timer 7 for the time 50.
abbrev some_adds : ℕ → List (Timer ℕ)
some_adds zero = record { callback = 7; when = 50 } ∷ []
some_adds _ = []

some_adds-IsFrom : (a : ℕ) → IsFrom 40 (some_adds a)
some_adds-IsFrom zero = (omega arith, tt)
some_adds-IsFrom (suc a) = tt

abbrev some_timers : TimerQueue ℕ
some_timers = record {
  queue =
      record { callback = 0; when = 10 }
      ∷ record { callback = 1; when = 30 }
      ∷ record { callback = 2; when = 60 }
      ∷ [];
  deadline = some 10;
  ran = [];
}

some_timers-IsKept : IsKept 1 some_timers
some_timers-IsKept = record {
  ordered = ((omega arith, (omega arith, tt)), ((omega arith, tt), (tt, tt)));
  armed = inl refl;
}

handle_timer_expired-Runs_example :
    (p : TimerQueue ℕ) × (handle_timer_expired some_adds
        (λ a. 41)
        (length some_timers.queue + 1)
        40
        42
        some_timers
      ≡ some p)
    × Runs some_adds 40 some_timers some_timers.queue p
    × IsTimed 42 p.queue p.deadline
handle_timer_expired-Runs_example =
    handle_timer_expired-Runs some_adds (λ a. 41) 40 42 some_adds-IsFrom some_timers
      some_timers-IsKept.ordered

add_timer-IsKept_example : IsKept 2 (add_timer 2 some_timers (record { callback = 3; when = 5 }))
add_timer-IsKept_example =
    add_timer-IsKept 1 2 some_timers (record { callback = 3; when = 5 }) (omega arith)
      some_timers-IsKept

abbrev asked : State ℕ
asked = record (started []) { looper = Looper.enqueue (started []).looper 5; writers = 1 }

abbrev woken : State ℕ
woken = record asked { looper = Looper.wake_up asked.looper; writers = 0 }

started-waits_example :
    ((started {T = ℕ} (5 ∷ 6 ∷ [])).looper.task_queue ≡ 5 ∷ 6 ∷ [])
    × ((started {T = ℕ} (5 ∷ 6 ∷ [])).looper.ran ≡ [])
    × (¬ Prompt (started (5 ∷ 6 ∷ [])) woken)
started-waits_example = started-waits (5 ∷ 6 ∷ []) woken

-- Two loops.
accept_all-Places_example :
    (u : Server ℕ) × (conns : List (Conn ℕ)) × (accept_all
        (start_server (λ i. i) (new_server 9 2))
        (5 ∷ 6 ∷ 7 ∷ [])
      ≡ some (u, conns))
    × Places (start_server (λ i. i) (new_server 9 2)) (5 ∷ 6 ∷ 7 ∷ []) (0 ∷ 1 ∷ 0 ∷ []) u conns
accept_all-Places_example = accept_all-Places (λ i. i) 9 2 (5 ∷ 6 ∷ 7 ∷ []) (omega arith)

-- An event table as a set of descriptors.
abbrev in_set : (ℕ → Bool) → ℕ → Bool → ℕ → Bool
in_set k fd on = λ other. if other == fd then on else k other

abbrev set_table : EventTable (ℕ → Bool)
set_table = record {
  watches = λ k fd. k fd;
  ctl_add = λ k fd events. if k fd then (false, k) else (true, in_set k fd true);
  ctl_mod = λ k fd events. (k fd, k);
  ctl_del = λ k fd. (k fd, in_set k fd false);
  closed = λ k fd. in_set k fd false;
}

set_table-removes :
    (k : ℕ → Bool) (fd other : ℕ) → in_set k fd false other ≡ true → (k other ≡ true) × (other ≢ fd)
set_table-removes k fd other h = (ground (arith, h), λ e. ground (arith, h, e))

set_table-adds :
    (k : ℕ → Bool) (fd : ℕ) (events : Events) (other : ℕ)
    → set_table.watches (set_table.ctl_add k fd events).1 other ≡ true
    → (k other ≡ true) ⊎ ((other ≡ fd) × ((set_table.ctl_add k fd events).0 ≡ true))
set_table-adds k fd events other h = elim (Bool-cases (k fd)) [
  | inl on ↦ inl (rw on at h)
  | inr off ↦ elim (Bool-cases (other == fd)) [
    | inl same ↦ inr (ground arith, rw off refl)
    | inr differs ↦ inl (rw (off, differs) at h)
  ]
]

set_table-IsEventTable : IsEventTable set_table
set_table-IsEventTable = record {
  add_adds = set_table-adds;
  add_refuses = λ k fd events h. rw h refl;
  mod_keeps = λ k fd events other. refl;
  del_removes = set_table-removes;
  closed_removes = set_table-removes;
}

abbrev no_descriptor : ℕ → Bool
no_descriptor fd = false

abbrev empty_epoller : Epoller (ℕ → Bool)
empty_epoller = record { table = no_descriptor; fd_2_eventbase_list = λ fd. none }

-- The descriptor 4 is added twice, and lost.
abbrev three_added : Epoller (ℕ → Bool)
three_added =
    add set_table
      (add set_table (add set_table empty_epoller (new_event_base 4)) (new_event_base 6))
      (new_event_base 4)

poll-reported_example :
    (es : List EventBase) × (poll three_added.fd_2_eventbase_list ((6, no_events) ∷ []) ≡ some es)
    × (reported es ≡ (6, no_events) ∷ [])
unfolding add new_event_base
poll-reported_example =
    poll-reported set_table set_table-IsEventTable no_descriptor (4 ∷ []) three_added
      (added_again (new_event_base 4)
        (added (new_event_base 6) (added (new_event_base 4) (begin (λ fd. refl)) refl) refl) refl)
      ((6, no_events) ∷ []) (refl, ((λ e. absurd (omega arith)), tt), tt)

-- GetLoop waits before the new thread has the mutex.
abbrev both_done : LooperThread
both_done = LooperThread.state true nobody returned running true true

waits_first : Moves 7 new_looper_thread both_done
waits_first = LooperThread.more (caller_locks false false false starting) (
    LooperThread.more (caller_waits false false caller starting) (
      LooperThread.more (thread_locks false false false waiting) (
        LooperThread.more (thread_notifies false false false thread waiting) (
          LooperThread.more (thread_unlocks true true false thread waiting) (
            LooperThread.more (caller_wakes true false running) (
              LooperThread.more (caller_returns true false caller running)
                (LooperThread.done both_done)))))))

Moves-returned_example :
    (7 ≤ moves_left new_looper_thread)
    × (((u : LooperThread) × Move both_done u)
        ⊎ ((both_done.caller_at ≡ returned)
            × (both_done.got_loop ≡ true)
            × (both_done.thread_at ≡ running)
            × (destroy both_done ≡ some (quits_loop ∷ joins_thread ∷ []))))
unfolding LooperThread.construct
Moves-returned_example = Moves-returned (LooperThread.begin false refl) waits_first

-- A connection under the descriptor 5, which has asked for its removal.
abbrev empty_server : Server ℕ
empty_server = new_server 9 0

abbrev fresh_life : Life ℕ
fresh_life = record {
  server = empty_server;
  next = 0;
  number = λ fd. 0;
  asked = λ n. false;
  removals = [];
}

abbrev five : Conn ℕ
five = record { conn_fd = pos 5; io_loop = 9 }

abbrev server_of_five : Server ℕ
server_of_five = record empty_server { connection_map = store empty_server.connection_map five }

abbrev asked_five : Life ℕ
asked_five = asked_for (accepted fresh_life 5 server_of_five) 5

asked_five-Lives : Lives empty_server asked_five
unfolding new_server new_pool add_connection take_out_loop store
asked_five-Lives =
    Life.then_step
      (Life.then_step (Life.begin (λ fd. refl))
        (accepts fresh_life 5 server_of_five five refl refl))
      (asks (accepted fresh_life 5 server_of_five) 5 five refl refl)

Lives-removes_example :
    IsDue asked_five 5 0
    × ((remove_connection asked_five.server (pos 5)).connection_map (pos 5) ≡ none)
    × ((other : ℕ)
        → other ≢ 5
        → (remove_connection asked_five.server (pos 5)).connection_map (pos other)
          ≡ asked_five.server.connection_map (pos other))
Lives-removes_example = Lives-removes asked_five-Lives [] 5 0 [] refl
