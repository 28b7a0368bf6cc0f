-- ===== src/Log/Tests.antt =====
-- The theorems on log/ at concrete values and schedules.
use sinetlib.Base.{
  ◌≡◌, ◌<◌, ◌+◌, ◌*◌, ◌++◌, ℕ, refl, some, Bytes, arith, length, true, List, [], ◌∷◌, codes,
}
use sinetlib.Base.Int.{pos, negsuc}
use sinetlib.Log.Async.Safe.{Safe, run-started-Safe}
use sinetlib.Log.Async.Order.{
  Reach, begin, then_step, calm_append, calm_tests, calm_takes, calm_writes, Reach-history,
}
use sinetlib.Log.Async.Tidy.{history}
use sinetlib.Log.Async.{
  Logger, Outcome, moved, disabled, fault, append, append_to, log_thread, take_buffers,
  write_buffers, thin_out, restore, pop_back, keep_two, appends, tests, takes, writes, stops,
  Action, started, step, run,
}
use sinetlib.Base.{if◌then◌else◌, ltb, ◌==◌, ◌&&◌}
use sinetlib.Log.File.{AreOut, append_lines, append_lines-flushes, new_log_file, LogFile, all_of}
use sinetlib.Log.Logger.Lines.{front, tail, texts_of, log-line}
use sinetlib.Log.Logger.{
  debug, info, fatal, is_logged, Place, output, end_effects, init_log_level, log,
}
use sinetlib.Log.Output
use sinetlib.Log.Output.Lines.{written_of, history_of, Reach-lines}
use sinetlib.Log.Output.Lost.{fatal_lost}
use sinetlib.Log.Output.{
  Program, new_program, once, write_async, call_output, perform, statement, line_of, IsOrdinary,
  outputs,
}
use sinetlib.Log.Stream.Bounds.{Puts, put-Puts, text_of}
use sinetlib.Log.Stream.Decimal.{Reads, convert-Reads}
use sinetlib.Log.Stream
use sinetlib.Log.Stream.{
  FixedBuffer, Value, bool, int, string, convert, new_buffer, put, put_all, small_buffer_size,
}

convert-Reads_example : Reads (convert (negsuc 41)) (negsuc 41)
convert-Reads_example = convert-Reads (negsuc 41)

abbrev empty_buffer : FixedBuffer
empty_buffer = new_buffer small_buffer_size

put-Puts_example : Puts empty_buffer (text_of (int (pos 42))) (put empty_buffer (int (pos 42)))
put-Puts_example = put-Puts empty_buffer (int (pos 42)) (omega arith) (omega arith)

abbrev schedule : List Action
schedule =
    appends (codes "a")
    ∷ tests
    ∷ takes
    ∷ appends (codes "b")
    ∷ writes
    ∷ tests
    ∷ stops
    ∷ takes
    ∷ writes
    ∷ tests
    ∷ []

run-started-Safe_example : Safe (run started schedule)
run-started-Safe_example = run-started-Safe schedule

-- A stream that takes one byte at a time.
abbrev one_by_one : ℕ → Bytes → ℕ
one_by_one i [] = 0
one_by_one i (x ∷ xs) = 1

-- A stream that takes one byte of the second line, and then nothing of it.
abbrev some_stream : ℕ → ℕ → Bytes → ℕ
some_stream j i xs = if j == 1 && ltb 0 i then 0 else one_by_one i xs

abbrev some_lines : List Bytes
some_lines = codes "b\n" ∷ codes "cd\n" ∷ codes "e\n" ∷ []

append_lines-flushes_example :
    (g : LogFile) × (outs : List Bytes) × (append_lines some_stream 0
        (new_log_file 2 (codes "a"))
        some_lines
      ≡ some g)
    × AreOut some_stream 0 some_lines outs
    × (g.file ≡ codes "a" ++ all_of outs)
    × (g.count < 2)
    × (g.flushes * 2 + g.count ≡ length some_lines)
append_lines-flushes_example =
    append_lines-flushes some_stream 2 (codes "a") some_lines (omega arith)

abbrev some_place : Place
some_place = record { file_name = codes "a.cpp"; line = 7; func_name = codes "main" }

log-line_example :
    log debug fatal some_place (int (pos 42) ∷ [])
    ≡ output (front fatal some_place ++ (texts_of (int (pos 42) ∷ []) ++ tail some_place))
      ∷ end_effects fatal
unfolding is_logged convert Stream.convert_loop Stream.digit_at
log-line_example =
    log-line debug fatal some_place (int (pos 42) ∷ []) logged (omega arith, tt) (omega arith)
      (omega (arith, short))
  where
    logged : is_logged debug fatal ≡ true
    logged = refl

    short :
        length (front fatal some_place ++ (texts_of (int (pos 42) ∷ []) ++ tail some_place)) ≡ 26
    short = refl

-- The state behind a step.
abbrev state_of : Outcome → Logger
state_of (moved l) = l
state_of disabled = started
state_of fault = started

-- A text appended, taken and written, and another one behind it.
abbrev logged_a : Logger
logged_a = state_of (step started (appends (codes "a")))

abbrev tested_a : Logger
tested_a = state_of (step logged_a tests)

abbrev taken_a : Logger
taken_a = state_of (step tested_a takes)

abbrev logged_ab : Logger
logged_ab = state_of (step taken_a (appends (codes "b")))

abbrev written_a : Logger
written_a = state_of (step logged_ab writes)

some_reach : Reach written_a (codes "ab")
unfolding step append append_to log_thread take_buffers write_buffers thin_out restore pop_back
    keep_two Stream.append Stream.reset
some_reach =
    then_step writes
      (then_step (appends (codes "b"))
        (then_step takes
          (then_step tests
            (then_step (appends (codes "a")) begin (calm_append (codes "a") (omega arith)) refl)
            calm_tests refl)
          calm_takes refl)
        (calm_append (codes "b") (omega arith)) refl)
      (calm_writes (omega arith)) refl

Reach-history_example : history written_a ≡ codes "ab"
Reach-history_example = Reach-history some_reach

-- A first line, from a program that has logged nothing before.
abbrev first_values : List Value
first_values = int (pos 42) ∷ []

abbrev logged_line : Logger
logged_line = state_of (step started (appends (line_of info some_place first_values)))

abbrev after_one : Program
after_one = record (new_program true) { asynclogger = some logged_line }

info_short : length (line_of info some_place first_values) ≡ 26
unfolding convert Stream.convert_loop Stream.digit_at
info_short = refl

info_IsOrdinary : IsOrdinary info some_place first_values
info_IsOrdinary = record {
  values_small = (omega arith, tt);
  line_small = omega arith;
  room = omega (arith, info_short);
}

fatal_short : length (line_of fatal some_place first_values) ≡ 26
unfolding convert Stream.convert_loop Stream.digit_at
fatal_short = refl

one_line : Output.Reach true after_one (line_of info some_place first_values)
unfolding new_program init_log_level is_logged perform call_output write_async once step append
    append_to
one_line = Output.then_step Output.begin (
    outputs info some_place first_values (line_of info some_place first_values) [] refl
      info_IsOrdinary
      (log-line debug info some_place first_values refl (omega arith, tt) (omega arith)
        info_IsOrdinary.room)
      refl)

Reach-lines_example : history_of after_one.asynclogger ≡ line_of info some_place first_values
Reach-lines_example = Reach-lines one_line

some_IsOrdinary : IsOrdinary fatal some_place first_values
some_IsOrdinary = record {
  values_small = (omega arith, tt);
  line_small = omega arith;
  room = omega (arith, fatal_short);
}

fatal_lost_example :
    (q : Program) × (statement after_one fatal some_place first_values ≡ some q)
    × (q.aborted ≡ true)
    × (written_of q.asynclogger ≡ written_of after_one.asynclogger)
    × (history_of q.asynclogger
        ≡ line_of info some_place first_values ++ line_of fatal some_place first_values)
fatal_lost_example = fatal_lost some_place first_values one_line some_IsOrdinary
