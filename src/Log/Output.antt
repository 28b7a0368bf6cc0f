-- ===== src/Log/Output.antt =====
-- log/logger.cpp and log/logger.h: the global variables of the logger, and the output functions. The
-- default one hands each line to an AsyncLogger, which the first line of all starts.
pub mod Lines
pub mod Lost
use sinetlib.Base.{
  ◌≡◌, ◌+◌, ◌<◌, ◌^◌, Bool, true, false, Option, none, some, List, [], ◌∷◌, ◌++◌, length, Bytes,
}
use sinetlib.Log.Async
use sinetlib.Log.Async.{Action, appends, moved, started, step}
use sinetlib.Log.Async.Order.{Calm}
use sinetlib.Log.Logger.{LogLevel, LogEffect, output, flush, abort, Place, init_log_level, log}
use sinetlib.Log.Logger.Lines.{front, tail, texts_of}
use sinetlib.Log.Stream.Bounds.{AreSmall}
use sinetlib.Log.Stream.{Value, small_buffer_size}

-- The functions that the code itself has, and one that a program may set.
pub data OutputFunc : Type 0 where
  async_output default_output user_output : OutputFunc

pub data FlushFunc : Type 0 where
  default_flush user_flush : FlushFunc

-- `asynclogger` is null up to OnceInit; `stdout` is what fwrite was given, and `flushed` how far it has
-- gone out; `user` is what a function of the program's own was given.
pub record Program : Type 0 where
  pub loglevel : LogLevel
  pub g_output : OutputFunc
  pub g_flush : FlushFunc
  pub asynclogger : Option Async.Logger
  pub stdout : Bytes
  pub flushed : Bytes
  pub user : List Bytes
  pub aborted : Bool

-- The initial values; whether the environment has LOG_DEBUG.
unfoldable pub new_program : Bool → Program
new_program debug_set = record {
  loglevel = init_log_level debug_set;
  g_output = async_output;
  g_flush = default_flush;
  asynclogger = none;
  stdout = [];
  flushed = [];
  user = [];
  aborted = false;
}

unfoldable pub set_output : Program → OutputFunc → Program
set_output p out = record p { g_output = out }

unfoldable pub set_flush : Program → FlushFunc → Program
set_flush p f = record p { g_flush = f }

-- `pthread_once` with OnceInit: the AsyncLogger is made and started by the first call, and only by it.
unfoldable pub once : Option Async.Logger → Async.Logger
once none = started
once (some l) = l

-- AsyncOutput; `none` is undefined behaviour in Append.
unfoldable pub write_async : Program → Bytes → Option Program
write_async p text =
    let l = once p.asynclogger in
    elim (Async.append l.front text) [
      | none ↦ none
      | some f ↦ some (record p { asynclogger = some (record l { front = f }) })
    ]

-- g_output, g_flush and `abort`.
unfoldable pub call_output : OutputFunc → Program → Bytes → Option Program
call_output async_output p text = write_async p text
call_output default_output p text = some (record p { stdout = p.stdout ++ text })
call_output user_output p text = some (record p { user = p.user ++ text ∷ [] })

unfoldable pub call_flush : FlushFunc → Program → Program
call_flush default_flush p = record p { flushed = p.stdout }
call_flush user_flush p = p

unfoldable pub perform : Program → LogEffect → Option Program
perform p (output text) = call_output p.g_output p text
perform p flush = some (call_flush p.g_flush p)
perform p abort = some (record p { aborted = true })

unfoldable pub perform_all : Program → List LogEffect → Option Program
perform_all p [] = some p
perform_all p (e ∷ es) = elim (perform p e) [ none ↦ none | some q ↦ perform_all q es ]

-- One logged statement, with nothing of another thread in between.
unfoldable pub statement : Program → LogLevel → Place → List Value → Option Program
statement p level place values = perform_all p (log p.loglevel level place values)

-- The line of a statement, whole.
abbrev pub line_of : LogLevel → Place → List Value → Bytes
line_of level place values = front level place ++ (texts_of values ++ tail place)

-- Values in the ranges of their types, and a line that leaves room in the stream's buffer.
pub record IsOrdinary (level : LogLevel) (place : Place) (values : List Value) : Type 0 where
  pub values_small : AreSmall values
  pub line_small : place.line < 2 ^ 31
  pub room : length (line_of level place values) + 32 < small_buffer_size

-- What the threads do next, with the line that comes out; statements that are not ordinary, whose
-- lines may come out with parts missing, are left out: one performs the output of its statement,
-- or what follows that, or the log thread moves. Nothing happens in a program that has aborted.
pub data Step : Program → Bytes → Program → Type 0 where
  outputs :
      {p q : Program} (level : LogLevel) (place : Place) (values : List Value) (text : Bytes)
      (behind : List LogEffect)
      → p.aborted ≡ false
      → IsOrdinary level place values
      → log p.loglevel level place values ≡ output text ∷ behind
      → perform p (output text) ≡ some q
      → Step p (line_of level place values) q
  flushes : {p q : Program} → p.aborted ≡ false → perform p flush ≡ some q → Step p [] q
  aborts : {p q : Program} → p.aborted ≡ false → perform p abort ≡ some q → Step p [] q
  turns :
      {p : Program} {l m : Async.Logger} (a : Action)
      → p.aborted ≡ false
      → p.asynclogger ≡ some l
      → Calm l a []
      → step l a ≡ moved m
      → Step p [] (record p { asynclogger = some m })

-- The states of a program that sets no functions of its own, with all lines on the way.
pub data Reach (debug_set : Bool) : Program → Bytes → Type 0 where
  begin : Reach debug_set (new_program debug_set) []
  then_step :
      {p q : Program} {lines line : Bytes}
      → Reach debug_set p lines
      → Step p line q
      → Reach debug_set q (lines ++ line)
