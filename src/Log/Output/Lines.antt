-- ===== src/Log/Output/Lines.antt =====
-- log/logger.cpp: the lines that the default output function is given, and where they are.
use sinetlib.Base.{
  ◌≡◌, ◌<◌, ◌∙◌, refl, sym, ap, subst, inl, inr, ◌++◌, append-nil, length, Bool, true, false,
  Bool-cases, Option, Option-cases, none, some, List, [], ◌∷◌, Bytes, arith,
}
use sinetlib.Log.Async
use sinetlib.Log.Async.{Action, appends, moved, started, step}
use sinetlib.Log.Async.Order
use sinetlib.Log.Async.Order.{Calm, calm_append, Reach-Inv, Reach-history}
use sinetlib.Log.Async.Tidy.{history}
use sinetlib.Log.Logger.Lines.{log-line}
use sinetlib.Log.Logger.{LogLevel, LogEffect, output, flush, Place, is_logged, log}
use sinetlib.Log.Output.{
  async_output, default_flush, Program, new_program, once, write_async, call_output, call_flush,
  perform, line_of, IsOrdinary, Step, outputs, flushes, aborts, turns, Reach, begin, then_step,
}
use sinetlib.Log.Stream.{Value, large_buffer_size}

-- What the file has been given, and what is still in the buffers behind it.
abbrev pub written_of : Option Async.Logger → Bytes
written_of none = []
written_of (some l) = l.written

abbrev pub history_of : Option Async.Logger → Bytes
history_of none = []
history_of (some l) = history l

-- The AsyncLogger is in a state that its own steps reach with these lines.
abbrev pub Carries : Option Async.Logger → Bytes → Type 0
Carries none lines = lines ≡ []
Carries (some l) lines = Order.Reach l lines

pub once-Reach :
    (o : Option Async.Logger) (lines : Bytes) → Carries o lines → Order.Reach (once o) lines
unfolding once
once-Reach none lines e = subst (Order.Reach started) (sym e) Order.begin
once-Reach (some l) lines r = r

once-written : (o : Option Async.Logger) → (once o).written ≡ written_of o
unfolding once
once-written none = refl
once-written (some l) = refl

-- Performing an output is one append of the AsyncLogger, started if it was not.
record Appended (p : Program) (text : Bytes) (q : Program) : Type 0 where
  l : Async.Logger
  there : q ≡ record p { asynclogger = some l }
  appended : step (once p.asynclogger) (appends text) ≡ moved l
  same_written : l.written ≡ (once p.asynclogger).written

write_async-Appended :
    (p : Program) (text : Bytes) {q : Program} → write_async p text ≡ some q → Appended p text q
unfolding write_async step
write_async-Appended p text {q} e =
    elim (Option-cases (Async.append (once p.asynclogger).front text)) [
      | inl fault ↦ cc (rw (fault, write_async) at e)
      | inr (f, done) ↦ record {
        l = record (once p.asynclogger) { front = f };
        there =
            let d : some
                  (record p { asynclogger = some (record (once p.asynclogger) { front = f }) })
                ≡ some q =
              rw (done, write_async) at e in
            cc;
        appended = rw (done, step) refl;
        same_written = refl;
      }
    ]

log_off :
    (global level : LogLevel) (place : Place) (values : List Value)
    → is_logged global level ≡ false
    → log global level place values ≡ []
unfolding log
log_off global level place values off = rw (off, log) refl

-- What the statement outputs is its whole line.
text-line_of :
    (global : LogLevel) {level : LogLevel} {place : Place} {values : List Value} {text : Bytes}
    {behind : List LogEffect}
    → IsOrdinary level place values
    → log global level place values ≡ output text ∷ behind
    → text ≡ line_of level place values
text-line_of global {level} {place} {values} o e = elim (Bool-cases (is_logged global level)) [
  | inl on ↦
      let whole = log-line global level place values on o.values_small o.line_small o.room in cc
  | inr off ↦ let none_out = log_off global level place values off in cc
]

pub record Holds (p : Program) (lines : Bytes) : Type 0 where
  pub out : p.g_output ≡ async_output
  pub flush_out : p.g_flush ≡ default_flush
  pub carries : Carries p.asynclogger lines

pub outputs-Holds :
    {p q : Program} {lines : Bytes} (line : Bytes)
    → Holds p lines
    → length line < large_buffer_size
    → perform p (output line) ≡ some q
    → Holds q (lines ++ line)
      × (q.aborted ≡ p.aborted)
      × (written_of q.asynclogger ≡ written_of p.asynclogger)
unfolding perform call_output
outputs-Holds {p} {q} {lines} line h small e =
    let a = write_async-Appended p line (ap (λ f. call_output f p line) (sym h.out) ∙ e) in
    subst
      (λ r.
        Holds r (lines ++ line)
        × (r.aborted ≡ p.aborted)
        × (written_of r.asynclogger ≡ written_of p.asynclogger))
      (sym a.there)
      (
        record {
          out = h.out;
          flush_out = h.flush_out;
          carries =
              Order.then_step (appends line) (once-Reach p.asynclogger lines h.carries)
                (calm_append line small) a.appended;
        },
        refl,
        a.same_written ∙ once-written p.asynclogger,
      )

flushed-Holds :
    {p q : Program} {lines : Bytes}
    → Holds p lines
    → perform p flush ≡ some q
    → Holds q (lines ++ []) × (q.aborted ≡ p.aborted) × (q.asynclogger ≡ p.asynclogger)
unfolding perform call_flush
flushed-Holds {p} {q} {lines} h done =
    let there : some (record p { flushed = p.stdout }) ≡ some q =
      ap (λ f. some (call_flush f p)) (sym h.flush_out) ∙ done in
    let same : q ≡ record p { flushed = p.stdout } = cc in
    subst (λ r. Holds r (lines ++ []) × (r.aborted ≡ p.aborted) × (r.asynclogger ≡ p.asynclogger))
      (sym same)
      (
        rw (append-nil lines)
            (record { out = h.out; flush_out = h.flush_out; carries = h.carries }),
        refl,
        refl,
      )

Step-Holds :
    {p q : Program} {lines line : Bytes} → Step p line q → Holds p lines → Holds q (lines ++ line)
unfolding perform
Step-Holds {p} {lines} (outputs level place values text behind alive o e done) h =
    let same = text-line_of p.loglevel o e in
    (outputs-Holds (line_of level place values) h (omega (arith, o.room)) (rw same at done)).0
Step-Holds {p} {q} {lines} (flushes alive done) h = (flushed-Holds h done).0
Step-Holds {p} {q} {lines} (aborts alive done) h =
    let there : q ≡ record p { aborted = true } = cc in
    subst (λ r. Holds r (lines ++ [])) (sym there)
      (rw (append-nil lines) (record { out = h.out; flush_out = h.flush_out; carries = h.carries }))
Step-Holds {p} {q} {lines} (turns {l} {m} a alive e calm moves) h = record {
  out = h.out;
  flush_out = h.flush_out;
  carries = Order.then_step a (subst (λ o. Carries o lines) e h.carries) calm moves;
}

pub Reach-Holds :
    {debug_set : Bool} {p : Program} {lines : Bytes} → Reach debug_set p lines → Holds p lines
unfolding new_program
Reach-Holds begin = record { out = refl; flush_out = refl; carries = refl }
Reach-Holds (then_step r st) = Step-Holds st (Reach-Holds r)

pub Carries-history :
    (o : Option Async.Logger) (lines : Bytes) → Carries o lines → history_of o ≡ lines
Carries-history none lines e = sym e
Carries-history (some l) lines r = Reach-history r

-- Whatever statements threads make, at whatever level, with values in the ranges of their types and
-- lines that leave 32 bytes of the stream's buffer free, and however their outputs and the log
-- thread's turns mix: as long as no buffers are thrown away, what is written and what still waits in the
-- buffers of the one AsyncLogger are together exactly the lines of the statements that were output,
-- each whole, in that order, from the first one on, which started the AsyncLogger.
pub Reach-lines :
    {debug_set : Bool} {p : Program} {lines : Bytes}
    → Reach debug_set p lines
    → history_of p.asynclogger ≡ lines
Reach-lines {p} {lines} r = Carries-history p.asynclogger lines (Reach-Holds r).carries
