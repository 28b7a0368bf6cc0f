-- ===== src/Log/Output/Lost.antt =====
-- log/logger.cpp: what becomes of the line of a fatal statement.
use sinetlib.Base.{
  ◌≡◌, ◌∙◌, refl, ap, inl, inr, ◌++◌, Bool, true, Option-cases, some, List, Bytes, arith,
}
use sinetlib.Log.Async
use sinetlib.Log.Async.{Action, appends, moved, started, step}
use sinetlib.Log.Async.Order.{Reach-Inv}
use sinetlib.Log.Async.Safe.{step-Safe}
use sinetlib.Log.Logger.Lines.{log-line}
use sinetlib.Log.Logger.{fatal, output, Place, is_logged}
use sinetlib.Log.Output.{
  default_flush, user_flush, FlushFunc, Program, once, write_async, call_output, call_flush,
  perform, perform_all, statement, line_of, IsOrdinary, Reach,
}
use sinetlib.Log.Stream.{Value}
use sinetlib.Log.Output.Lines.{
  written_of, history_of, Carries, once-Reach, Holds, outputs-Holds, Reach-Holds, Carries-history,
}

-- `append` never goes wrong.
write_async_done :
    (p : Program) (lines text : Bytes)
    → Carries p.asynclogger lines
    → (q : Program) × (write_async p text ≡ some q)
unfolding write_async step
write_async_done p lines text c =
    elim (Option-cases (Async.append (once p.asynclogger).front text)) [
      | inl fault ↦
          let good =
            step-Safe (once p.asynclogger) (appends text)
              (Reach-Inv (once-Reach p.asynclogger lines c)) in
          absurd (rw (fault, step) at good)
      | inr (f, done) ↦ (
        record p { asynclogger = some (record (once p.asynclogger) { front = f }) },
        rw (done, write_async) refl,
      )
    ]

perform-output :
    {p q : Program} {lines : Bytes} (line : Bytes)
    → Holds p lines
    → write_async p line ≡ some q
    → perform p (output line) ≡ some q
unfolding perform call_output
perform-output {p} line h e = ap (λ f. call_output f p line) h.out ∙ e

call_flush-asynclogger :
    (f : FlushFunc) (p : Program) → (call_flush f p).asynclogger ≡ p.asynclogger
unfolding call_flush
call_flush-asynclogger default_flush p = refl
call_flush-asynclogger user_flush p = refl

-- A fatal statement: in any state that is reached, if the log thread does not move before it is done,
-- the program has ended with nothing more written than before, so its own line, which is the last of
-- what waits in the buffers, is lost, with all that waited there.
pub fatal_lost :
    {debug_set : Bool} {p : Program} {lines : Bytes} (place : Place) (values : List Value)
    → Reach debug_set p lines
    → IsOrdinary fatal place values
    → (q : Program) × (statement p fatal place values ≡ some q)
      × (q.aborted ≡ true)
      × (written_of q.asynclogger ≡ written_of p.asynclogger)
      × (history_of q.asynclogger ≡ lines ++ line_of fatal place values)
unfolding statement perform_all is_logged perform
fatal_lost {p} {lines} place values r o =
    let h = Reach-Holds r in
    let line = line_of fatal place values in
    let effects = log-line p.loglevel fatal place values refl o.values_small o.line_small o.room in
    let (q, wrote) = write_async_done p lines line h.carries in
    let out = perform-output line h wrote in
    let (k, alive, same) = outputs-Holds line h (omega (arith, o.room)) out in
    let kept = call_flush-asynclogger q.g_flush q in
    (
      record (call_flush q.g_flush q) { aborted = true },
      rw (effects, perform_all, out) refl,
      refl,
      ap written_of kept ∙ same,
      ap history_of kept ∙ Carries-history q.asynclogger (lines ++ line) k.carries,
    )
