-- ===== src/Log/Async/Order.antt =====
-- log/asynclogger.cpp: what becomes of the texts appended, in which order, over all schedules.
use sinetlib.Base.{◌≤◌, ◌<◌, ◌≡◌, refl, sym, ap, ◌∙◌, subst, [], ◌++◌, append-nil, length, Bytes}
use sinetlib.Log.Stream.{large_buffer_size}
use sinetlib.Log.Async.{Logger, Action, appends, tests, takes, writes, stops, moved, started, step}
use sinetlib.Log.Async.Safe.{Inv, Safe, started-Inv, step-Safe}
use sinetlib.Log.Async.Tidy.{history, Tidy}
use sinetlib.Log.Async.Keeps.{Keeps, append-Keeps, log_thread-Keeps}

-- A step that throws no buffer away and appends no text longer than a buffer, with what it appends.
pub data Calm (l : Logger) : Action → Bytes → Type 0 where
  calm_append : (text : Bytes) → length text < large_buffer_size → Calm l (appends text) text
  calm_tests : Calm l tests []
  calm_takes : Calm l takes []
  calm_writes : length l.to_write ≤ 25 → Calm l writes []
  calm_stops : Calm l stops []

-- The states that calm steps lead to from the start, with all that was appended on the way.
pub data Reach : Logger → Bytes → Type 0 where
  begin : Reach started []
  then_step :
      {l m : Logger} {log text : Bytes} (a : Action)
      → Reach l log
      → Calm l a text
      → step l a ≡ moved m
      → Reach m (log ++ text)

step-Keeps :
    (l : Logger) (a : Action) (text : Bytes)
    → Tidy l
    → Inv l
    → Calm l a text
    → Keeps (history l ++ text) (step l a)
unfolding step
step-Keeps l _ _ t v (calm_append text small) = append-Keeps l text t small
step-Keeps l _ _ t v calm_tests =
    rw (append-nil (history l))
      (log_thread-Keeps l l.phase l.is_running tests refl t v (λ h. absurd cc))
step-Keeps l _ _ t v calm_takes =
    rw (append-nil (history l))
      (log_thread-Keeps l l.phase l.is_running takes refl t v (λ h. absurd cc))
step-Keeps l _ _ t v (calm_writes few) =
    rw (append-nil (history l)) (log_thread-Keeps l l.phase l.is_running writes refl t v (λ h. few))
step-Keeps l _ _ t v calm_stops = (
  record {
    current = t.current;
    next = t.next;
    full = t.full;
    spare1 = t.spare1;
    spare2 = t.spare2;
    taken = t.taken;
  },
  sym (append-nil (history l)),
)

pub Reach-Inv : {l : Logger} {log : Bytes} → Reach l log → Inv l
Reach-Inv begin = started-Inv
Reach-Inv (then_step {l} a r c e) = subst Safe e (step-Safe l a (Reach-Inv r))

Reach-Tidy : {l : Logger} {log : Bytes} → Reach l log → Tidy l × (history l ≡ log)
Reach-Tidy begin = (
  record {
    current = refl;
    next = (refl, refl);
    full = tt;
    spare1 = (refl, refl);
    spare2 = (refl, refl);
    taken = tt;
  },
  refl,
)
Reach-Tidy (then_step {l} {text} a r c e) =
    let (t, h) = Reach-Tidy r in
    let (tidy, same) =
      subst (Keeps (history l ++ text)) e (step-Keeps l a text t (Reach-Inv r) c) in
    (tidy, same ∙ ap (λ xs. xs ++ text) h)

-- No text is lost, doubled or moved: in every state that the threads reach without throwing buffers
-- away, what is written, what the log thread is to write, the full buffers and the current one are
-- together exactly the texts appended so far, in order.
pub Reach-history : {l : Logger} {log : Bytes} → Reach l log → history l ≡ log
Reach-history r = (Reach-Tidy r).1
