-- ===== src/Net/LooperThread.antt =====
-- net/looperthread.h and net/looperthread.cpp: class LooperThread, as the thread that calls GetLoop
-- and the new thread run it. The mutex and the condition variable work as the standard says.
pub mod Places
pub mod Handshake
use sinetlib.Base.{ℕ, suc, Bool, true, false, ◌≡◌, Option, none, some, List, [], ◌∷◌, if◌then◌else◌}

-- Who holds the mutex.
pub data Holder : Type 0 where
  nobody caller thread : Holder

-- Where GetLoop is: before the lock, at the loop's test with the lock, in `wait`, behind the return.
pub data CallerAt : Type 0 where
  calling testing waiting returned : CallerAt

-- Where ThreadFunc is: before the lock, with the lock before `loop_` is set, with it behind
-- `notify_one`, in Start.
pub data ThreadAt : Type 0 where
  starting locked notified running : ThreadAt

-- `loop_` is null or points to the loop; `woken` is whether a notification has reached the waiter;
-- `got_loop` is whether what GetLoop returned is not null.
pub record LooperThread : Type 0 where
  pub loop : Bool
  pub mutex : Holder
  pub caller_at : CallerAt
  pub thread_at : ThreadAt
  pub woken : Bool
  pub got_loop : Bool

-- Behind the constructor, at a first call of GetLoop.
abbrev pub new_looper_thread : LooperThread
new_looper_thread = record {
  loop = false;
  mutex = nobody;
  caller_at = calling;
  thread_at = starting;
  woken = false;
  got_loop = false;
}

-- The constructor starts the new thread before it constructs `mutex_` and `condition_`; `none` is that
-- the thread gets to them first.
unfoldable pub construct : Bool → Option LooperThread
construct thread_first = if thread_first then none else some new_looper_thread

-- `notify_one` reaches a thread that waits.
abbrev pub reaches : CallerAt → Bool → Bool
reaches waiting woken = true
reaches _ woken = woken

abbrev pub state : Bool → Holder → CallerAt → ThreadAt → Bool → Bool → LooperThread
state loop mutex caller_at thread_at woken got_loop = record {
  loop = loop;
  mutex = mutex;
  caller_at = caller_at;
  thread_at = thread_at;
  woken = woken;
  got_loop = got_loop;
}

-- What the two threads do, one at a time: l is `loop_`, t and c where the other thread is.
pub data Move : LooperThread → LooperThread → Type 0 where
  caller_locks :
      (l w g : Bool) (t : ThreadAt)
      → Move (state l nobody calling t w g) (state l caller testing t w g)
  caller_waits :
      (w g : Bool) (h : Holder) (t : ThreadAt)
      → Move (state false h testing t w g) (state false nobody waiting t false g)
  caller_wakes :
      (l g : Bool) (t : ThreadAt)
      → Move (state l nobody waiting t true g) (state l caller testing t true g)
  caller_returns :
      (w g : Bool) (h : Holder) (t : ThreadAt)
      → Move (state true h testing t w g) (state true nobody returned t w true)
  thread_locks :
      (l w g : Bool) (c : CallerAt)
      → Move (state l nobody c starting w g) (state l thread c locked w g)
  thread_notifies :
      (l w g : Bool) (h : Holder) (c : CallerAt)
      → Move (state l h c locked w g) (state true h c notified (reaches c w) g)
  thread_unlocks :
      (l w g : Bool) (h : Holder) (c : CallerAt)
      → Move (state l h c notified w g) (state l nobody c running w g)

-- `wait` may also return without a notification.
pub data Reach : LooperThread → Type 0 where
  begin : {s : LooperThread} (thread_first : Bool) → construct thread_first ≡ some s → Reach s
  then_move : {s t : LooperThread} → Reach s → Move s t → Reach t
  then_spurious :
      (l w g : Bool) (t : ThreadAt)
      → Reach (state l nobody waiting t w g)
      → Reach (state l caller testing t w g)

pub data Moves : ℕ → LooperThread → LooperThread → Type 0 where
  done : (s : LooperThread) → Moves 0 s s
  more : {n : ℕ} {s t u : LooperThread} → Move s t → Moves n t u → Moves (suc n) s u

-- What the destructor does, in order.
pub data Ending : Type 0 where
  quits_loop joins_thread : Ending

-- The destructor, which reads `loop_` without the mutex; `none` is Quit through a null pointer.
unfoldable pub destroy : LooperThread → Option (List Ending)
destroy s = if s.loop then some (quits_loop ∷ joins_thread ∷ []) else none
