-- ===== src/Net/Looper.antt =====
-- net/looper.h and net/looper.cpp: class Looper as its own thread and the others run it. The queue of
-- tasks is a list of which `try_dequeue` takes any element. It may find none although there is one:
-- what its comment leaves open is taken to happen only while another thread is in AddTask or has
-- woken the loop since its last read. A task is any value. The descriptor of `eventfd` is the number
-- that it counts.
pub mod Wakes
pub mod Early
use sinetlib.Base.{
  ℕ, zero, suc, ◌+◌, ◌<◌, ◌≡◌, ◌≢◌, Bool, true, false, not, ◌||◌, List, [], ◌∷◌, ◌++◌,
  if◌then◌else◌,
}

-- `wakeups` is what the eventfd counts, `ran` the tasks run so far.
pub record Looper {ℓ} (T : Type ℓ) : Type ℓ where
  pub quit : Bool
  pub is_handle_task : Bool
  pub wakeups : ℕ
  pub task_queue : List T
  pub ran : List T

module _ {ℓ} {T : Type ℓ} where
  abbrev pub new_looper : Looper T
  new_looper = record {
    quit = false;
    is_handle_task = false;
    wakeups = 0;
    task_queue = [];
    ran = [];
  }

  unfoldable pub quit_loop : Looper T → Looper T
  quit_loop l = record l { quit = true }

  -- `write` adds one to what the eventfd counts.
  unfoldable pub wake_up : Looper T → Looper T
  wake_up l = record l { wakeups = l.wakeups + 1 }

  -- `read` sets it back to zero.
  unfoldable pub handle_wake_up : Looper T → Looper T
  handle_wake_up l = record l { wakeups = 0 }

  unfoldable pub enqueue : Looper T → T → Looper T
  enqueue l t = record l { task_queue = l.task_queue ++ t ∷ [] }

  unfoldable pub run : Looper T → T → Looper T
  run l t = record l { ran = l.ran ++ t ∷ [] }

  -- `in_base` is IsInBaseThread.
  unfoldable pub add_task : Bool → Looper T → T → Looper T
  add_task in_base l t =
      let m = enqueue l t in if not in_base || m.is_handle_task then wake_up m else m

  -- Tasks that the loop's own thread adds before it calls Start.
  abbrev pub add_early : Looper T → List T → Looper T
  add_early l [] = l
  add_early l (t ∷ ts) = add_early (add_task true l t) ts

  unfoldable pub run_task : Bool → Looper T → T → Looper T
  run_task in_base l t = if in_base then run l t else add_task in_base l t

  -- The first and the last line of HandleTask.
  unfoldable pub set_handling : Bool → Looper T → Looper T
  set_handling on l = record l { is_handle_task = on }

-- Where the loop's thread is in Start: in Poll, in the handlers of the events with that of the wakeup
-- still to come, in the handlers without it, in HandleTask, or behind the loop.
pub data Phase : Type 0 where
  polling waking dispatching handling ended : Phase

-- `writers` counts the other threads that are in AddTask between the queue and WakeUp.
pub record State {ℓ} (T : Type ℓ) : Type ℓ where
  pub looper : Looper T
  pub phase : Phase
  pub writers : ℕ

module _ {ℓ} {T : Type ℓ} where
  abbrev pub started : List T → State T
  started early = record { looper = add_early new_looper early; phase = polling; writers = 0 }

  -- What the loop does on its own, without waiting for an event or for Poll's time to run out, and
  -- what the other threads still have to do in AddTask.
  pub data Prompt : State T → State T → Type ℓ where
    wakes :
        (s : State T) (n : ℕ)
        → s.writers ≡ suc n
        → Prompt s (record s { looper = wake_up s.looper; writers = n })
    woken :
        (s : State T)
        → s.phase ≡ polling
        → 0 < s.looper.wakeups
        → Prompt s (record s { phase = waking })
    reads :
        (s : State T)
        → s.phase ≡ waking
        → Prompt s (record s { looper = handle_wake_up s.looper; phase = dispatching })
    starts :
        (s : State T)
        → s.phase ≡ dispatching
        → Prompt s (record s { looper = set_handling true s.looper; phase = handling })
    runs :
        (s : State T) (before : List T) (t : T) (behind : List T)
        → s.phase ≡ handling
        → s.looper.task_queue ≡ before ++ t ∷ behind
        → Prompt s (record s { looper = run (record s.looper { task_queue = before ++ behind }) t })
    ends :
        (s : State T)
        → s.phase ≡ handling
        → s.looper.task_queue ≡ []
        → s.looper.quit ≡ false
        → Prompt s (record s { looper = set_handling false s.looper; phase = polling })
    leaves :
        (s : State T)
        → s.phase ≡ handling
        → s.looper.task_queue ≡ []
        → s.looper.quit ≡ true
        → Prompt s (record s { looper = set_handling false s.looper; phase = ended })
    misses :
        (s : State T)
        → s.phase ≡ handling
        → 0 < s.looper.wakeups + s.writers
        → s.looper.quit ≡ false
        → Prompt s (record s { looper = set_handling false s.looper; phase = polling })
    misses_last :
        (s : State T)
        → s.phase ≡ handling
        → 0 < s.looper.wakeups + s.writers
        → s.looper.quit ≡ true
        → Prompt s (record s { looper = set_handling false s.looper; phase = ended })

  -- Everything that may happen: the above, another event or the time running out in Poll, and tasks
  -- added by other threads, and by handlers and tasks on the loop's own, and Quit by another thread.
  pub data Step : State T → State T → Type ℓ where
    prompt : {s s' : State T} → Prompt s s' → Step s s'
    other_event : (s : State T) → s.phase ≡ polling → Step s (record s { phase = dispatching })
    enqueued :
        (s : State T) (t : T)
        → Step s (record s { looper = enqueue s.looper t; writers = s.writers + 1 })
    added :
        (s : State T) (t : T)
        → s.phase ≢ polling
        → Step s (record s { looper = add_task true s.looper t })
    quits : (s : State T) → Step s (record s { looper = quit_loop s.looper })

  -- What is reached from Start on, with the tasks that were added before it.
  pub data Reach (early : List T) : State T → Type ℓ where
    begin : Reach early (started early)
    then_step : {s s' : State T} → Reach early s → Step s s' → Reach early s'

  -- A number of prompt steps.
  pub data Prompts : ℕ → State T → State T → Type ℓ where
    done : (s : State T) → Prompts 0 s s
    more : {n : ℕ} {s s' s'' : State T} → Prompt s s' → Prompts n s' s'' → Prompts (suc n) s s''
