-- ===== src/Net/Looper/Wakes.antt =====
-- net/looper.cpp: that no task waits for an event that need not come.
use mathlib.Core.List.{Perm}
use mathlib.Core.List.Perm
use sinetlib.Base.{ℕ, zero, suc, ◌+◌, ◌*◌, ◌≤◌, ◌<◌, ◌≡◌, ◌⊎◌, true, List, [], ◌++◌, length}
use sinetlib.Net.Looper.{Looper, Phase, polling, waking, dispatching, handling, ended, State}

-- A wakeup that is not read yet, and the place in the loop.
abbrev pub bonus : ℕ → ℕ
bonus zero = 0
bonus (suc n) = 5

abbrev pub credit : Phase → ℕ → ℕ
credit polling n = bonus n
credit waking n = 4
credit dispatching n = bonus n + 2
credit handling n = bonus n + 1
credit ended n = bonus n

module _ {ℓ} {T : Type ℓ} where
  -- While the loop is in Poll, a task in the queue has a wakeup behind it, made or about to be made;
  -- the loop ends only where Quit was called.
  pub record IsAwake (s : State T) : Type ℓ where
    pub awake : s.phase ≡ polling → (s.looper.task_queue ≡ []) ⊎ (0 < s.looper.wakeups + s.writers)
    pub told : s.phase ≡ ended → s.looper.quit ≡ true

  -- What the prompt steps use up.
  abbrev pub left_to_do : State T → ℕ
  left_to_do s = s.writers * 6 + credit s.phase s.looper.wakeups + length s.looper.task_queue

  -- The tasks of a state: those run and those in the queue.
  abbrev pub tasks : State T → List T
  tasks s = s.looper.ran ++ s.looper.task_queue

  -- What any number of prompt steps keeps, and what it uses up.
  record Carried (n : ℕ) (s s' : State T) : Type ℓ where
    kept : IsAwake s'
    same_quit : s'.looper.quit ≡ s.looper.quit
    used : n + left_to_do s' ≤ left_to_do s
    same_tasks : Perm (tasks s') (tasks s)
