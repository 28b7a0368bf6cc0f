-- ===== src/Net/TimerQueue/Order.antt =====
-- net/timerqueue.cpp: the order of the queue, and the time that AddTimer sets the timerfd to.
use sinetlib.Base.{
  ℕ, ◌≤◌, ◌≡◌, ◌⊎◌, refl, inl, inr, Bool-cases, Option, some, List, [], ◌∷◌, ltb, if◌then◌else◌,
  arith, tests,
}
use sinetlib.Net.TimerQueue.{Timer, TimerQueue, push, is_earliest, add_timer, set_timerfd, top_or}

-- Behind ResetTimerfd the timerfd is armed for the time, or that time is not later than `now`.
set_timerfd_lem :
    (now when : ℕ) (deadline : Option ℕ)
    → (set_timerfd now when deadline ≡ some when) ⊎ (when ≤ now)
unfolding set_timerfd
set_timerfd_lem now when deadline = elim (Bool-cases (ltb now when)) [
  | inl ahead ↦ inl (rw ahead refl)
  | inr past ↦ inr (omega (tests, past))
]

module _ {ℓ} {A : Type ℓ} where
  -- The timers before `now`, and the others, each in the order of the queue.
  abbrev pub expired : ℕ → List (Timer A) → List (Timer A)
  expired now [] = []
  expired now (t ∷ ts) = let rest = expired now ts in if ltb t.when now then t ∷ rest else rest

  abbrev pub later : ℕ → List (Timer A) → List (Timer A)
  later now [] = []
  later now (t ∷ ts) = let rest = later now ts in if ltb t.when now then rest else t ∷ rest

  abbrev pub push_all : List (Timer A) → List (Timer A) → List (Timer A)
  push_all [] q = q
  push_all (t ∷ ts) q = push_all ts (push t q)

  -- Every timer is at `now` or later.
  abbrev pub IsFrom : ℕ → List (Timer A) → Type 0
  IsFrom now [] = Unit {0}
  IsFrom now (t ∷ ts) = (now ≤ t.when) × IsFrom now ts

  -- The times go up.
  abbrev pub Ascends : List (Timer A) → Type 0
  Ascends [] = Unit {0}
  Ascends (t ∷ ts) = IsFrom t.when ts × Ascends ts

  -- Where a timer waits, the timerfd is armed for the earliest one, or that time is not later than
  -- `now`.
  abbrev pub IsTimed : ℕ → List (Timer A) → Option ℕ → Type 0
  IsTimed now [] deadline = Unit {0}
  IsTimed now (t ∷ ts) deadline = (deadline ≡ some t.when) ⊎ (t.when ≤ now)

  -- The queue is in order, and the timerfd is armed for it.
  pub record IsKept (now : ℕ) (q : TimerQueue A) : Type 0 where
    pub ordered : Ascends q.queue
    pub armed : IsTimed now q.queue q.deadline

  pub IsFrom-le : (a b : ℕ) (q : List (Timer A)) → a ≤ b → IsFrom b q → IsFrom a q
  IsFrom-le a b [] h f = tt
  IsFrom-le a b (t ∷ ts) h f = (omega arith, IsFrom-le a b ts h f.1)

  push-IsFrom :
      (now : ℕ) (t : Timer A) (q : List (Timer A))
      → now ≤ t.when
      → IsFrom now q
      → IsFrom now (push t q)
  unfolding push
  push-IsFrom now t [] h f = (h, tt)
  push-IsFrom now t (x ∷ xs) h f = elim (Bool-cases (ltb t.when x.when)) [
    | inl less ↦ rw less (h, f)
    | inr more ↦ rw more (f.0, push-IsFrom now t xs h f.1)
  ]

  pub push-Ascends : (t : Timer A) (q : List (Timer A)) → Ascends q → Ascends (push t q)
  unfolding push
  push-Ascends t [] s = (tt, tt)
  push-Ascends t (x ∷ xs) s = elim (Bool-cases (ltb t.when x.when)) [
    | inl less ↦
        rw less ((omega (tests, less), IsFrom-le t.when x.when xs (omega (tests, less)) s.0), s)
    | inr more ↦ rw more (push-IsFrom x.when t xs (omega (tests, more)) s.0, push-Ascends t xs s.1)
  ]

  pub push_all-Ascends : (ts q : List (Timer A)) → Ascends q → Ascends (push_all ts q)
  push_all-Ascends [] q s = s
  push_all-Ascends (t ∷ ts) q s = push_all-Ascends ts (push t q) (push-Ascends t q s)

  pub top_or-IsTimed :
      (now : ℕ) (q : List (Timer A)) (deadline : Option ℕ) → IsTimed now q (top_or now q deadline)
  unfolding top_or
  top_or-IsTimed now [] deadline = tt
  top_or-IsTimed now (t ∷ ts) deadline = set_timerfd_lem now t.when deadline

  IsTimed-later :
      (before now : ℕ) (q : List (Timer A)) (deadline : Option ℕ)
      → before ≤ now
      → IsTimed before q deadline
      → IsTimed now q deadline
  IsTimed-later before now [] deadline h a = tt
  IsTimed-later before now (t ∷ ts) deadline h (inl set) = inl set
  IsTimed-later before now (t ∷ ts) deadline h (inr past) = inr (omega arith)

  push-IsTimed :
      (now : ℕ) (t : Timer A) (q : List (Timer A)) (deadline : Option ℕ)
      → IsTimed now q deadline
      → IsTimed now
          (push t q)
          (if is_earliest t.when q then set_timerfd now t.when deadline else deadline)
  unfolding push is_earliest
  push-IsTimed now t [] deadline a = set_timerfd_lem now t.when deadline
  push-IsTimed now t (x ∷ xs) deadline a = elim (Bool-cases (ltb t.when x.when)) [
    | inl less ↦ rw less (set_timerfd_lem now t.when deadline)
    | inr more ↦ rw more a
  ]

  -- A queue that was kept when the clock showed `before`: behind AddTimer at `now`, not before that,
  -- it is still in order, and the timerfd is armed for the earliest time in it, whether or not the
  -- new timer is the earliest, unless that time is not later than `now`.
  pub add_timer-IsKept :
      (before now : ℕ) (q : TimerQueue A) (t : Timer A)
      → before ≤ now
      → IsKept before q
      → IsKept now (add_timer now q t)
  unfolding add_timer
  add_timer-IsKept before now q t h k = record {
    ordered = push-Ascends t q.queue k.ordered;
    armed =
        push-IsTimed now t q.queue q.deadline
          (IsTimed-later before now q.queue q.deadline h k.armed);
  }
