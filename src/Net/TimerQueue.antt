-- ===== src/Net/TimerQueue.antt =====
-- net/timer.h, net/timerqueue.h and net/timerqueue.cpp: classes Timer and TimerQueue. The priority
-- queue is a list in the order in which `top` and `pop` see it; timers of one time stand in the order
-- in which they were pushed, which the standard leaves open. Times are nanoseconds.
pub mod Order
pub mod Expired
use sinetlib.Base.Int.{ℤ, pos, neg, quot, rem}
use sinetlib.Base.{
  ℕ, zero, suc, ◌-◌, Bool, true, false, Option, none, some, List, [], ◌∷◌, ◌++◌, ◌==◌, ltb, leb,
  if◌then◌else◌,
}

pub record Timer {ℓ} (A : Type ℓ) : Type ℓ where
  pub callback : A
  pub when : ℕ

-- `deadline` is the time for which the timerfd is armed, `ran` the callbacks run.
pub record TimerQueue {ℓ} (A : Type ℓ) : Type ℓ where
  pub queue : List (Timer A)
  pub deadline : Option ℕ
  pub ran : List A

abbrev pub nanoseconds_per_second : ℕ
nanoseconds_per_second = 1000000000

-- The difference of two times.
abbrev pub gap : ℕ → ℕ → ℤ
gap when now = if leb now when then pos (when - now) else neg (now - when)

-- What ResetTimerfd passes to `timerfd_settime`: seconds and nanoseconds from `now` to `when`.
unfoldable pub reset_timerfd : ℕ → ℕ → ℤ × ℤ
reset_timerfd now when =
    (quot (gap when now) nanoseconds_per_second, rem (gap when now) nanoseconds_per_second)

-- What that call does: a time that is reached already is a gap of zero, which disarms the timerfd, and
-- a time before it makes a field negative, so that the call fails and changes nothing.
unfoldable pub set_timerfd : ℕ → ℕ → Option ℕ → Option ℕ
set_timerfd now when deadline =
    if ltb now when then some when else if now == when then none else deadline

module _ {ℓ} {A : Type ℓ} where
  -- `priority_queue::push`.
  unfoldable pub push : Timer A → List (Timer A) → List (Timer A)
  push t [] = t ∷ []
  push t (x ∷ xs) = let rest = push t xs in if ltb t.when x.when then t ∷ x ∷ xs else x ∷ rest

  -- `priority_queue::pop`.
  unfoldable pub pop : List (Timer A) → List (Timer A)
  pop [] = []
  pop (x ∷ xs) = xs

  -- Whether a timer of that time goes in front of the queue.
  unfoldable pub is_earliest : ℕ → List (Timer A) → Bool
  is_earliest when [] = true
  is_earliest when (x ∷ xs) = ltb when x.when

  -- AddTimer; `now` is what the clock shows in ResetTimerfd.
  unfoldable pub add_timer : ℕ → TimerQueue A → Timer A → TimerQueue A
  add_timer now q t = record q {
    queue = push t q.queue;
    deadline = if is_earliest t.when q.queue then set_timerfd now t.when q.deadline else q.deadline;
  }

  unfoldable pub add_timers : ℕ → TimerQueue A → List (Timer A) → TimerQueue A
  add_timers now q [] = q
  add_timers now q (t ∷ ts) = add_timers now (add_timer now q t) ts

  -- ResetTimerfd for the top of a queue: it is called unless the queue is empty.
  unfoldable pub top_or : ℕ → List (Timer A) → Option ℕ → Option ℕ
  top_or now [] deadline = deadline
  top_or now (t ∷ ts) deadline = set_timerfd now t.when deadline

  -- The end of HandelTimerExpired.
  unfoldable pub rearm : ℕ → TimerQueue A → TimerQueue A
  rearm now q = record q { deadline = top_or now q.queue q.deadline }

  -- `adds` are the timers that a callback adds, in order, when it is run, and `clock` what the clock
  -- shows then.
  module _ (adds : A → List (Timer A)) (clock : A → ℕ) where
    -- `top` is run, and then the queue is popped, whatever its top is by then.
    unfoldable pub run_top : Timer A → TimerQueue A → TimerQueue A
    run_top t q =
        let r = record q { ran = q.ran ++ t.callback ∷ [] } in
        let p = add_timers (clock t.callback) r (adds t.callback) in
        record p { queue = pop p.queue }

    -- The loop of HandelTimerExpired; `none` is out of fuel.
    unfoldable pub run_expired : ℕ → ℕ → TimerQueue A → Option (TimerQueue A)
    run_expired zero now q = none
    run_expired (suc fuel) now q = elim q.queue [
      | [] ↦ some q
      | t ∷ ts ↦ elim (ltb t.when now) [
        | true ↦ run_expired fuel now (run_top t q)
        | false ↦ some q
      ]
    ]

    -- HandelTimerExpired: the timerfd has expired and does not repeat. `now` is what the clock shows
    -- behind the read of the timerfd, whose result is logged only, `end` what it shows at the end.
    unfoldable pub handle_timer_expired : ℕ → ℕ → ℕ → TimerQueue A → Option (TimerQueue A)
    handle_timer_expired fuel now end q =
        elim (run_expired fuel now (record q { deadline = none })) [
          | none ↦ none
          | some p ↦ some (rearm end p)
        ]
