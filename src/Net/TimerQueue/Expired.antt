-- ===== src/Net/TimerQueue/Expired.antt =====
-- net/timerqueue.cpp: what HandelTimerExpired runs, and what it leaves.
use sinetlib.Base.{
  ℕ, zero, suc, ◌+◌, ◌≤◌, ◌<◌, ◌≡◌, refl, none, sym, ap, ◌∙◌, inl, inr, true, false, Bool-cases,
  Option, some, List, [], ◌∷◌, ◌++◌, append_assoc, subst, append-nil, length, ltb, arith,
  not_ltb→le, ltb→lt,
}
use sinetlib.Net.TimerQueue.{
  Timer, TimerQueue, push, pop, add_timer, add_timers, rearm, run_top, run_expired,
  handle_timer_expired,
}
use sinetlib.Net.TimerQueue.Order.{
  expired, later, push_all, IsFrom, Ascends, IsTimed, IsFrom-le, push-Ascends, push_all-Ascends,
  top_or-IsTimed,
}

module _ {ℓ} {A : Type ℓ} where
  length-expired : (now : ℕ) (q : List (Timer A)) → length (expired now q) ≤ length q
  length-expired now [] = omega arith
  length-expired now (t ∷ ts) = ground (arith, length-expired now ts)

  -- In an ascending queue whose top has not expired, none has.
  later-all :
      (now : ℕ) (q : List (Timer A)) → IsFrom now q → (expired now q ≡ []) × (later now q ≡ q)
  later-all now [] f = (refl, refl)
  later-all now (t ∷ ts) f =
      let rest = later-all now ts f.1 in
      let late : ltb t.when now ≡ false = ground (arith, f.0) in rw late (rest.0, ap (◌∷◌ t) rest.1)

  module _ (now : ℕ) where
    -- A timer that has not expired goes behind those that have, and among the others.
    expired-push :
        (t : Timer A) (q : List (Timer A)) → now ≤ t.when → expired now (push t q) ≡ expired now q
    unfolding push
    expired-push t [] h = ground (arith, h)
    expired-push t (x ∷ xs) h = ground (arith, h, expired-push t xs h)

    later-push :
        (t : Timer A) (q : List (Timer A))
        → now ≤ t.when
        → Ascends q
        → later now (push t q) ≡ push t (later now q)
    unfolding push
    later-push t [] h s = ground (arith, h)
    later-push t (x ∷ xs) h s = ground (arith, h, later-push t xs h s.1, s.0)

    push_all-behind :
        (ts : List (Timer A)) (x : Timer A) (q : List (Timer A))
        → x.when < now
        → IsFrom now ts
        → push_all ts (x ∷ q) ≡ x ∷ push_all ts q
    unfolding push
    push_all-behind [] x q h f = refl
    push_all-behind (t ∷ ts) x q h f = rw not_less (push_all-behind ts x (push t q) h f.1)
      where
        not_less : ltb t.when x.when ≡ false
        not_less = ground (arith, f.0, h)

    expired-push_all :
        (ts q : List (Timer A)) → IsFrom now ts → expired now (push_all ts q) ≡ expired now q
    expired-push_all [] q f = refl
    expired-push_all (t ∷ ts) q f = expired-push_all ts (push t q) f.1 ∙ expired-push t q f.0

    later-push_all :
        (ts q : List (Timer A))
        → IsFrom now ts
        → Ascends q
        → later now (push_all ts q) ≡ push_all ts (later now q)
    later-push_all [] q f s = refl
    later-push_all (t ∷ ts) q f s =
        later-push_all ts (push t q) f.1 (push-Ascends t q s)
        ∙ ap (push_all ts) (later-push t q f.0 s)

  push_all-append : (xs ys q : List (Timer A)) → push_all (xs ++ ys) q ≡ push_all ys (push_all xs q)
  push_all-append [] ys q = refl
  push_all-append (x ∷ xs) ys q = push_all-append xs ys (push x q)

  add_timers-lem :
      (at : ℕ) (ts : List (Timer A)) (q : TimerQueue A)
      → ((add_timers at q ts).queue ≡ push_all ts q.queue) × ((add_timers at q ts).ran ≡ q.ran)
  unfolding add_timers add_timer
  add_timers-lem at [] q = (refl, refl)
  add_timers-lem at (t ∷ ts) q = add_timers-lem at ts (add_timer at q t)

  abbrev pub callbacks : List (Timer A) → List A
  callbacks [] = []
  callbacks (t ∷ ts) = t.callback ∷ callbacks ts

  module _ (adds : A → List (Timer A)) (now : ℕ) where
    -- The timers that the callbacks of some timers add.
    abbrev pub added : List (Timer A) → List (Timer A)
    added [] = []
    added (t ∷ ts) = adds t.callback ++ added ts

    -- What is run of a queue, and what it becomes.
    pub record Runs (q : TimerQueue A) (timers : List (Timer A)) (p : TimerQueue A) : Type ℓ where
      pub in_order : p.ran ≡ q.ran ++ callbacks (expired now timers)
      pub left : p.queue ≡ push_all (added (expired now timers)) (later now timers)
      pub ascends : Ascends p.queue

    module _ (clock : A → ℕ) (ahead : (a : A) → IsFrom now (adds a)) where
      run_top-lem :
          (q : TimerQueue A) (t : Timer A) (ts : List (Timer A))
          → q.queue ≡ t ∷ ts
          → t.when < now
          → ((run_top adds clock t q).queue ≡ push_all (adds t.callback) ts)
            × ((run_top adds clock t q).ran ≡ q.ran ++ t.callback ∷ [])
      unfolding run_top pop
      run_top-lem q t ts e h =
          let r =
            add_timers-lem (clock t.callback) (adds t.callback)
              (record q { ran = q.ran ++ t.callback ∷ [] }) in
          (
            ap pop (
                r.0
                ∙ ap (push_all (adds t.callback)) e
                ∙ push_all-behind now (adds t.callback) t ts h (ahead t.callback)),
            r.1,
          )

      round :
          (fuel : ℕ) (q : TimerQueue A) (o : List (Timer A))
          → q.queue ≡ o
          → run_expired adds clock (suc fuel) now q ≡ (elim o as (λ o. Option (TimerQueue A)) [
            | [] ↦ some q
            | t ∷ ts ↦ elim (ltb t.when now) [
              | true ↦ run_expired adds clock fuel now (run_top adds clock t q)
              | false ↦ some q
            ]
          ])
      unfolding run_expired
      round fuel q o e =
          ap
            (λ o. elim o as (λ o. Option (TimerQueue A)) [
              | [] ↦ some q
              | t ∷ ts ↦ elim (ltb t.when now) [
                | true ↦ run_expired adds clock fuel now (run_top adds clock t q)
                | false ↦ some q
              ]
            ])
            e

      round_before :
          (fuel : ℕ) (q : TimerQueue A) (t : Timer A) (ts : List (Timer A))
          → q.queue ≡ t ∷ ts
          → ltb t.when now ≡ true
          → run_expired adds clock (suc fuel) now q
            ≡ run_expired adds clock fuel now (run_top adds clock t q)
      round_before fuel q t ts e before = round fuel q (t ∷ ts) e ∙ rw before refl

      -- A round that runs the top, and the rounds behind it.
      then-Runs :
          (q r p : TimerQueue A) (t : Timer A) (ts : List (Timer A))
          → t.when < now
          → Ascends ts
          → r.ran ≡ q.ran ++ t.callback ∷ []
          → Runs r (push_all (adds t.callback) ts) p
          → Runs q (t ∷ ts) p
      then-Runs q r p t ts h s ran rest =
          let f = ahead t.callback in
          let more = adds t.callback in
          let before : ltb t.when now ≡ true = ground (arith, h) in
          let same = expired-push_all now more ts f in
          record {
            in_order = rw before (
                rest.in_order
                ∙ rw (same, ran)
                    (append_assoc q.ran (t.callback ∷ []) (callbacks (expired now ts))));
            left = rw before (
                rest.left
                ∙ rw (same, later-push_all now more ts f s)
                    (sym (push_all-append more (added (expired now ts)) (later now ts))));
            ascends = rest.ascends;
          }

      run_expired-Runs :
          (fuel : ℕ) (q : TimerQueue A) (timers : List (Timer A))
          → q.queue ≡ timers
          → Ascends timers
          → length (expired now timers) < fuel
          → (p : TimerQueue A) × (run_expired adds clock fuel now q ≡ some p) × Runs q timers p
      run_expired-Runs zero q timers e s h = absurd (omega arith)
      run_expired-Runs (suc fuel) q [] e s h = (
        q,
        round fuel q [] e,
        record { in_order = sym (append-nil q.ran); left = e; ascends = subst Ascends (sym e) tt },
      )
      run_expired-Runs (suc fuel) q (t ∷ ts) e s h = elim (Bool-cases (ltb t.when now)) [
        | inl before ↦
            let r = run_top-lem q t ts e (ltb→lt t.when now before) in
            let f = ahead t.callback in
            let more = adds t.callback in
            let same = expired-push_all now more ts f in
            let ih =
              run_expired-Runs fuel (run_top adds clock t q) (push_all more ts) r.0
                (push_all-Ascends more ts s.1) (rw same (ground (arith, before, h))) in
            (
              ih.0,
              round_before fuel q t ts e before ∙ ih.1,
              then-Runs q (run_top adds clock t q) ih.0 t ts (ltb→lt t.when now before) s.1 r.1
                  ih.2,
            )
        | inr from ↦
            let rest =
              later-all now ts (IsFrom-le now t.when ts (not_ltb→le t.when now from) s.0) in
            (
              q,
              round fuel q (t ∷ ts) e ∙ rw from refl,
              record {
                in_order = rw (from, rest.0) (sym (append-nil q.ran));
                left = rw (from, rest.0, rest.1) e;
                ascends = subst Ascends (sym e) s;
              },
            )
      ]

  -- The queue is in order, and a callback adds no timer for a time before `now`, which the clock shows
  -- at first. Then, with fuel for the timers in the queue, HandelTimerExpired ends: it has run the
  -- callbacks of all timers before `now` in the order of their times and no other, each once; it
  -- leaves the others and the timers that those callbacks added, in order; and if any is left, the
  -- timerfd is armed for the earliest time, unless that is not later than the clock at the end.
  pub handle_timer_expired-Runs :
      (adds : A → List (Timer A)) (clock : A → ℕ) (now end : ℕ)
      → ((a : A) → IsFrom now (adds a))
      → (q : TimerQueue A) → Ascends q.queue
      → (p : TimerQueue A) × (handle_timer_expired adds clock (length q.queue + 1) now end q
          ≡ some p)
        × Runs adds now q q.queue p
        × IsTimed end p.queue p.deadline
  unfolding handle_timer_expired
  handle_timer_expired-Runs adds clock now end ahead q s =
      let run =
        run_expired-Runs adds now clock ahead (length q.queue + 1) (record q { deadline = none })
          q.queue refl s (omega (arith, length-expired now q.queue)) in
      (
        rearm end run.0,
        rw (run.1, handle_timer_expired) refl,
        unfold rearm in rearmed run.2,
        unfold rearm in top_or-IsTimed end run.0.queue run.0.deadline,
      )
    where
      rearmed :
          {p : TimerQueue A}
          → Runs adds now (record q { deadline = none }) q.queue p
          → Runs adds now q q.queue (rearm end p)
      rearmed r =
          unfold rearm in record { in_order = r.in_order; left = r.left; ascends = r.ascends }
