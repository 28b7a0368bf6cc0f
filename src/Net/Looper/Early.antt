-- ===== src/Net/Looper/Early.antt =====
-- net/looper.cpp: tasks that the loop's own thread adds before it calls Start.
use sinetlib.Base.{
  ◌≡◌, refl, sym, ap, subst, if◌then◌else◌, ◌∙◌, true, false, List, [], ◌∷◌, ◌++◌, append_assoc,
  append-nil, arith,
}
use sinetlib.Net.Looper.{
  Looper, new_looper, add_task, add_early, enqueue, wake_up, State, started, Prompt, wakes, woken,
  reads, starts, runs, ends, leaves, misses, misses_last, polling,
}

module _ {ℓ} {T : Type ℓ} where
  -- What adding such tasks changes.
  record Waits (l : Looper T) (early : List T) (m : Looper T) : Type ℓ where
    wakeups : m.wakeups ≡ l.wakeups
    queue : m.task_queue ≡ l.task_queue ++ early
    ran : m.ran ≡ l.ran

  add_task-enqueue :
      (l : Looper T) (t : T) → l.is_handle_task ≡ false → add_task true l t ≡ enqueue l t
  unfolding add_task enqueue
  add_task-enqueue l t e = ap (λ b. if b then wake_up (enqueue l t) else enqueue l t) e

  add_early-Waits :
      (l : Looper T) (early : List T) → l.is_handle_task ≡ false → Waits l early (add_early l early)
  unfolding enqueue
  add_early-Waits l [] e = record {
    wakeups = refl;
    queue = sym (append-nil l.task_queue);
    ran = refl;
  }
  add_early-Waits l (t ∷ ts) e =
      let w = add_early-Waits (enqueue l t) ts e in
      subst (λ m. Waits l (t ∷ ts) (add_early m ts)) (sym (add_task-enqueue l t e))
        (record {
          wakeups = w.wakeups;
          queue = w.queue ∙ append_assoc l.task_queue (t ∷ []) ts;
          ran = w.ran;
        })

  no_prompt :
      {s s' : State T} → s.phase ≡ polling → s.writers ≡ 0 → s.looper.wakeups ≡ 0 → ¬ Prompt s s'
  no_prompt p w n (wakes s k e) = absurd (omega arith)
  no_prompt p w n (woken s e h) = absurd (omega arith)
  no_prompt p w n (reads s e) = cc
  no_prompt p w n (starts s e) = cc
  no_prompt p w n (runs s before t behind e q) = cc
  no_prompt p w n (ends s e q f) = cc
  no_prompt p w n (leaves s e q f) = cc
  no_prompt p w n (misses s e h f) = cc
  no_prompt p w n (misses_last s e h f) = cc

  -- Tasks that the loop's own thread adds before Start are in the queue then, in order and with none
  -- run, and the loop makes no step before something else happens: another event, the end of Poll's
  -- time, or a call by another thread.
  pub started-waits :
      (early : List T) (s : State T)
      → ((started early).looper.task_queue ≡ early)
        × ((started early).looper.ran ≡ [])
        × (¬ Prompt (started early) s)
  started-waits early s =
      let w = add_early-Waits new_looper early refl in
      (w.queue, w.ran, no_prompt refl refl w.wakeups)
