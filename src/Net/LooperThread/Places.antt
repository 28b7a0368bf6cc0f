-- ===== src/Net/LooperThread/Places.antt =====
-- net/looperthread.cpp: the mutex, the pointer and the notification in every state.
use sinetlib.Base.{◌≡◌, refl, ◌∙◌, Bool, true, false, some, subst}
use sinetlib.Net.LooperThread.{
  Holder, nobody, caller, thread, CallerAt, calling, testing, waiting, returned, ThreadAt, starting,
  locked, notified, running, LooperThread, reaches, Move, caller_locks, caller_waits, caller_wakes,
  caller_returns, thread_locks, thread_notifies, thread_unlocks, Reach, begin, construct,
  new_looper_thread, then_move, then_spurious,
}

-- What the places of the two threads say of the mutex.
abbrev pub HoldsAt : CallerAt → ThreadAt → Holder → Type 0
HoldsAt testing locked h = ⊥
HoldsAt testing notified h = ⊥
HoldsAt testing _ h = h ≡ caller
HoldsAt _ locked h = h ≡ thread
HoldsAt _ notified h = h ≡ thread
HoldsAt _ _ h = h ≡ nobody

abbrev pub is_set_at : ThreadAt → Bool
is_set_at starting = false
is_set_at locked = false
is_set_at notified = true
is_set_at running = true

-- The mutex, the pointer, and the notification agree with the places; a thread that waits will be or
-- has been notified.
pub record Inv (s : LooperThread) : Type 0 where
  pub held : HoldsAt s.caller_at s.thread_at s.mutex
  pub set : s.loop ≡ is_set_at s.thread_at
  pub told : s.caller_at ≡ waiting → is_set_at s.thread_at ≡ true → s.woken ≡ true
  pub got : s.caller_at ≡ returned → s.got_loop ≡ true

lock-held : (t : ThreadAt) → HoldsAt calling t nobody → HoldsAt testing t caller
lock-held starting h = refl
lock-held locked h = cc
lock-held notified h = cc
lock-held running h = refl

wake-held : (t : ThreadAt) → HoldsAt waiting t nobody → HoldsAt testing t caller
wake-held starting h = refl
wake-held locked h = cc
wake-held notified h = cc
wake-held running h = refl

wait-held : (t : ThreadAt) (h : Holder) → HoldsAt testing t h → HoldsAt waiting t nobody
wait-held starting h e = refl
wait-held locked h e = absurd e
wait-held notified h e = absurd e
wait-held running h e = refl

return-held : (t : ThreadAt) (h : Holder) → HoldsAt testing t h → HoldsAt returned t nobody
return-held starting h e = refl
return-held locked h e = absurd e
return-held notified h e = absurd e
return-held running h e = refl

thread-held : (c : CallerAt) → HoldsAt c starting nobody → HoldsAt c locked thread
thread-held calling h = refl
thread-held testing h = absurd cc
thread-held waiting h = refl
thread-held returned h = refl

notify-held : (c : CallerAt) (h : Holder) → HoldsAt c locked h → HoldsAt c notified h
notify-held calling h e = e
notify-held testing h e = e
notify-held waiting h e = e
notify-held returned h e = e

unlock-held : (c : CallerAt) (h : Holder) → HoldsAt c notified h → HoldsAt c running nobody
unlock-held calling h e = refl
unlock-held testing h e = absurd e
unlock-held waiting h e = refl
unlock-held returned h e = refl

reaches-waiting : (c : CallerAt) (w : Bool) → c ≡ waiting → reaches c w ≡ true
reaches-waiting calling w e = cc
reaches-waiting testing w e = cc
reaches-waiting waiting w e = refl
reaches-waiting returned w e = cc

pub Move-Inv : {s t : LooperThread} → Move s t → Inv s → Inv t
Move-Inv (caller_locks l w g t) v = record {
  held = lock-held t v.held;
  set = v.set;
  told = λ e. absurd cc;
  got = λ e. absurd cc;
}
Move-Inv (caller_waits w g h t) v = record {
  held = wait-held t h v.held;
  set = v.set;
  told = λ e s. absurd (not_set (v.set ∙ s));
  got = λ e. absurd cc;
}
  where
    not_set : ¬ (false ≡ true)
    not_set e = cc
Move-Inv (caller_wakes l g t) v = record {
  held = wake-held t v.held;
  set = v.set;
  told = λ e. absurd cc;
  got = λ e. absurd cc;
}
Move-Inv (caller_returns w g h t) v = record {
  held = return-held t h v.held;
  set = v.set;
  told = λ e. absurd cc;
  got = λ e. refl;
}
Move-Inv (thread_locks l w g c) v = record {
  held = thread-held c v.held;
  set = v.set;
  told = λ e s. absurd cc;
  got = v.got;
}
Move-Inv (thread_notifies l w g h c) v = record {
  held = notify-held c h v.held;
  set = refl;
  told = λ e s. reaches-waiting c w e;
  got = v.got;
}
Move-Inv (thread_unlocks l w g h c) v = record {
  held = unlock-held c h v.held;
  set = v.set;
  told = λ e s. v.told e refl;
  got = v.got;
}

new-Inv : Inv new_looper_thread
new-Inv = record { held = refl; set = refl; told = λ e. absurd cc; got = λ e. absurd cc }

construct-Inv : {s : LooperThread} (thread_first : Bool) → construct thread_first ≡ some s → Inv s
unfolding construct
construct-Inv true e = cc
construct-Inv {s} false e = let same : new_looper_thread ≡ s = cc in subst Inv same new-Inv

pub Reach-Inv : {s : LooperThread} → Reach s → Inv s
Reach-Inv (begin thread_first e) = construct-Inv thread_first e
Reach-Inv (then_move r m) = Move-Inv m (Reach-Inv r)
Reach-Inv (then_spurious l w g t r) =
    let v = Reach-Inv r in
    record { held = wake-held t v.held; set = v.set; told = λ e. absurd cc; got = λ e. absurd cc }
