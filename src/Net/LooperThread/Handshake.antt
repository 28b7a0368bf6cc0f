-- ===== src/Net/LooperThread/Handshake.antt =====
-- net/looperthread.cpp: what GetLoop returns, and that it returns.
use sinetlib.Base.{
  ℕ, ◌+◌, ◌≤◌, ◌<◌, ◌≡◌, ◌⊎◌, refl, inl, inr, Bool, true, false, some, [], ◌∷◌, arith,
}
use sinetlib.Net.LooperThread.{
  Holder, nobody, caller, thread, CallerAt, calling, testing, waiting, returned, ThreadAt, starting,
  locked, notified, running, LooperThread, reaches, state, Move, caller_locks, caller_waits,
  caller_wakes, caller_returns, thread_locks, thread_notifies, thread_unlocks, Reach, Moves, done,
  more, quits_loop, joins_thread, destroy,
}
use sinetlib.Net.LooperThread.Places.{Inv, Move-Inv, Reach-Inv}

abbrev Next : LooperThread → Type 0
Next s =
    ((t : LooperThread) × Move s t)
    ⊎ ((s.caller_at ≡ returned)
        × (s.got_loop ≡ true)
        × (s.thread_at ≡ running)
        × (destroy s ≡ some (quits_loop ∷ joins_thread ∷ [])))

-- With the mutex free, and with it held.
free : (l w g : Bool) (h : Holder) (c : CallerAt) → h ≡ nobody → Next (state l h c starting w g)
free l w g nobody c e = inl (_, thread_locks l w g c)
free l w g caller c e = absurd cc
free l w g thread c e = absurd cc

call : (l w g : Bool) (h : Holder) → h ≡ nobody → Next (state l h calling running w g)
call l w g nobody e = inl (_, caller_locks l w g running)
call l w g caller e = absurd cc
call l w g thread e = absurd cc

wake : (l w g : Bool) (h : Holder) → h ≡ nobody → w ≡ true → Next (state l h waiting running w g)
wake l true g nobody e f = inl (_, caller_wakes l g running)
wake l false g h e f = absurd cc
wake l true g caller e f = absurd cc
wake l true g thread e f = absurd cc

test : (l w g : Bool) (h : Holder) (t : ThreadAt) → Next (state l h testing t w g)
test false w g h t = inl (_, caller_waits w g h t)
test true w g h t = inl (_, caller_returns w g h t)

-- Behind GetLoop and in Start, the destructor finds the loop.
arrived : (l w g : Bool) (h : Holder) → g ≡ true → l ≡ true → Next (state l h returned running w g)
unfolding destroy
arrived l w g h got set = inr (refl, got, refl, rw set refl)

-- Either a thread can move, or both are where they are to go.
next :
    (l w g : Bool) (h : Holder) (c : CallerAt) (t : ThreadAt)
    → Inv (state l h c t w g)
    → Next (state l h c t w g)
next l w g h testing t v = test l w g h t
next l w g h c locked v = inl (_, thread_notifies l w g h c)
next l w g h c notified v = inl (_, thread_unlocks l w g h c)
next l w g h calling starting v = free l w g h calling v.held
next l w g h waiting starting v = free l w g h waiting v.held
next l w g h returned starting v = free l w g h returned v.held
next l w g h calling running v = call l w g h v.held
next l w g h waiting running v = wake l w g h v.held (v.told refl refl)
next l w g h returned running v = arrived l w g h (v.got refl) v.set

abbrev caller_left : CallerAt → Bool → ℕ
caller_left calling w = 3
caller_left testing w = 2
caller_left waiting true = 3
caller_left waiting false = 1
caller_left returned w = 0

abbrev thread_left : ThreadAt → ℕ
thread_left starting = 6
thread_left locked = 5
thread_left notified = 2
thread_left running = 1

-- What the moves use up.
abbrev pub moves_left : LooperThread → ℕ
moves_left s = caller_left s.caller_at s.woken + thread_left s.thread_at

reaches-le : (c : CallerAt) (w : Bool) → caller_left c (reaches c w) ≤ caller_left c w + 2
reaches-le calling w = omega arith
reaches-le testing w = omega arith
reaches-le waiting true = omega arith
reaches-le waiting false = omega arith
reaches-le returned w = omega arith

Move-lt : {s t : LooperThread} → Move s t → moves_left t < moves_left s
Move-lt (caller_locks l w g t) = omega arith
Move-lt (caller_waits w g h t) = omega arith
Move-lt (caller_wakes l g t) = omega arith
Move-lt (caller_returns w g h t) = omega arith
Move-lt (thread_locks l w g c) = omega arith
Move-lt (thread_notifies l w g h c) = omega (arith, reaches-le c w)
Move-lt (thread_unlocks l w g h c) = omega arith

Moves-Inv :
    {n : ℕ} {s t : LooperThread} → Moves n s t → Inv s → Inv t × (n + moves_left t ≤ moves_left s)
Moves-Inv (done s) v = (v, omega arith)
Moves-Inv (more m rest) v =
    let (w, used) = Moves-Inv rest (Move-Inv m v) in (w, omega (arith, used, Move-lt m))

-- The constructor has constructed the members before the new thread gets to them. In any state that
-- the two threads can reach then, whichever of them moves next and whether or not `wait`
-- returns without a notification on the way there: they make at most a number of further moves that
-- the state bounds, the notification is never lost, and once neither can move, GetLoop has returned
-- a pointer that is not null, the new thread runs its loop, and the destructor quits that loop, not
-- a null pointer, and joins the thread.
pub Moves-returned :
    {n : ℕ} {s t : LooperThread}
    → Reach s
    → Moves n s t
    → (n ≤ moves_left s)
      × (((u : LooperThread) × Move t u)
          ⊎ ((t.caller_at ≡ returned)
              × (t.got_loop ≡ true)
              × (t.thread_at ≡ running)
              × (destroy t ≡ some (quits_loop ∷ joins_thread ∷ []))))
Moves-returned {t = t} r ms =
    let (v, used) = Moves-Inv ms (Reach-Inv r) in
    (omega (arith, used), next t.loop t.woken t.got_loop t.mutex t.caller_at t.thread_at v)
