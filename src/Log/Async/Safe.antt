-- ===== src/Log/Async/Safe.antt =====
-- log/asynclogger.cpp: pointers and vectors under every schedule of producers and the log thread.
use sinetlib.Base.{
  suc, ◌+◌, ◌≤◌, ◌≡◌, refl, ap, Bool, true, false, Option, none, some, List, [], ◌∷◌, ◌++◌, length,
  length-append, subst, Bytes, arith,
}
use sinetlib.Log.Stream.{FixedBuffer, reset}
use sinetlib.Log.Async.{
  or_else, unless, keep_two, contents, back_at_test, Front, Logger, Phase, testing, waiting,
  writing, ended, Action, appends, tests, takes, writes, stops, Outcome, moved, disabled, fault,
  started, append_to, append, take_buffers, thin_out, pop_back, restore, write_buffers, log_thread,
  step, run,
}

abbrev pub IsThere : Option FixedBuffer → Type 0
IsThere none = ⊥
IsThere (some b) = Unit {0}

-- An empty next_buffer_ means that a full buffer is waiting.
abbrev FrontInv : Option FixedBuffer → List FixedBuffer → Type 0
FrontInv none bs = 1 ≤ length bs
FrontInv (some b) bs = Unit {0}

-- What the log thread knows of its own variables.
abbrev pub BackInv : Phase → Option FixedBuffer → Option FixedBuffer → List FixedBuffer → Type 0
BackInv testing b1 b2 bs = IsThere b1 × IsThere b2 × (bs ≡ [])
BackInv waiting b1 b2 bs = IsThere b1 × IsThere b2 × (bs ≡ [])
BackInv writing b1 none bs = (b1 ≡ none) × (2 ≤ length bs)
BackInv writing b1 (some b2) bs = (b1 ≡ none) × (1 ≤ length bs)
BackInv ended b1 b2 bs = Unit {0}

pub record Inv (l : Logger) : Type 0 where
  pub current : IsThere l.front.cur
  pub next : FrontInv l.front.next l.front.buffers
  pub back : BackInv l.phase l.back1 l.back2 l.to_write

-- An action leads on to a good state, if it is possible.
abbrev pub Safe : Outcome → Type 0
Safe (moved l) = Inv l
Safe disabled = Unit {0}
Safe fault = ⊥

pub started-Inv : Inv started
started-Inv = record { current = tt; next = tt; back = (tt, tt, refl) }

append_to-FrontInv :
    (f : Front) (cur : FixedBuffer) (text : _)
    → FrontInv f.next f.buffers
    → IsThere (append_to f cur text).cur
      × FrontInv (append_to f cur text).next (append_to f cur text).buffers
unfolding append_to
append_to-FrontInv f cur text h = ground (arith, length-append f.buffers (cur ∷ []))

IsThere-some : (o : Option FixedBuffer) → IsThere o → (b : FixedBuffer) × (o ≡ some b)
IsThere-some none h = absurd h
IsThere-some (some b) h = (b, refl)

append-Safe : (l : Logger) (text : Bytes) → Inv l → Safe (step l (appends text))
unfolding step append
append-Safe l text v =
    let (cur, e) = IsThere-some l.front.cur v.current in
    let (a, b) = append_to-FrontInv l.front cur text v.next in
    rw (e, step, append, Safe) (record { current = a; next = b; back = v.back })

take-BackInv :
    (next b2 : Option FixedBuffer) (bs : List FixedBuffer) (cur : FixedBuffer)
    → FrontInv next bs
    → IsThere b2
    → FrontInv (or_else next b2) [] × (BackInv writing none (unless next b2) (bs ++ cur ∷ []))
take-BackInv none none bs cur h k = absurd k
take-BackInv none (some b) bs cur h k = (tt, (refl, omega (arith, length-append bs (cur ∷ []))))
take-BackInv (some a) none bs cur h k = absurd k
take-BackInv (some a) (some b) bs cur h k = (tt, (refl, omega (arith, length-append bs (cur ∷ []))))

take-Inv : (l : Logger) (cur : FixedBuffer) → Inv l → l.phase ≡ waiting → Inv (take_buffers l cur)
unfolding take_buffers
take-Inv l cur v e =
    let (a, b, c) = subst (λ p. BackInv p l.back1 l.back2 l.to_write) e v.back in
    let (f, g) = take-BackInv l.front.next l.back2 l.front.buffers cur v.next b in
    record { current = a; next = rw c f; back = g }

length-thin_out :
    (bs : List FixedBuffer)
    → (1 ≤ length bs → 1 ≤ length (thin_out bs)) × (2 ≤ length bs → 2 ≤ length (thin_out bs))
unfolding thin_out
length-thin_out [] = (λ h. absurd (omega arith), λ h. absurd (omega arith))
length-thin_out (a ∷ []) = (λ h. omega arith, λ h. absurd (omega arith))
length-thin_out (a ∷ (b ∷ bs)) = ground arith

-- `back()` of a vector that is not empty.
pop_back-cons :
    (a : FixedBuffer) (bs : List FixedBuffer)
    → (rest : List FixedBuffer) × (last : FixedBuffer) × (pop_back (a ∷ bs) ≡ some (rest, last))
      × (length rest ≡ length bs)
unfolding pop_back
pop_back-cons a [] = ([], a, refl, refl)
pop_back-cons a (b ∷ bs) =
    let (rest, last, e, n) = pop_back-cons b bs in (a ∷ rest, last, rw (e, pop_back), ap suc n)

restore_lem :
    (b : Option FixedBuffer) (bs : List FixedBuffer)
    → (b ≡ none → 1 ≤ length bs)
    → (rest : List FixedBuffer) × (c : FixedBuffer) × (restore b bs ≡ some (rest, c))
      × (length bs ≤ length rest + 1)
unfolding restore
restore_lem (some b) bs h = (bs, b, refl, omega arith)
restore_lem none [] h = absurd (omega (arith, h refl))
restore_lem none (a ∷ bs) h =
    let (rest, last, e, n) = pop_back-cons a bs in
    (rest, reset last, rw (e, restore), omega (arith, n))

length-keep_two :
    (bs : List FixedBuffer)
    → (1 ≤ length bs → 1 ≤ length (keep_two bs)) × (2 ≤ length bs → 2 ≤ length (keep_two bs))
unfolding keep_two
length-keep_two [] = (λ h. absurd (omega arith), λ h. absurd (omega arith))
length-keep_two (a ∷ []) = (λ h. omega arith, λ h. absurd (omega arith))
length-keep_two (a ∷ (b ∷ bs)) = ground arith

-- What the log thread has to fill its spare buffers up from.
writing_facts :
    (b1 b2 : Option FixedBuffer) (bs : List FixedBuffer)
    → BackInv writing b1 b2 bs
    → (1 ≤ length bs) × (b2 ≡ none → 2 ≤ length bs)
writing_facts b1 none bs h = (omega arith, λ e. h.1)
writing_facts b1 (some b) bs h = (h.1, λ e. cc)

write-Inv :
    (l : Logger) → Inv l → l.phase ≡ writing → (m : Logger) × (write_buffers l ≡ some m) × Inv m
unfolding write_buffers
write-Inv l v e =
    let back = subst (λ p. BackInv p l.back1 l.back2 l.to_write) e v.back in
    let (one, two) = writing_facts l.back1 l.back2 l.to_write back in
    let thin = length-thin_out l.to_write in
    let keep = length-keep_two (thin_out l.to_write) in
    let (r1, c1, e1, n1) =
      restore_lem l.back1 (keep_two (thin_out l.to_write)) (λ h. keep.0 (thin.0 one)) in
    let (r2, c2, e2, n2) = restore_lem l.back2 r1 (λ h.
      let k : 2 ≤ length (keep_two (thin_out l.to_write)) = keep.1 (thin.1 (two h)) in
      omega (arith, n1)) in
    (
      back_at_test l (contents (thin_out l.to_write)) c1 c2,
      rw (e1, write_buffers) (rw e2),
      record { current = v.current; next = v.next; back = (tt, tt, refl) },
    )

log_thread-Safe :
    (l : Logger) (p : Phase) (r : Bool) (a : Action)
    → l.phase ≡ p
    → Inv l
    → Safe (log_thread p r a l)
unfolding log_thread
log_thread-Safe l waiting r takes e v =
    let (cur, c) = IsThere-some l.front.cur v.current in
    rw (c, log_thread, Safe) (take-Inv l cur v e)
log_thread-Safe l writing r writes e v =
    let (m, w, i) = write-Inv l v e in rw (w, log_thread, Safe) i
log_thread-Safe l testing false tests e v = record { current = v.current; next = v.next; back = tt }
log_thread-Safe l testing true tests e v =
    let back = subst (λ p. BackInv p l.back1 l.back2 l.to_write) e v.back in
    record { current = v.current; next = v.next; back = back }
log_thread-Safe l _ _ _ e v = tt

-- Every action of a producer, of the log thread or of Stop keeps the invariant, and none of them is
-- undefined behaviour.
pub step-Safe : (l : Logger) (a : Action) → Inv l → Safe (step l a)
unfolding step
step-Safe l (appends text) v = append-Safe l text v
step-Safe l stops v = record { current = v.current; next = v.next; back = v.back }
step-Safe l tests v = log_thread-Safe l l.phase l.is_running tests refl v
step-Safe l takes v = log_thread-Safe l l.phase l.is_running takes refl v
step-Safe l writes v = log_thread-Safe l l.phase l.is_running writes refl v

run-Safe : (as' : List Action) (l : Logger) → Inv l → Safe (run l as')
unfolding run
run-Safe [] l v = v
run-Safe (a ∷ as') l v = next (step l a) (step-Safe l a v) (run-Safe as')
  where
    next :
        (o : Outcome)
        → Safe o
        → ((m : Logger) → Inv m → Safe (run m as'))
        → Safe (elim o [ moved m ↦ run m as' | disabled ↦ disabled | fault ↦ fault ])
    next (moved m) s ih = ih m s
    next disabled s ih = tt
    next fault s ih = s

-- From the start on, whatever the schedule, a run of possible actions meets no undefined behaviour and
-- ends in a state with the invariant.
pub run-started-Safe : (as' : List Action) → Safe (run started as')
run-started-Safe as' = run-Safe as' started started-Inv
