-- ===== src/Log/Async/Keeps.antt =====
-- log/asynclogger.cpp: what each step does to the texts that are on their way.
use sinetlib.Base.{
  ◌≤◌, ◌<◌, ◌≡◌, refl, ap, ◌∙◌, subst, inl, inr, Bool, true, false, Option-cases, Option, none,
  some, List, [], ◌∷◌, ◌++◌, append_assoc, append-nil, length, Bytes,
}
use sinetlib.Log.Stream.{FixedBuffer, large_buffer_size}
use sinetlib.Log.Async.{
  or_else, unless, keep_two, contents, back_at_test, Logger, Phase, testing, waiting, writing,
  Action, appends, tests, takes, writes, Outcome, moved, disabled, fault, append, take_buffers,
  thin_out, restore, write_buffers, log_thread, step, or_fault,
}
use sinetlib.Log.Async.Safe.{BackInv, Inv}
use sinetlib.Log.Async.Tidy.{
  bytes_of, history, IsSpare, CurLarge, Tidy, contents-append, AreLarge-append, append_to-Puts,
  Restores, restore-Restores, keep_two-AreLarge, thin_out_few,
}

-- The state behind an action, if there is one: tidy, with this history.
abbrev pub Keeps : Bytes → Outcome → Type 0
Keeps log (moved m) = Tidy m × (history m ≡ log)
Keeps log disabled = Unit {0}
Keeps log fault = Unit {0}

write_buffers-Keeps :
    (l : Logger) → Tidy l → length l.to_write ≤ 25 → Keeps (history l) (or_fault (write_buffers l))
unfolding write_buffers
write_buffers-Keeps l t few = first (restore l.back1 (keep_two (thin_out l.to_write))) (
    restore-Restores l.back1 (keep_two (thin_out l.to_write)) t.spare1
      (keep_two-AreLarge (thin_out l.to_write) (rw (thin_out_few l.to_write few) t.taken)))
  where
    done :
        (b1 b2 : FixedBuffer)
        → IsSpare (some b1)
        → IsSpare (some b2)
        → Keeps (history l) (moved (back_at_test l (contents (thin_out l.to_write)) b1 b2))
    done b1 b2 h1 h2 = (
      record {
        current = t.current;
        next = t.next;
        full = t.full;
        spare1 = h1;
        spare2 = h2;
        taken = tt;
      },
      append_assoc l.written (contents (thin_out l.to_write))
            (contents l.front.buffers ++ bytes_of l.front.cur)
          ∙ ap
              (λ bs.
                l.written ++ (contents bs ++ (contents l.front.buffers ++ bytes_of l.front.cur)))
              (thin_out_few l.to_write few),
    )

    second :
        (b1 : FixedBuffer) (o : Option (List FixedBuffer × FixedBuffer))
        → IsSpare (some b1)
        → Restores o
        → Keeps (history l) (
            or_fault (elim o [
              | none ↦ none
              | some (_, b2) ↦ some (back_at_test l (contents (thin_out l.to_write)) b1 b2)
            ]))
    second b1 none h k = tt
    second b1 (some (rest, b2)) h k = done b1 b2 h k.1

    first :
        (o : Option (List FixedBuffer × FixedBuffer))
        → Restores o
        → Keeps (history l) (
            or_fault (elim o [
              | none ↦ none
              | some (kept, b1) ↦ elim (restore l.back2 kept) [
                | none ↦ none
                | some (_, b2) ↦ some (back_at_test l (contents (thin_out l.to_write)) b1 b2)
              ]
            ]))
    first none k = tt
    first (some (kept, b1)) k =
        second b1 (restore l.back2 kept) k.1 (restore-Restores l.back2 kept t.spare2 k.0)

pub append-Keeps :
    (l : Logger) (text : Bytes)
    → Tidy l
    → length text < large_buffer_size
    → Keeps (history l ++ text) (step l (appends text))
unfolding step append
append-Keeps l text t small = elim (Option-cases l.front.cur) [
  | inl e ↦ rw (e, step, append, Keeps) tt
  | inr (cur, e) ↦
      let p = append_to-Puts l.front cur text small (rw e at t.current) t.next t.full in
      rw (e, step, append, Keeps)
        (
          record {
            current = p.cur_large;
            next = p.next_spare;
            full = p.full_large;
            spare1 = t.spare1;
            spare2 = t.spare2;
            taken = t.taken;
          },
          rw (p.behind, e) (simp append_assoc),
        )
]

IsSpare-nil : (o : Option FixedBuffer) → IsSpare o → bytes_of o ≡ []
IsSpare-nil none h = refl
IsSpare-nil (some b) h = h.1

IsSpare-CurLarge : (o : Option FixedBuffer) → IsSpare o → CurLarge o
IsSpare-CurLarge none h = tt
IsSpare-CurLarge (some b) h = h.0

or_else-IsSpare :
    (a b : Option FixedBuffer)
    → IsSpare a
    → IsSpare b
    → IsSpare (or_else a b) × IsSpare (unless a b)
or_else-IsSpare none b h k = (k, tt)
or_else-IsSpare (some a) b h k = (h, k)

take-Keeps :
    (l : Logger) (cur : FixedBuffer)
    → Tidy l
    → Inv l
    → l.phase ≡ waiting
    → l.front.cur ≡ some cur
    → Keeps (history l) (moved (take_buffers l cur))
unfolding take_buffers
take-Keeps l cur t v e c =
    let back = subst (λ p. BackInv p l.back1 l.back2 l.to_write) e v.back in
    let (next, left) = or_else-IsSpare l.front.next l.back2 t.next t.spare2 in
    (
      record {
        current = IsSpare-CurLarge l.back1 t.spare1;
        next = next;
        full = t.taken;
        spare1 = tt;
        spare2 = left;
        taken = AreLarge-append l.front.buffers (cur ∷ []) t.full (rw c at t.current, tt);
      },
      rw (back.2, IsSpare-nil l.back1 t.spare1, c, contents-append) (simp append-nil),
    )

-- Every action but Append adds nothing to the history.
pub log_thread-Keeps :
    (l : Logger) (p : Phase) (r : Bool) (a : Action)
    → l.phase ≡ p
    → Tidy l
    → Inv l
    → (a ≡ writes → length l.to_write ≤ 25)
    → Keeps (history l) (log_thread p r a l)
unfolding log_thread
log_thread-Keeps l waiting r takes e t v few = elim (Option-cases l.front.cur) [
  | inl c ↦ rw (c, log_thread, Keeps) tt
  | inr (cur, c) ↦ rw (c, log_thread, Keeps) (take-Keeps l cur t v e c)
]
log_thread-Keeps l writing r writes e t v few = write_buffers-Keeps l t (few refl)
log_thread-Keeps l testing true tests e t v few = (
  record {
    current = t.current;
    next = t.next;
    full = t.full;
    spare1 = t.spare1;
    spare2 = t.spare2;
    taken = t.taken;
  },
  refl,
)
log_thread-Keeps l testing false tests e t v few = (
  record {
    current = t.current;
    next = t.next;
    full = t.full;
    spare1 = t.spare1;
    spare2 = t.spare2;
    taken = t.taken;
  },
  refl,
)
log_thread-Keeps l _ _ _ e t v few = tt
