-- ===== src/Net/Epoller/Covers.antt =====
-- net/epoller.cpp: that Poll finds what the kernel reports.
use sinetlib.Base.{
  ℕ, ◌≡◌, ◌≢◌, ◌⊎◌, refl, sym, ap, ap₂, ◌∙◌, inl, inr, Bool, true, false, Bool-cases, none, some,
  List, [], ◌∷◌, ◌==◌, arith,
}
use sinetlib.Net.EventBase.{EventBase, Events, set_revents}
use sinetlib.Net.Epoller.{
  Registered, put_entry, erase_entry, EventTable, IsEventTable, Epoller, add, mod_, del, poll,
}

-- The descriptor is none of these.
abbrev pub IsNoneOf : ℕ → List ℕ → Type 0
IsNoneOf fd [] = Unit {0}
IsNoneOf fd (other ∷ others) = (fd ≢ other) × IsNoneOf fd others

module _ {ℓ} {K : Type ℓ} (kernel : EventTable K) where
  -- Every descriptor in the table of the kernel has its eventbase in the map, but for some.
  abbrev pub IsCovered : List ℕ → Epoller K → Type 0
  IsCovered lost p =
      (fd : ℕ)
      → IsNoneOf fd lost
      → kernel.watches p.table fd ≡ true
      → (e : EventBase) × (p.fd_2_eventbase_list fd ≡ some e) × (e.fd ≡ fd)

  -- What becomes of an Epoller under any calls and closings; `lost` are the descriptors that were
  -- added while they were in the table, or whose change failed while they were there.
  pub data Reach (k : K) : List ℕ → Epoller K → Type ℓ where
    begin :
        ((fd : ℕ) → kernel.watches k fd ≡ false)
        → Reach k [] (record { table = k; fd_2_eventbase_list = λ fd. none })
    added :
        {lost : List ℕ} {p : Epoller K} (e : EventBase)
        → Reach k lost p
        → kernel.watches p.table e.fd ≡ false
        → Reach k lost (add kernel p e)
    added_again :
        {lost : List ℕ} {p : Epoller K} (e : EventBase)
        → Reach k lost p
        → kernel.watches p.table e.fd ≡ true
        → Reach k (e.fd ∷ lost) (add kernel p e)
    modified :
        {lost : List ℕ} {p : Epoller K} (e : EventBase)
        → Reach k lost p
        → ((kernel.ctl_mod p.table e.fd e.events).0 ≡ true) ⊎ (kernel.watches p.table e.fd ≡ false)
        → Reach k lost (mod_ kernel p e)
    not_modified :
        {lost : List ℕ} {p : Epoller K} (e : EventBase)
        → Reach k lost p
        → (kernel.ctl_mod p.table e.fd e.events).0 ≡ false
        → kernel.watches p.table e.fd ≡ true
        → Reach k (e.fd ∷ lost) (mod_ kernel p e)
    deleted :
        {lost : List ℕ} {p : Epoller K} (e : EventBase)
        → Reach k lost p
        → Reach k lost (del kernel p e)
    shut :
        {lost : List ℕ} {p : Epoller K} (fd : ℕ)
        → Reach k lost p
        → Reach k lost (record p { table = kernel.closed p.table fd })

  put_entry-same : (r : Registered) (e : EventBase) (fd : ℕ) → fd ≡ e.fd → put_entry r e fd ≡ some e
  unfolding put_entry
  put_entry-same r e fd h = rw hit refl
    where
      hit : (fd == e.fd) ≡ true
      hit = ground (arith, h)

  put_entry-other : (r : Registered) (e : EventBase) (fd : ℕ) → fd ≢ e.fd → put_entry r e fd ≡ r fd
  unfolding put_entry
  put_entry-other r e fd h = rw miss refl
    where
      miss : (fd == e.fd) ≡ false
      miss = ground (arith, h)

  erase_entry-other : (r : Registered) (gone fd : ℕ) → fd ≢ gone → erase_entry r gone fd ≡ r fd
  unfolding erase_entry
  erase_entry-other r gone fd h = rw miss refl
    where
      miss : (fd == gone) ≡ false
      miss = ground (arith, h)

  module _ (law : IsEventTable kernel) where
    -- An addition covers all but a descriptor that was in the table.
    add-found :
        (lost : List ℕ) (p : Epoller K) (e : EventBase) (fd : ℕ)
        → IsNoneOf fd lost
        → (kernel.watches p.table fd ≡ true → fd ≢ e.fd)
        → IsCovered lost p
        → kernel.watches (add kernel p e).table fd ≡ true
        → (f : EventBase) × ((add kernel p e).fd_2_eventbase_list fd ≡ some f) × (f.fd ≡ fd)
    unfolding add
    add-found lost p e fd m new c w = elim (law.add_adds p.table e.fd e.events fd w) [
      | inl old ↦
          let other = new old in
          let f = c fd m old in
          let kept = put_entry-other p.fd_2_eventbase_list e fd other ∙ f.1 in
          elim (Bool-cases (kernel.ctl_add p.table e.fd e.events).0) [
            | inl success ↦ rw success (f.0, kept, f.2)
            | inr failure ↦ rw failure (
              f.0,
              erase_entry-other (put_entry p.fd_2_eventbase_list e) e.fd fd other ∙ kept,
              f.2,
            )
          ]
      | inr taken ↦ rw taken.1 (e, put_entry-same p.fd_2_eventbase_list e fd taken.0, sym taken.0)
    ]

    add-IsCovered :
        (lost : List ℕ) (p : Epoller K) (e : EventBase)
        → kernel.watches p.table e.fd ≡ false
        → IsCovered lost p
        → IsCovered lost (add kernel p e)
    add-IsCovered lost p e new c fd m w =
        add-found lost p e fd m
          (λ old same. unwatched (ap (kernel.watches p.table) (sym same) ∙ old)) c w
      where
        unwatched : ¬ (kernel.watches p.table e.fd ≡ true)
        unwatched h = cc

    mod-found :
        (lost : List ℕ) (p : Epoller K) (e : EventBase) (fd : ℕ)
        → IsNoneOf fd lost
        → ((kernel.ctl_mod p.table e.fd e.events).0 ≡ false → fd ≢ e.fd)
        → IsCovered lost p
        → kernel.watches (mod_ kernel p e).table fd ≡ true
        → (f : EventBase) × ((mod_ kernel p e).fd_2_eventbase_list fd ≡ some f) × (f.fd ≡ fd)
    unfolding mod_
    mod-found lost p e fd m other c w =
        let f = c fd m (sym (law.mod_keeps p.table e.fd e.events fd) ∙ w) in
        elim (Bool-cases (kernel.ctl_mod p.table e.fd e.events).0) [
          | inl success ↦ rw success f
          | inr failure ↦
              rw failure
                (f.0, erase_entry-other p.fd_2_eventbase_list e.fd fd (other failure) ∙ f.1, f.2)
        ]

    mod-IsCovered :
        (lost : List ℕ) (p : Epoller K) (e : EventBase)
        → ((kernel.ctl_mod p.table e.fd e.events).0 ≡ true) ⊎ (kernel.watches p.table e.fd ≡ false)
        → IsCovered lost p
        → IsCovered lost (mod_ kernel p e)
    unfolding mod_
    mod-IsCovered lost p e (inl success) c fd m w =
        mod-found lost p e fd m (λ failure. absurd (refused failure success)) c w
      where
        refused : {b : Bool} → b ≡ false → ¬ (b ≡ true)
        refused e h = cc
    mod-IsCovered lost p e (inr unwatched) c fd m w =
        mod-found lost p e fd m
          (λ failure same.
            refused (ap (kernel.watches p.table) same ∙ unwatched)
              (sym (law.mod_keeps p.table e.fd e.events fd) ∙ w))
          c w
      where
        refused : {b : Bool} → b ≡ false → ¬ (b ≡ true)
        refused e h = cc

    del-IsCovered :
        (lost : List ℕ) (p : Epoller K) (e : EventBase)
        → IsCovered lost p
        → IsCovered lost (del kernel p e)
    unfolding del
    del-IsCovered lost p e c fd m w =
        let h = law.del_removes p.table e.fd fd w in
        let f = c fd m h.0 in (f.0, erase_entry-other p.fd_2_eventbase_list e.fd fd h.1 ∙ f.1, f.2)

    Reach-IsCovered : {k : K} {lost : List ℕ} {p : Epoller K} → Reach k lost p → IsCovered lost p
    Reach-IsCovered (begin nothing) = λ fd m w. absurd (watched_none fd (nothing fd) w)
      where
        watched_none :
            {k : K} (fd : ℕ) → kernel.watches k fd ≡ false → ¬ (kernel.watches k fd ≡ true)
        watched_none fd e h = cc
    Reach-IsCovered (added {lost} {p} e r new) = add-IsCovered lost p e new (Reach-IsCovered r)
    Reach-IsCovered (added_again {lost} {p} e r old) =
        λ fd m w. add-found lost p e fd m.1 (λ h. m.0) (Reach-IsCovered r) w
    Reach-IsCovered (modified {lost} {p} e r well) = mod-IsCovered lost p e well (Reach-IsCovered r)
    Reach-IsCovered (not_modified {lost} {p} e r failure old) =
        λ fd m w. mod-found lost p e fd m.1 (λ h. m.0) (Reach-IsCovered r) w
    Reach-IsCovered (deleted {lost} {p} e r) = del-IsCovered lost p e (Reach-IsCovered r)
    Reach-IsCovered (shut {p = p} fd r) =
        λ other m w. Reach-IsCovered r other m (law.closed_removes p.table fd other w).0

  -- What `epoll_wait` reports: descriptors in the table; here none that is lost.
  abbrev pub AreWatched : List ℕ → K → List (ℕ × Events) → Type 0
  AreWatched lost k [] = Unit {0}
  AreWatched lost k ((fd, revents) ∷ active) =
      (kernel.watches k fd ≡ true) × IsNoneOf fd lost × AreWatched lost k active

-- The descriptor and the active events of each eventbase.
abbrev pub reported : List EventBase → List (ℕ × Events)
reported [] = []
reported (e ∷ es) = (e.fd, e.revents) ∷ reported es

module _ {ℓ} {K : Type ℓ} (kernel : EventTable K) where
  poll-found :
      (lost : List ℕ) (p : Epoller K)
      → IsCovered kernel lost p
      → (active : List (ℕ × Events)) → AreWatched kernel lost p.table active
      → (es : List EventBase) × (poll p.fd_2_eventbase_list active ≡ some es)
        × (reported es ≡ active)
  unfolding poll set_revents
  poll-found lost p c [] w = ([], refl, refl)
  poll-found lost p c ((fd, revents) ∷ active) w =
      let f = c fd w.1 w.0 in
      let rest = poll-found lost p c active w.2 in
      rw (f.1, rest.1, poll)
        (set_revents f.0 revents ∷ rest.0, refl, ap₂ (λ x y. (x, revents) ∷ y) f.2 rest.2)

-- Over any additions, changes, deletions and closings, whether they succeed or fail: whatever
-- descriptors in the table `epoll_wait` reports, but for those that were added while they were in the
-- table or whose change failed while they were there, Poll follows no null pointer and returns, in
-- order, the eventbases of just these descriptors, each with the events reported for it.
pub poll-reported {ℓ} :
    {K : Type ℓ} (kernel : EventTable K)
    → IsEventTable kernel
    → (k : K) (lost : List ℕ) (p : Epoller K) → Reach kernel k lost p
    → (active : List (ℕ × Events)) → AreWatched kernel lost p.table active
    → (es : List EventBase) × (poll p.fd_2_eventbase_list active ≡ some es) × (reported es ≡ active)
poll-reported kernel law k lost p r = poll-found kernel lost p (Reach-IsCovered kernel law r)
