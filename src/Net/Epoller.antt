-- ===== src/Net/Epoller.antt =====
-- net/epoller.h and net/epoller.cpp: class Epoller. What the kernel keeps for an epoll descriptor is
-- a parameter: `epoll_ctl` answers whether it succeeds, and `epoll_wait` is what Poll is given.
pub mod Covers
use sinetlib.Base.{
  ℕ, Bool, true, false, not, Option, none, some, List, [], ◌∷◌, ◌++◌, ◌==◌, ◌≡◌, ◌≢◌, ◌⊎◌,
  if◌then◌else◌,
}
use sinetlib.Net.EventBase.{EventBase, Events, set_revents}

-- `std::map<int, std::shared_ptr<EventBase>>`: the eventbase behind a descriptor.
abbrev pub Registered : Type 0
Registered = ℕ → Option EventBase

unfoldable pub put_entry : Registered → EventBase → Registered
put_entry r e = λ fd. if fd == e.fd then some e else r fd

unfoldable pub erase_entry : Registered → ℕ → Registered
erase_entry r gone = λ fd. if fd == gone then none else r fd

-- The event table of the kernel: the descriptors in it, what `epoll_ctl` answers and leaves, and what
-- is left when a descriptor is closed.
pub record EventTable {ℓ} (K : Type ℓ) : Type ℓ where
  pub watches : K → ℕ → Bool
  pub ctl_add : K → ℕ → Events → Bool × K
  pub ctl_mod : K → ℕ → Events → Bool × K
  pub ctl_del : K → ℕ → Bool × K
  pub closed : K → ℕ → K

-- As its manual pages say: an addition fails for a descriptor that is in the table; an addition that
-- fails adds nothing; a change adds and removes nothing, and may fail; a deletion and a closing take
-- the descriptor out.
pub record IsEventTable {ℓ} {K : Type ℓ} (kernel : EventTable K) : Type ℓ where
  pub add_adds :
      (k : K) (fd : ℕ) (events : Events) (other : ℕ)
      → kernel.watches (kernel.ctl_add k fd events).1 other ≡ true
      → (kernel.watches k other ≡ true) ⊎ ((other ≡ fd) × ((kernel.ctl_add k fd events).0 ≡ true))
  pub add_refuses :
      (k : K) (fd : ℕ) (events : Events)
      → kernel.watches k fd ≡ true
      → (kernel.ctl_add k fd events).0 ≡ false
  pub mod_keeps :
      (k : K) (fd : ℕ) (events : Events) (other : ℕ)
      → kernel.watches (kernel.ctl_mod k fd events).1 other ≡ kernel.watches k other
  pub del_removes :
      (k : K) (fd other : ℕ)
      → kernel.watches (kernel.ctl_del k fd).1 other ≡ true
      → (kernel.watches k other ≡ true) × (other ≢ fd)
  pub closed_removes :
      (k : K) (fd other : ℕ)
      → kernel.watches (kernel.closed k fd) other ≡ true
      → (kernel.watches k other ≡ true) × (other ≢ fd)

-- The table of the kernel and the object's own map.
pub record Epoller {ℓ} (K : Type ℓ) : Type ℓ where
  pub table : K
  pub fd_2_eventbase_list : Registered

module _ {ℓ} {K : Type ℓ} (kernel : EventTable K) where
  unfoldable pub add : Epoller K → EventBase → Epoller K
  add p e =
      let map = put_entry p.fd_2_eventbase_list e in
      let (success, table) = kernel.ctl_add p.table e.fd e.events in
      record { table = table; fd_2_eventbase_list = if success then map else erase_entry map e.fd }

  unfoldable pub mod_ : Epoller K → EventBase → Epoller K
  mod_ p e =
      let (success, table) = kernel.ctl_mod p.table e.fd e.events in
      record {
        table = table;
        fd_2_eventbase_list =
            if success then p.fd_2_eventbase_list else erase_entry p.fd_2_eventbase_list e.fd;
      }

  unfoldable pub del : Epoller K → EventBase → Epoller K
  del p e =
      let (success, table) = kernel.ctl_del p.table e.fd in
      record { table = table; fd_2_eventbase_list = erase_entry p.fd_2_eventbase_list e.fd }

-- Poll over what `epoll_wait` has put into the list; `none` is a null pointer followed.
unfoldable pub poll : Registered → List (ℕ × Events) → Option (List EventBase)
poll r [] = some []
poll r ((fd, revents) ∷ active) =
    let later = poll r active in
    elim (r fd) [
      | none ↦ none
      | some e ↦ elim later [ none ↦ none | some es ↦ some (set_revents e revents ∷ es) ]
    ]
