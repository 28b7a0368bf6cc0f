-- ===== src/Net/Server/Life.antt =====
-- net/server.cpp: connections that are accepted, closed and removed, as a relation of steps.
use sinetlib.Base.Int.{ℤ, pos}
use sinetlib.Base.{
  ℕ, ◌+◌, ◌≡◌, ◌≢◌, refl, inl, inr, Bool, true, false, Bool-cases, none, some, List, [], ◌∷◌, ◌++◌,
  ◌==◌, if◌then◌else◌, arith,
}
use sinetlib.Net.Server.{Conn, Server, add_connection, remove_connection}

-- Every connection has a number; `number` is that of the connection stored last under a descriptor,
-- `asked` whether a connection has called RemoveConnection4CloseCB, and `removals` the tasks of
-- RemoveConnection in the queue of the base loop, each with the number of the connection that asked.
pub record Life {ℓ} (L : Type ℓ) : Type ℓ where
  pub server : Server L
  pub next : ℕ
  pub number : ℕ → ℕ
  pub asked : ℕ → Bool
  pub removals : List (ℕ × ℕ)

abbrev pub updated {ℓ} : {A : Type ℓ} → (ℕ → A) → ℕ → A → ℕ → A
updated f at a = λ i. if i == at then a else f i

pub updated-other {ℓ} :
    {A : Type ℓ} (f : ℕ → A) (at i : ℕ) (a : A) → i ≢ at → updated f at a i ≡ f i
updated-other f at i a n = rw miss refl
  where
    miss : (i == at) ≡ false
    miss = ground (arith, n)

pub updated-same {ℓ} : {A : Type ℓ} (f : ℕ → A) (at : ℕ) (a : A) → updated f at a at ≡ a
updated-same f at a = rw hit refl
  where
    hit : (at == at) ≡ true
    hit = ground arith

pub updated-true : (f : ℕ → Bool) (at i : ℕ) → f i ≡ true → updated f at true i ≡ true
updated-true f at i h = elim (Bool-cases (i == at)) [ inl hit ↦ rw hit refl | inr miss ↦ rw miss h ]

module _ {ℓ} {L : Type ℓ} where
  -- A connection is accepted under a descriptor that is not open: the map keeps a connection alive,
  -- and only its destructor closes its descriptor.
  abbrev pub accepted : Life L → ℕ → Server L → Life L
  accepted s fd server = record s {
    server = server;
    next = s.next + 1;
    number = updated s.number fd s.next;
  }

  -- HandleClose of the connection under a descriptor, which it calls once.
  abbrev pub asked_for : Life L → ℕ → Life L
  asked_for s fd = record s {
    asked = updated s.asked (s.number fd) true;
    removals = (fd, s.number fd) ∷ s.removals;
  }

  -- The base loop runs a task.
  abbrev pub removed : Life L → ℕ → List (ℕ × ℕ) → Life L
  removed s fd rest = record s { server = remove_connection s.server (pos fd); removals = rest }

  pub data LifeStep : Life L → Life L → Type ℓ where
    accepts :
        (s : Life L) (fd : ℕ) (server : Server L) (conn : Conn L)
        → s.server.connection_map (pos fd) ≡ none
        → add_connection s.server (pos fd) ≡ some (server, conn)
        → LifeStep s (accepted s fd server)
    asks :
        (s : Life L) (fd : ℕ) (conn : Conn L)
        → s.server.connection_map (pos fd) ≡ some conn
        → s.asked (s.number fd) ≡ false
        → LifeStep s (asked_for s fd)
    removes :
        (s : Life L) (before : List (ℕ × ℕ)) (fd n : ℕ) (behind : List (ℕ × ℕ))
        → s.removals ≡ before ++ (fd, n) ∷ behind
        → LifeStep s (removed s fd (before ++ behind))

  pub data Lives (server : Server L) : Life L → Type ℓ where
    begin :
        ((fd : ℤ) → server.connection_map fd ≡ none)
        → Lives server (record {
          server = server;
          next = 0;
          number = λ fd. 0;
          asked = λ n. false;
          removals = [];
        })
    then_step : {s t : Life L} → Lives server s → LifeStep s t → Lives server t

  -- The connection that asked is the one in the map.
  pub record IsDue (s : Life L) (fd n : ℕ) : Type ℓ where
    pub there : (conn : Conn L) × (s.server.connection_map (pos fd) ≡ some conn)
    pub same : s.number fd ≡ n
    pub did_ask : s.asked n ≡ true
