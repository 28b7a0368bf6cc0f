-- ===== src/Net/Server/Placed.antt =====
-- net/server.cpp: where HandelNewConnection puts connections.
use sinetlib.Base.Int.{ℤ, pos}
use sinetlib.Base.{
  ℕ, suc, ◌<◌, ◌≡◌, ◌≢◌, refl, sym, ap, ◌∙◌, Option, none, some, List, [], ◌∷◌, map, length, arith,
}
use sinetlib.Net.Server.{
  Conn, Server, new_server, start_server, store, add_connection, handel_new_connection, accept_all,
}
use sinetlib.Net.ThreadPool.{ThreadPool, take_out_loop, take_out, in_turn, start-take_out}
use sinetlib.Util.{accept, connected}

abbrev pub IsNot : ℕ → List ℕ → Type 0
IsNot fd [] = Unit {0}
IsNot fd (x ∷ xs) = (fd ≢ x) × IsNot fd xs

abbrev pub AreDistinct : List ℕ → Type 0
AreDistinct [] = Unit {0}
AreDistinct (fd ∷ fds) = IsNot fd fds × AreDistinct fds

module _ {ℓ} {L : Type ℓ} where
  abbrev pub loops_of : List (Conn L) → List L
  loops_of [] = []
  loops_of (c ∷ cs) = c.io_loop ∷ loops_of cs

  abbrev pub fds_of : List (Conn L) → List ℤ
  fds_of [] = []
  fds_of (c ∷ cs) = c.conn_fd ∷ fds_of cs

  -- The map holds each of them.
  abbrev pub AreStored : Server L → List (Conn L) → Type ℓ
  AreStored s [] = Unit {ℓ}
  AreStored s (c ∷ cs) = (s.connection_map c.conn_fd ≡ some c) × AreStored s cs

  -- The connections that a run makes, on the loops that the pool hands out.
  pub record Places (s : Server L) (fds : List ℕ) (loops : List L) (u : Server L)
      (conns : List (Conn L)) : Type ℓ where
    pub placed : loops_of conns ≡ loops
    pub descriptors : fds_of conns ≡ map pos fds
    pub stored : AreDistinct fds → AreStored u conns
    pub others : (fd : ℕ) → IsNot fd fds → u.connection_map (pos fd) ≡ s.connection_map (pos fd)

  Placing : Server L → List ℕ → List L → Type ℓ
  Placing s fds loops =
      (u : Server L) × (conns : List (Conn L)) × (accept_all s fds ≡ some (u, conns))
      × Places s fds loops u conns

  store-same :
      (m : ℤ → Option (Conn L)) (c : Conn L) (fd : ℕ)
      → c.conn_fd ≡ pos fd
      → store m c (pos fd) ≡ some c
  unfolding store
  store-same m c fd e = rw e (ground arith)

  pub store-other :
      (m : ℤ → Option (Conn L)) (c : Conn L) (fd other : ℕ)
      → c.conn_fd ≡ pos fd
      → other ≢ fd
      → store m c (pos other) ≡ m (pos other)
  unfolding store
  store-other m c fd other e n = rw e (ground (arith, n))

  take_out-suc :
      (n : ℕ) (p : ThreadPool L) (loops : List L)
      → take_out (suc n) p ≡ some loops
      → (l : L) × (q : ThreadPool L) × (ls : List L) × (take_out_loop p ≡ some (l, q))
        × (take_out n q ≡ some ls)
        × (loops ≡ l ∷ ls)
  unfolding take_out
  take_out-suc n p loops e = first (take_out_loop p) refl e
    where
      Parts : Type ℓ
      Parts =
          (l : L) × (q : ThreadPool L) × (ls : List L) × (take_out_loop p ≡ some (l, q))
          × (take_out n q ≡ some ls)
          × (loops ≡ l ∷ ls)

      then_rest :
          (l : L) (q : ThreadPool L) (o : Option (List L))
          → take_out_loop p ≡ some (l, q)
          → take_out n q ≡ o
          → (elim o as (λ o. Option (List L)) [ none ↦ none | some loops ↦ some (l ∷ loops) ])
            ≡ some loops
          → Parts
      then_rest l q none e f g = absurd cc
      then_rest l q (some ls) e f g = (l, q, ls, e, f, cc)

      first :
          (o : Option (L × ThreadPool L))
          → take_out_loop p ≡ o
          → (elim o as (λ o. Option (List L)) [
            | none ↦ none
            | some r ↦ elim (take_out n r.1) [ none ↦ none | some loops ↦ some (r.0 ∷ loops) ]
          ])
            ≡ some loops
          → Parts
      first none e g = absurd cc
      first (some (l, q)) e g = then_rest l q (take_out n q) e refl g

  abbrev conn_of : ℕ → L → Conn L
  conn_of fd l = record { conn_fd = pos fd; io_loop = l }

  added : Server L → ℕ → L → ThreadPool L → Server L
  added s fd l q = record {
    thread_pool = q;
    connection_map = store s.connection_map (conn_of fd l);
  }

  handel_new_connection-some :
      (s : Server L) (fd : ℕ) (l : L) (q : ThreadPool L)
      → take_out_loop s.thread_pool ≡ some (l, q)
      → handel_new_connection s (connected fd) ≡ some (added s fd l q, conn_of fd l)
  unfolding handel_new_connection accept add_connection added
  handel_new_connection-some s fd l q e = rw (e, add_connection) refl

  accept_all-cons :
      (s t u : Server L) (fd : ℕ) (fds : List ℕ) (c : Conn L) (cs : List (Conn L))
      → handel_new_connection s (connected fd) ≡ some (t, c)
      → accept_all t fds ≡ some (u, cs)
      → accept_all s (fd ∷ fds) ≡ some (u, c ∷ cs)
  unfolding accept_all
  accept_all-cons s t u fd fds c cs e f = rw (e, accept_all) (rw f refl)

  place-all :
      (fds : List ℕ) (s : Server L) (loops : List L)
      → take_out (length fds) s.thread_pool ≡ some loops
      → Placing s fds loops
  unfolding Placing accept_all take_out
  place-all [] s loops e = (
    s,
    [],
    refl,
    record { placed = empty e; descriptors = refl; stored = λ d. tt; others = λ fd n. refl },
  )
    where
      empty : {loops : List L} → some [] ≡ some loops → [] ≡ loops
      empty e = cc
  place-all (fd ∷ fds) s loops e =
      let t = take_out-suc (length fds) s.thread_pool loops e in
      let c = conn_of fd t.0 in
      let rest = place-all fds (added s fd t.0 t.1) t.2 (unfold added in t.4) in
      let p = rest.3 in
      (
        rest.0,
        c ∷ rest.1,
        accept_all-cons s (added s fd t.0 t.1) rest.0 fd fds c rest.1
            (handel_new_connection-some s fd t.0 t.1 t.3) rest.2,
        record {
          placed = ap (◌∷◌ t.0) p.placed ∙ sym t.5;
          descriptors = ap (◌∷◌ (pos fd)) p.descriptors;
          stored = λ d. (
            p.others fd d.0 ∙ unfold added in store-same s.connection_map c fd refl,
            p.stored d.1,
          );
          others = λ other n.
              p.others other n.1 ∙ unfold added in store-other s.connection_map c fd other refl n.0;
        },
      )

-- A started server with n > 0 threads accepts any number of connections: the i-th of them is
-- registered on the loop of thread i mod n; each has the descriptor that `accept4` returned; if the
-- descriptors are different, the map holds every one of them; and no other entry changes.
pub accept_all-Places {ℓ} :
    {L : Type ℓ} (get_loop : ℕ → L) (base : L) (n : ℕ) (fds : List ℕ)
    → 0 < n
    → let s = start_server get_loop (new_server base n) in
      (u : Server L) × (conns : List (Conn L)) × (accept_all s fds ≡ some (u, conns))
      × Places s fds (in_turn get_loop n 0 (length fds)) u conns
unfolding start_server new_server Placing
accept_all-Places get_loop base n fds h =
    place-all fds (start_server get_loop (new_server base n)) (in_turn get_loop n 0 (length fds))
      (start-take_out get_loop base n (length fds) h)
