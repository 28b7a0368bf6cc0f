-- ===== src/Net/Server/Removal.antt =====
-- net/server.cpp: RemoveConnection4CloseCB and RemoveConnection, with the tasks between them.
use sinetlib.Base.Int.{pos}
use sinetlib.Base.{
  ℕ, ◌≡◌, ◌≢◌, refl, sym, ap, ◌∙◌, subst, true, false, Option, none, some, List, [], ◌∷◌, ◌++◌,
  ◌==◌, arith,
}
use sinetlib.Net.Server.{Conn, Server, store, add_connection, remove_connection}
use sinetlib.Net.ThreadPool.{ThreadPool, take_out_loop}
use sinetlib.Net.Server.Placed.{IsNot, store-other}
use sinetlib.Net.Server.Life.{
  Life, updated-other, updated-same, updated-true, accepted, asked_for, removed, LifeStep, accepts,
  asks, removes, Lives, begin, then_step, IsDue,
}

abbrev fds_of : List (ℕ × ℕ) → List ℕ
fds_of [] = []
fds_of ((fd, n) ∷ rest) = fd ∷ fds_of rest

IsNot-split :
    (fd x n : ℕ) (before behind : List (ℕ × ℕ))
    → IsNot fd (fds_of (before ++ (x, n) ∷ behind))
    → (fd ≢ x) × IsNot fd (fds_of (before ++ behind))
IsNot-split fd x n [] behind h = h
IsNot-split fd x n ((y, m) ∷ before) behind h =
    let r = IsNot-split fd x n before behind h.1 in (r.0, (h.0, r.1))

module _ {ℓ} {L : Type ℓ} where
  abbrev AreDue : Life L → List (ℕ × ℕ) → Type ℓ
  AreDue s [] = Unit {ℓ}
  AreDue s ((fd, n) ∷ rest) = IsDue s fd n × IsNot fd (fds_of rest) × AreDue s rest

  AreDue-split :
      (s : Life L) (fd n : ℕ) (before behind : List (ℕ × ℕ))
      → AreDue s (before ++ (fd, n) ∷ behind)
      → IsDue s fd n × IsNot fd (fds_of (before ++ behind)) × AreDue s (before ++ behind)
  AreDue-split s fd n [] behind h = h
  AreDue-split s fd n ((y, m) ∷ before) behind h =
      let r = AreDue-split s fd n before behind h.2 in
      let k = IsNot-split y fd n before behind h.1 in
      (r.0, (λ e. k.0 (sym e), r.1), (h.0, k.1, r.2))

  -- What is due in one state is due in another in which it is kept.
  AreDue-kept :
      (s t : Life L) (removals : List (ℕ × ℕ))
      → ((fd n : ℕ) → IsDue s fd n → IsDue t fd n)
      → AreDue s removals
      → AreDue t removals
  AreDue-kept s t [] k h = h
  AreDue-kept s t ((fd, n) ∷ rest) k h = (k fd n h.0, h.1, AreDue-kept s t rest k h.2)

  AreDue-other :
      (s t : Life L) (gone : ℕ) (removals : List (ℕ × ℕ))
      → ((fd n : ℕ) → fd ≢ gone → IsDue s fd n → IsDue t fd n)
      → IsNot gone (fds_of removals)
      → AreDue s removals
      → AreDue t removals
  AreDue-other s t gone [] k m h = h
  AreDue-other s t gone ((fd, n) ∷ rest) k m h =
      (k fd n (λ e. m.0 (sym e)) h.0, h.1, AreDue-other s t gone rest k m.1 h.2)

  -- A connection that has not asked has no task.
  IsNot-due :
      (s : Life L) (fd : ℕ) (removals : List (ℕ × ℕ))
      → s.asked (s.number fd) ≡ false
      → AreDue s removals
      → IsNot fd (fds_of removals)
  IsNot-due s fd [] f h = tt
  IsNot-due s fd ((x, n) ∷ rest) f h = (
    (λ e. refused (sym f ∙ ap s.asked (ap s.number e ∙ h.0.same) ∙ h.0.did_ask)),
    IsNot-due s fd rest f h.2,
  )
    where
      refused : ¬ (false ≡ true)
      refused e = cc

  add_connection-stores :
      (s u : Server L) (fd : ℕ) (c : Conn L)
      → add_connection s (pos fd) ≡ some (u, c)
      → (u.connection_map ≡ store s.connection_map c) × (c.conn_fd ≡ pos fd)
  unfolding add_connection
  add_connection-stores s u fd c e = from (take_out_loop s.thread_pool) e
    where
      from :
          (o : Option (L × ThreadPool L))
          → (elim o as (λ o. Option (Server L × Conn L)) [
            | none ↦ none
            | some r ↦ some (
              record {
                thread_pool = r.1;
                connection_map =
                    store s.connection_map (record { conn_fd = pos fd; io_loop = r.0 });
              },
              record { conn_fd = pos fd; io_loop = r.0 },
            )
          ])
            ≡ some (u, c)
          → (u.connection_map ≡ store s.connection_map c) × (c.conn_fd ≡ pos fd)
      from none e = absurd cc
      from (some (l, q)) e =
          let same_conn : record { conn_fd = pos fd; io_loop = l } ≡ c = cc in
          let same_server : record {
            thread_pool = q;
            connection_map = store s.connection_map (record { conn_fd = pos fd; io_loop = l });
          }
              ≡ u =
            cc in
          (
            sym (ap Server.connection_map same_server) ∙ ap (store s.connection_map) same_conn,
            sym (ap Conn.conn_fd same_conn),
          )

  remove_connection-other :
      (s : Server L) (gone fd : ℕ)
      → fd ≢ gone
      → (remove_connection s (pos gone)).connection_map (pos fd) ≡ s.connection_map (pos fd)
  unfolding remove_connection
  remove_connection-other s gone fd n = rw miss refl
    where
      miss : (fd == gone) ≡ false
      miss = ground (arith, n)

  remove_connection-gone :
      (s : Server L) (gone : ℕ) → (remove_connection s (pos gone)).connection_map (pos gone) ≡ none
  unfolding remove_connection
  remove_connection-gone s gone = rw hit refl
    where
      hit : (gone == gone) ≡ true
      hit = ground arith

  LifeStep-AreDue : {s t : Life L} → LifeStep s t → AreDue s s.removals → AreDue t t.removals
  LifeStep-AreDue (accepts s fd server conn free e) h =
      let m = add_connection-stores s.server server fd conn e in
      AreDue-kept s (accepted s fd server) s.removals
        (λ x n d.
          let other : x ≢ fd =
            (λ eq. taken (sym (ap (λ y. s.server.connection_map (pos y)) eq ∙ free) ∙ d.there.1)) in
          record {
            there = (
              d.there.0,
              ap (λ f. f (pos x)) m.0
                  ∙ store-other s.server.connection_map conn fd x m.1 other
                  ∙ d.there.1,
            );
            same = updated-other s.number fd x s.next other ∙ d.same;
            did_ask = d.did_ask;
          })
        h
    where
      taken : {c : Conn L} → ¬ (none ≡ some c)
      taken e = cc
  LifeStep-AreDue (asks s fd conn e f) h = (
    record { there = (conn, e); same = refl; did_ask = updated-same s.asked (s.number fd) true },
    IsNot-due s fd s.removals f h,
    AreDue-kept s (asked_for s fd) s.removals
        (λ x n d. record {
          there = d.there;
          same = d.same;
          did_ask = updated-true s.asked (s.number fd) n d.did_ask;
        })
        h,
  )
  LifeStep-AreDue (removes s before fd n behind e) h =
      let r = AreDue-split s fd n before behind (subst (AreDue s) e h) in
      AreDue-other s (removed s fd (before ++ behind)) fd (before ++ behind)
        (λ x m other d. record {
          there = (d.there.0, remove_connection-other s.server fd x other ∙ d.there.1);
          same = d.same;
          did_ask = d.did_ask;
        })
        r.1 r.2

  Lives-AreDue : {server : Server L} {s : Life L} → Lives server s → AreDue s s.removals
  Lives-AreDue (begin empty) = tt
  Lives-AreDue (then_step l st) = LifeStep-AreDue st (Lives-AreDue l)

-- Connections are accepted under descriptors that are not open, call HandleClose once each, and the
-- base loop runs the tasks in any order. Then whenever it can run a task of RemoveConnection, the
-- connection that the map has under the descriptor is the one that asked for it, never one that was
-- accepted later under the same number; and running the task erases this entry and no other.
pub Lives-removes {ℓ} :
    {L : Type ℓ} {server : Server L} {s : Life L}
    → Lives server s
    → (before : List (ℕ × ℕ)) (fd n : ℕ) (behind : List (ℕ × ℕ))
    → s.removals ≡ before ++ (fd, n) ∷ behind
    → IsDue s fd n
      × ((remove_connection s.server (pos fd)).connection_map (pos fd) ≡ none)
      × ((other : ℕ)
          → other ≢ fd
          → (remove_connection s.server (pos fd)).connection_map (pos other)
            ≡ s.server.connection_map (pos other))
Lives-removes {s = s} l before fd n behind e = (
  (AreDue-split s fd n before behind (subst (AreDue s) e (Lives-AreDue l))).0,
  remove_connection-gone s.server fd,
  λ other m. remove_connection-other s.server fd other m,
)
