-- ===== src/Net/Server.antt =====
-- net/server.h and net/server.cpp: class Server. A loop is any value; what `accept4` returned is an
-- argument. Of a Connection the server's own code reads the descriptor and the loop.
pub mod Placed
pub mod Life
pub mod Removal
use sinetlib.Base.Int.{ℤ, pos, negsuc}
use sinetlib.Base.{ℕ, Bool, true, false, Option, none, some, List, [], ◌∷◌, ◌==◌, if◌then◌else◌}
use sinetlib.Net.ThreadPool.{ThreadPool, new_pool, start, take_out_loop}
use sinetlib.Util.{Accept4, connected, Accepted, descriptor, minus_one, aborted, accept}

abbrev pub same_fd : ℤ → ℤ → Bool
same_fd (pos a) (pos b) = a == b
same_fd (negsuc a) (negsuc b) = a == b
same_fd _ _ = false

-- A connection: its descriptor and the loop that it was given.
pub record Conn {ℓ} (L : Type ℓ) : Type ℓ where
  pub conn_fd : ℤ
  pub io_loop : L

pub record Server {ℓ} (L : Type ℓ) : Type ℓ where
  pub thread_pool : ThreadPool L
  pub connection_map : ℤ → Option (Conn L)

module _ {ℓ} {L : Type ℓ} where
  -- The constructor.
  unfoldable pub new_server : L → ℕ → Server L
  new_server loop thread_num = record {
    thread_pool = new_pool loop thread_num;
    connection_map = λ fd. none;
  }

  -- Start; the threads' loops are an argument.
  unfoldable pub start_server : (ℕ → L) → Server L → Server L
  start_server get_loop s = record s { thread_pool = start get_loop s.thread_pool }

  -- `connection_map_[conn_fd] = conn`.
  unfoldable pub store : (ℤ → Option (Conn L)) → Conn L → ℤ → Option (Conn L)
  store map conn = λ fd. if same_fd fd conn.conn_fd then some conn else map fd

  -- HandelNewConnection behind Accept: the connection is given a loop, stored, and registered on the
  -- loop, whatever the descriptor is; `none` is a read past the end of the pool's loops.
  unfoldable pub add_connection : Server L → ℤ → Option (Server L × Conn L)
  add_connection s conn_fd = elim (take_out_loop s.thread_pool) [
    | none ↦ none
    | some (io_loop, pool) ↦
        let conn : Conn L = record { conn_fd = conn_fd; io_loop = io_loop } in
        some (record { thread_pool = pool; connection_map = store s.connection_map conn }, conn)
  ]

  -- HandelNewConnection; `none` is also a fatal error of `accept4`, which ends the program.
  unfoldable pub handel_new_connection : Server L → Accept4 → Option (Server L × Conn L)
  handel_new_connection s answer = elim (accept answer) [
    | descriptor fd ↦ add_connection s (pos fd)
    | minus_one ↦ add_connection s (negsuc 0)
    | aborted ↦ none
  ]

  -- RemoveConnection.
  unfoldable pub remove_connection : Server L → ℤ → Server L
  remove_connection s gone = record s {
    connection_map = λ fd. if same_fd fd gone then none else s.connection_map fd;
  }

  -- New connections in a row, and what was registered, the first first.
  unfoldable pub accept_all : Server L → List ℕ → Option (Server L × List (Conn L))
  accept_all s [] = some (s, [])
  accept_all s (fd ∷ fds) = elim (handel_new_connection s (connected fd)) [
    | none ↦ none
    | some (t, conn) ↦ elim (accept_all t fds) [
      | none ↦ none
      | some (u, conns) ↦ some (u, conn ∷ conns)
    ]
  ]
