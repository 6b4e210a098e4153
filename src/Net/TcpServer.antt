-- ===== src/Net/TcpServer.antt =====
-- net/TcpServer.h and TcpServer.cpp: the connections of a server, in the thread of its own loop, and
-- what it asks of the loops of the connections. `none` is a failed assertion.
pub mod Handover
pub mod Destruction
pub mod Start
use knpnl.Prelude.{
  ℕ, Bool, true, false, Option, none, some, List, [], ◌∷◌, ◌++◌, if◌then◌else◌, ◌==◌,
}
use knpnl.Event.LoopThreadPool.{LoopThreadPool, get_next_loop}

-- What a loop is asked to run for a connection: `Established` by `RunInLoop`, `handleClose` and
-- `Destroy` by `QueueInLoop`.
pub data Duty : Type 0 where
  established handle_close destroy : Duty

-- The loop, by its place in the pool, the duty, and the connection.
pub record Request : Type 0 where
  pub loop : ℕ
  pub duty : Duty
  pub connection : ℕ

-- A `TcpConnPtr`: the object, its descriptor and its loop.
pub record TcpConnPtr : Type 0 where
  pub object : ℕ
  pub fd : ℕ
  pub io_loop : ℕ

-- `mThreadPool`, `connMap`, and what was asked of the loops so far.
pub record TcpServer : Type 0 where
  pub thread_pool : LoopThreadPool
  pub conn_map : ℕ → Option TcpConnPtr
  pub asked : List Request

abbrev pub update {ℓ} : {A : Type ℓ} → (ℕ → A) → ℕ → A → ℕ → A
update f k v j = if k == j then v else f j

abbrev pub ask : TcpServer → Duty → TcpConnPtr → TcpServer
ask s d c = record s {
  asked = s.asked ++ (record { loop = c.io_loop; duty = d; connection = c.object } ∷ []);
}

-- `newConnection(connfd, addr)`, for the object that `new TcpConnection` gives.
unfoldable pub new_connection : TcpServer → ℕ → ℕ → TcpServer × TcpConnPtr
unfolding get_next_loop
new_connection s object connfd =
    let (pool, i) = get_next_loop s.thread_pool in
    let conn : TcpConnPtr = record { object = object; fd = connfd; io_loop = i } in
    let kept = record s { thread_pool = pool; conn_map = update s.conn_map connfd (some conn) } in
    (ask kept established conn, conn)

-- `Close(conn)`
unfoldable pub close : TcpServer → TcpConnPtr → TcpServer
close s conn = elim (s.conn_map conn.fd) [ none ↦ s | some c ↦ ask s handle_close conn ]

-- `removeInLoop(conn)`, which `removeConnection` runs in the server's loop.
unfoldable pub remove_in_loop : TcpServer → TcpConnPtr → Option TcpServer
remove_in_loop s conn = elim (s.conn_map conn.fd) [
  | none ↦ none
  | some c ↦ some (ask (record s { conn_map = update s.conn_map conn.fd none }) destroy conn)
]

-- The loop of `~TcpServer()` over the descriptors of `connMap`, in the order of the map.
unfoldable pub destroy_all : List ℕ → TcpServer → TcpServer
destroy_all [] s = s
destroy_all (fd ∷ fds) s = elim (s.conn_map fd) [
  | none ↦ destroy_all fds s
  | some c ↦ destroy_all fds (ask s established c)
]
