-- ===== src/Net/TcpServer/Handover.antt =====
-- A connection's way through the server.
use mathlib.Core.List.{append_assoc}
use knpnl.Prelude.{ℕ, ◌≡◌, refl, Option, none, some, List, [], ◌∷◌, ◌++◌, arith}
use knpnl.Net.TcpServer.{
  TcpServer, TcpConnPtr, Request, established, handle_close, destroy, new_connection, close,
  remove_in_loop, update, ask,
}

-- What a connection's loop is asked, from its beginning to its end.
abbrev pub life : TcpConnPtr → List Request
life c =
    record { loop = c.io_loop; duty = established; connection = c.object }
    ∷ record { loop = c.io_loop; duty = handle_close; connection = c.object }
    ∷ record { loop = c.io_loop; duty = destroy; connection = c.object }
    ∷ []

update_self : (f : ℕ → Option TcpConnPtr) (k : ℕ) (v : Option TcpConnPtr) → update f k v k ≡ v
update_self f k v = ground arith

close_asks :
    (s : TcpServer) (conn : TcpConnPtr) {c : TcpConnPtr}
    → s.conn_map conn.fd ≡ some c
    → close s conn ≡ ask s handle_close conn
unfolding close
close_asks s conn h = rw (close, h) refl

close_unknown : (s : TcpServer) (conn : TcpConnPtr) → s.conn_map conn.fd ≡ none → close s conn ≡ s
unfolding close
close_unknown s conn h = rw (close, h) refl

-- The server without the connection.
abbrev pub without : TcpServer → TcpConnPtr → TcpServer
without s conn = ask (record s { conn_map = update s.conn_map conn.fd none }) destroy conn

pub remove_in_loop_asks :
    (s : TcpServer) (conn : TcpConnPtr) {c : TcpConnPtr}
    → s.conn_map conn.fd ≡ some c
    → remove_in_loop s conn ≡ some (without s conn)
unfolding remove_in_loop
remove_in_loop_asks s conn h = rw (remove_in_loop, h) refl

remove_in_loop_unknown :
    (s : TcpServer) (conn : TcpConnPtr) → s.conn_map conn.fd ≡ none → remove_in_loop s conn ≡ none
unfolding remove_in_loop
remove_in_loop_unknown s conn h = rw (remove_in_loop, h) refl

-- For a descriptor that the server does not have: a new connection is in its map; where it is
-- then closed and removed, its loop has been asked for `Established`, `handleClose` and
-- `Destroy`, in this order, and the map is as before; a second removal fails its assertion, and a
-- second `Close` changes nothing.
pub new_connection-remove_in_loop :
    (s : TcpServer) (object fd : ℕ)
    → s.conn_map fd ≡ none
    → let (s', conn) = new_connection s object fd in
      (s'.conn_map fd ≡ some conn)
      × ((s'' : TcpServer) × (remove_in_loop (close s' conn) conn ≡ some s'')
          × (s''.asked ≡ s.asked ++ life conn)
          × ((j : ℕ) → s''.conn_map j ≡ s.conn_map j)
          × (remove_in_loop s'' conn ≡ none)
          × (close s'' conn ≡ s''))
unfolding new_connection
new_connection-remove_in_loop s object fd h =
    let (s', conn) = new_connection s object fd in
    let entered : s'.conn_map conn.fd ≡ some conn = update_self s.conn_map fd (some conn) in
    let closing = ask s' handle_close conn in
    let gone : (without closing conn).conn_map conn.fd ≡ none =
      update_self closing.conn_map fd none in
    (
      entered,
      (
        without closing conn,
        rw (close_asks s' conn entered) (remove_in_loop_asks closing conn entered),
        rw (append_assoc, append_assoc) refl,
        (λ j. grind arith),
        remove_in_loop_unknown (without closing conn) conn gone,
        close_unknown (without closing conn) conn gone,
      ),
    )
