-- ===== src/Net/Socket/Reuse.antt =====
-- net/Socket.cpp: the two options on the reuse of an address.
use knpnl.Prelude.{◌≡◌, refl, Bool}
use knpnl.Net.Socket.{Socket, set_reuse_port, set_reuse_addr}

-- `setReusePort` and `setReuseAddr` make the same call, whatever they are asked for: the option is
-- switched on, and it is SO_REUSEADDR.
pub reuse_same : (s : Socket) (on on' : Bool) → set_reuse_port s on ≡ set_reuse_addr s on'
unfolding set_reuse_port set_reuse_addr
reuse_same s on on' = refl
