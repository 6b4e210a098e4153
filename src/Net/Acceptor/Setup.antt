-- ===== src/Net/Acceptor/Setup.antt =====
-- net/Acceptor.cpp: the constructor, `Listen` and the destructor.
use knpnl.Prelude.{ℕ, ◌≡◌, true, false, Option, none, some, arith}
use knpnl.Event.Poller.{Events, Poller, add, mod_events, delete}
use knpnl.Event.Channel.{enable_read, disable_all, remove}
use knpnl.Event.Channel
use knpnl.Event.Channel.Interest.{IsSynced}
use knpnl.Net.Acceptor.{Acceptor, new, listen, destruct}

-- The poller is this one again.
abbrev pub Leaves : Poller → Option (Acceptor × Poller) → Type 0
Leaves p none = ⊥
Leaves p (some (a, q)) = (k : ℕ) → (q.has k ≡ p.has k) × (q.interest k ≡ p.interest k)

abbrev pub Listens : Poller → Option (Acceptor × Poller) → Type 0
Listens p none = ⊥
Listens p (some (a, q)) =
    IsSynced a.channel q
    × (a.channel.events.readable ≡ true)
    × (a.is_listening ≡ true)
    × Leaves p (destruct a q)

abbrev pub Stands : Poller → Option (Acceptor × Poller) → Type 0
Stands p none = ⊥
Stands p (some (a, q)) = Leaves p (destruct a q) × Listens p (listen true a q)

-- The constructor of an acceptor on a descriptor that the poller does not have, whose `bind` gives 0,
-- fails no assertion; `Listen` has the channel watched for reading; and the destructor, before or
-- behind a `Listen`, leaves the poller as it was before the constructor.
new-Stands :
    (p : Poller) (fd : ℕ) (garbage garbage' : Events)
    → p.has fd ≡ false
    → p.interest fd ≡ none
    → Stands p (new p fd true garbage garbage')
unfolding new listen destruct add enable_read disable_all remove mod_events delete Channel.new
new-Stands p fd garbage garbage' h i = ground arith
