-- ===== src/Event/Channel/Interest.antt =====
-- What a channel can be told by the poller after its calls.
use knpnl.Prelude.{◌≡◌, ◌≢◌, true, false, Option, none, some, arith}
use knpnl.Event.Poller.{none_event, is_none, Channel, Poller}
use knpnl.Event.Channel.{
  enable_read, disable_read, enable_write, disable_write, disable_all, remove,
}

-- `epoll` watches the descriptor for just the events in `mEvent`.
pub record IsSynced (c : Channel) (p : Poller) : Type 0 where
  pub known : p.has c.fd ≡ true
  pub same : p.interest c.fd ≡ some c.events

-- A channel that the poller has can make each of its five calls, and afterwards `epoll` watches
-- just the events in its `mEvent`.
abbrev pub Syncs : Option (Channel × Poller) → Type 0
Syncs none = ⊥
Syncs (some (c, p)) = IsSynced c p

-- A channel that the poller has can make each of its five calls, and afterwards `epoll` watches
-- just the events in its `mEvent`.
pub calls-Syncs :
    (c : Channel) (p : Poller)
    → p.has c.fd ≡ true
    → Syncs (enable_read c p)
      × Syncs (disable_read c p)
      × Syncs (enable_write c p)
      × Syncs (disable_write c p)
      × Syncs (disable_all c p)
unfolding enable_read disable_read enable_write disable_write disable_all
calls-Syncs c p h = ground arith

-- After a write that had to wait, the channel is deaf: `EnableWrite` and then `DisableWrite`
-- leave `epoll` watching neither for input nor for room, whatever was asked for before.
pub write_cycle_deaf :
    (c : Channel) (p : Poller) {c1 c2 : Channel} {p1 p2 : Poller}
    → enable_write c p ≡ some (c1, p1)
    → disable_write c1 p1 ≡ some (c2, p2)
    → (p2.interest c.fd ≡ some (record none_event { edge = true })) × (c2.events.readable ≡ false)
unfolding enable_write disable_write
write_cycle_deaf c p e f = ground arith

-- The way out of the loop for a channel that is not handling an event: `Remove` fails its
-- assertion while the channel still asks for events; after a `DisableAll` it succeeds, and the
-- poller then knows nothing of the descriptor.
pub disable_all-remove :
    (c : Channel) (p : Poller) {c1 : Channel} {p1 : Poller}
    → c.is_handling ≡ false
    → is_none c.events ≡ false
    → disable_all c p ≡ some (c1, p1)
    → (remove c p ≡ none)
      × (remove c1 p1 ≢ none)
      × ((c2 : Channel) (p2 : Poller)
          → remove c1 p1 ≡ some (c2, p2)
          → (p2.has c.fd ≡ false) × (p2.interest c.fd ≡ none) × (c2.is_in_loop ≡ false))
unfolding remove disable_all
disable_all-remove c p h k e = (ground arith, ground arith, λ c2 p2 f. ground arith)
