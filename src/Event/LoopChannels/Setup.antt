-- ===== src/Event/LoopChannels/Setup.antt =====
-- event/EventLoop.cpp: what holds behind the constructor and behind the destructor.
use knpnl.Prelude.{ℕ, ◌≡◌, ◌≢◌, true, false, Option, none, some, arith}
use knpnl.Event.Poller.{Events, Channel, Poller, add, mod_events, delete}
use knpnl.Event.Poller
use knpnl.Event.Channel
use knpnl.Event.Channel.{enable_read, disable_all, remove}
use knpnl.Event.Channel.Interest.{IsSynced}
use knpnl.Event.LoopChannels.{LoopChannels, construct, destruct, watch, add_channel}

-- Both channels are watched, just for what they ask for.
pub record Watched (l : LoopChannels) (timer_fd wakeup_fd : ℕ) : Type 0 where
  pub timer_synced : IsSynced l.timer_ch l.poller
  pub wakeup_synced : IsSynced l.wakeup_ch l.poller
  pub timer_reads : l.timer_ch.events.readable ≡ true
  pub wakeup_reads : l.wakeup_ch.events.readable ≡ true

-- The poller is as it was before the loop's channels were added.
abbrev pub Emptied : Option LoopChannels → Type 0
Emptied none = ⊥
Emptied (some l) = (k : ℕ) → (l.poller.has k ≡ false) × (l.poller.interest k ≡ none)

abbrev pub Lives : ℕ → ℕ → Option LoopChannels → Type 0
Lives timer_fd wakeup_fd none = ⊥
Lives timer_fd wakeup_fd (some l) = Watched l timer_fd wakeup_fd × Emptied (destruct l)

-- A loop that is built on two different descriptors fails no assertion, has both channels watched for
-- reading, and its destructor, if it has no other channels, leaves the poller empty.
pub construct-Lives :
    (tid timer_fd wakeup_fd : ℕ) (garbage : ℕ → Events)
    → timer_fd ≢ wakeup_fd
    → Lives timer_fd wakeup_fd (construct tid timer_fd wakeup_fd garbage)
unfolding construct destruct watch add_channel add enable_read disable_all remove mod_events delete
    Poller.new Channel.new
construct-Lives tid timer_fd wakeup_fd garbage h = ground arith
