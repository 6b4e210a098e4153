-- ===== src/Event/LoopChannels.antt =====
-- event/EventLoop.cpp: a loop's poller and its two channels of its own, from the constructor to the
-- destructor, and the calls that only its own thread may make. `none` is a failed assertion.
pub mod Setup
use knpnl.Prelude.{ℕ, Bool, true, false, ◌&&◌, Option, none, some, if◌then◌else◌, ◌==◌}
use knpnl.Event.Poller.{Events, Channel, Poller, add, delete, mod_events, find}
use knpnl.Event.Poller
use knpnl.Event.Channel.{enable_read, disable_all, remove}
use knpnl.Event.Channel

-- `mTreadId`, `mPoller`, `mTimerCh` and `mWakeupCh`.
pub record LoopChannels : Type 0 where
  pub thread_id : ℕ
  pub poller : Poller
  pub timer_ch : Channel
  pub wakeup_ch : Channel

-- What a channel or the poller gives, if the thread `tid` is the loop's.
abbrev in_loop {ℓ} : {A : Type ℓ} → ℕ → ℕ → Option A → Option A
in_loop tid own x = if own == tid then x else none

-- `AddChannel`, `DeleteChannel` and `ModChannel`, called from the thread `tid`.
unfoldable pub add_channel : ℕ → ℕ → Poller → Channel → Option Poller
add_channel tid own p ch = in_loop tid own (add p ch)

unfoldable pub delete_channel : ℕ → ℕ → Poller → Channel → Option Poller
delete_channel tid own p ch = in_loop tid own (delete p ch)

unfoldable pub mod_channel : ℕ → ℕ → Poller → Channel → Events → Option Poller
mod_channel tid own p ch op = in_loop tid own (mod_events p ch op)

-- `HasChannel`
unfoldable pub has_channel : Poller → Channel → Option Bool
has_channel p ch = find p ch

-- `new Channel(fd, this)`, `AddChannel` and `EnableRead`, in the thread that builds the loop.
unfoldable pub watch : ℕ → Poller → Channel → Option (Channel × Poller)
unfolding add_channel
watch tid p ch = elim (add_channel tid tid p ch) [ none ↦ none | some p' ↦ enable_read ch p' ]

-- The constructor, in the thread `tid`, for the descriptors that the kernel gives and for what the
-- memory of the channels holds.
unfoldable pub construct : ℕ → ℕ → ℕ → (ℕ → Events) → Option LoopChannels
unfolding watch
construct tid timer_fd wakeup_fd garbage =
    elim (watch tid Poller.new (Channel.new timer_fd (garbage 0) (garbage 1))) [
      | none ↦ none
      | some (timer, p) ↦ elim (watch tid p (Channel.new wakeup_fd (garbage 2) (garbage 3))) [
        | none ↦ none
        | some (wakeup, p') ↦
            some (record { thread_id = tid; poller = p'; timer_ch = timer; wakeup_ch = wakeup })
      ]
    ]

-- Two calls on the poller, one after the other.
abbrev both :
    (Channel → Poller → Option (Channel × Poller)) → Option LoopChannels → Option LoopChannels
both f none = none
both f (some l) = elim (f l.timer_ch l.poller) [
  | none ↦ none
  | some (timer, p) ↦ elim (f l.wakeup_ch p) [
    | none ↦ none
    | some (wakeup, p') ↦ some (record l { poller = p'; timer_ch = timer; wakeup_ch = wakeup })
  ]
]

-- The destructor, up to its `close`s.
unfoldable pub destruct : LoopChannels → Option LoopChannels
destruct l = both remove (both disable_all (some l))
