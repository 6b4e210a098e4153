-- ===== src/Event/Tests.antt =====
-- The theorems about channels at concrete inputs.
use knpnl.Prelude.{◌≡◌, refl, true, false, some, if◌then◌else◌, ◌==◌}
use knpnl.Event.Poller.{Poller, Channel, Events, none_event}
use knpnl.Event.Channel.{
  read_event, write_event, enable_read, disable_read, enable_write, disable_write, disable_all,
}
use knpnl.Event.Channel.Interest.{Syncs, calls-Syncs, write_cycle_deaf}

abbrev channel : Channel
channel = record {
  fd = 4;
  events = read_event;
  received = none_event;
  is_handling = false;
  is_in_loop = true;
}

abbrev poller : Poller
poller = record { has = λ fd. true; interest = λ fd. some read_event; list_size = 1000 }

calls-Syncs_example :
    Syncs (enable_read channel poller)
    × Syncs (disable_read channel poller)
    × Syncs (enable_write channel poller)
    × Syncs (disable_write channel poller)
    × Syncs (disable_all channel poller)
calls-Syncs_example = calls-Syncs channel poller refl

abbrev asking : Poller → Events → Poller
asking p e = record p { interest = λ j. if 4 == j then some e else p.interest j }

abbrev deaf : Events
deaf = record none_event { edge = true }

abbrev cycled : Poller
cycled = asking (asking poller write_event) deaf

write_cycle_deaf_example : (cycled.interest 4 ≡ some deaf) × (deaf.readable ≡ false)
unfolding enable_write disable_write
write_cycle_deaf_example =
    write_cycle_deaf channel poller {c1 = record channel { events = write_event }}
      {c2 = record channel { events = deaf }} {p1 = asking poller write_event} {p2 = cycled} refl
      refl
