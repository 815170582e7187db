-- ===== src/Relay/Tests.antt =====
-- A relay whose first connection is made, and one whose first connection is refused.
use testbench.Common.{refl, [], ◌∷◌, some}
use testbench.Relay.Channel.{
  Relay, initial, get_channel, pending, fulfilled, Steps, here, then_step, asked, connected,
}
use testbench.Relay.Refused.{IsCoherent, Steps-IsCoherent, IsStuck, refused_once, refused-IsStuck}

abbrev asked_once : Relay
asked_once = record {
  connection_promise = some 0;
  channel_promise = some 0;
  connections = pending ∷ [];
  channels = record { parent = 0; phase = pending } ∷ [];
}

ask_once : Steps initial asked_once
unfolding get_channel
ask_once = then_step here asked

abbrev made_once : Relay
made_once = record asked_once { connections = fulfilled ∷ [] }

make_once : Steps initial made_once
make_once = then_step ask_once (connected 0 refl)

ask_refused : Steps refused_once refused_once
unfolding get_channel
ask_refused = then_step here asked

Steps-IsCoherent_example : IsCoherent made_once
Steps-IsCoherent_example = Steps-IsCoherent make_once

refused-IsStuck_example : IsStuck refused_once
refused-IsStuck_example = refused-IsStuck ask_refused
