-- ===== src/Seq/PortInfo/Tests.antt =====
-- A run of src/seq/port-info.c at concrete values.
use alsa_gobject.Base.{true, [], ◌∷◌, ◌≡◌, arith}
use alsa_gobject.Seq.SubscribeData.{real}
use alsa_gobject.Seq.PortInfo.{PortInfo, tstamp_overwrite, set_property, get_properties}
use alsa_gobject.Seq.PortInfo.Properties.{get_port-set_property}

-- The flags have the bits for a given port and for real time, not that for the overwriting of time
-- stamps.
abbrev through : PortInfo
through = record {
  addr = record { client = 14; port = 0 };
  name = 116 ∷ (104 ∷ []);
  capability = 99;
  port_type = 2;
  midi_channels = 16;
  midi_voices = 0;
  synth_voices = 0;
  read_use = 1;
  write_use = 1;
  flags = 5;
  time_queue = 4;
}

get_port-set_property_example :
    get_properties (set_property through (tstamp_overwrite true)) ≡ record {
      addr = record { client = 14; port = 0 };
      name = 116 ∷ (104 ∷ []);
      caps = 99;
      attrs = 2;
      midi_channels = 16;
      midi_voices = 0;
      synth_voices = 0;
      read_users = 1;
      write_users = 1;
      overwrite = true;
      mode = real;
      queue = 4;
    }
unfolding get_properties
get_port-set_property_example = get_port-set_property through (tstamp_overwrite true) (omega arith)
