-- ===== src/Seq/SubscribeData/Tests.antt =====
-- A run of src/seq/subscribe-data.c at concrete values.
use alsa_gobject.Base.{true, ◌≡◌, arith}
use alsa_gobject.Seq.Query.{SeqAddr, PortSubscribe}
use alsa_gobject.Seq.SubscribeData.{has_tstamp, set_property, real, get_properties}
use alsa_gobject.Seq.SubscribeData.Properties.{get_properties-set_property}

abbrev port : SeqAddr
port = record { client = 14; port = 0 }

-- An exclusive subscription in the mode of real time.
abbrev subscription : PortSubscribe
subscription = record { sender = port; dest = port; queue = 3; flags = 5 }

get_properties-set_property_example :
    get_properties (set_property subscription (has_tstamp true)) ≡ record {
      sender = port;
      destination = port;
      exclusive = true;
      tstamp = true;
      mode = real;
      queue = 3;
    }
unfolding get_properties
get_properties-set_property_example =
    get_properties-set_property subscription (has_tstamp true) (omega arith)
