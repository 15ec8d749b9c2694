-- ===== src/Seq/ClientInfo/Tests.antt =====
-- Runs of src/seq/client-info.c at concrete values.
use alsa_gobject.Base.{ℕ, ◌^◌, false, List, [], ◌∷◌, replicate, ◌≡◌, refl, arith}
use alsa_gobject.Seq.ClientInfo.{
  ClientInfo, set_event_filter, get_event_filter, filter_attributes, use_filter, set_property,
  get_filter_attributes, get_use_filter,
}
use alsa_gobject.Seq.ClientInfo.Filter.{get_event_filter-set_event_filter}
use alsa_gobject.Seq.ClientInfo.Attributes.{get_filter_attributes-set_property}

abbrev info : ClientInfo
info = record {
  client = 128;
  client_type = 1;
  name = [];
  filter = 2 ^ 31;
  event_filter = replicate 32 255;
  num_ports = 0;
  event_lost = 0;
}

abbrev types : List ℕ
types = 60 ∷ (6 ∷ (300 ∷ (6 ∷ [])))

get_event_filter-set_event_filter_example :
    get_event_filter (set_event_filter info types) ≡ 6 ∷ (60 ∷ [])
get_event_filter-set_event_filter_example = get_event_filter-set_event_filter info types

get_filter_attributes-set_property_example :
    (get_filter_attributes (set_property info (filter_attributes 1)) ≡ 2 ^ 31)
    × (get_use_filter (set_property info (filter_attributes 1)) ≡ get_use_filter info)
    × (get_use_filter (set_property info (use_filter false)) ≡ false)
get_filter_attributes-set_property_example =
    get_filter_attributes-set_property info 1 false (omega arith) (omega arith) refl
