-- ===== src/Rawmidi/Tests.antt =====
-- Runs of src/rawmidi at concrete values.
use alsa_gobject.Base.{some, [], ◌∷◌, ◌++◌, ◌≡◌, refl, arith}
use alsa_gobject.Base.Bits.{assign_bits}
use alsa_gobject.Samples.{platform}
use alsa_gobject.Platform.{answer, errno, local, failure}
use alsa_gobject.Utils.Ioctl.{Control}
use alsa_gobject.Utils.Ioctl.Balance.{left_open}
use alsa_gobject.Rawmidi.StreamPair.{
  StreamPair, new, unreadable, flags_for, create_source, open_stream_pair, finalize,
}
use alsa_gobject.Rawmidi.StreamPair.Sources.{create_source-flags_for}
use alsa_gobject.Rawmidi.StreamPair.Descriptors.{open_stream_pair-finalize}

abbrev opened : StreamPair
opened = record { fd = some 5; devnode = some (109 ∷ []); proto_ver_triplet = (2, 0, 1) }

flags_for_input : flags_for 2 2048 ≡ some 2048
unfolding flags_for assign_bits
flags_for_input = refl

-- A stream pair for input, with the flag O_NONBLOCK.
create_source-flags_for_example :
    create_source platform opened (answer 2048) ≡ failure (some (local unreadable))
create_source-flags_for_example =
    create_source-flags_for platform opened 5 2048 2048 2 2048 refl (omega arith) flags_for_input
      refl

-- A control device that refuses the subdevice.
abbrev refusing : Control (Unit {0})
refusing = record {
  devname = λ card_id. answer (99 ∷ []);
  open_node = λ name. answer 4;
  request = λ fd. errno 16;
}

open_stream_pair-finalize_example :
    left_open (3 ∷ []) (
      (open_stream_pair platform refusing
        (answer (109 ∷ []))
        (λ node flags. answer 5)
        (answer 1)
        new
        0
        2
        2048).0
      ++ (finalize
          (open_stream_pair platform refusing
            (answer (109 ∷ []))
            (λ node flags. answer 5)
            (answer 1)
            new
            0
            2
            2048).1).0)
    ≡ some (4 ∷ (3 ∷ []))
open_stream_pair-finalize_example =
    open_stream_pair-finalize platform refusing (λ node flags. answer 5) (answer 1) (109 ∷ [])
      (99 ∷ []) 0 2 2048 2048 4 (3 ∷ []) flags_for_input refl refl
