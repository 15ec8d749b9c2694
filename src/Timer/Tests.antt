-- ===== src/Timer/Tests.antt =====
-- Runs of the parts of src/timer at concrete values.
use alsa_gobject.Samples.{platform}
use alsa_gobject.Base.{
  ℕ, ◌≡◌, refl, true, false, some, List, [], ◌∷◌, ◌++◌, get_or, length, arith, ◌↔◌,
}
use alsa_gobject.Platform.{Reply, answer}
use alsa_gobject.Records.{RecordLayout, images}
use alsa_gobject.Timer.UserInstance.{
  tick_time, real_time, event_type_number, new, open_instance, choose_event_type, continue,
  dispatch_src,
}
use alsa_gobject.Timer.UserInstance.Reading.{signals, dispatch_src-events}
use alsa_gobject.Timer.UserInstance.Modes.{World, opened, chosen, fresh, next, Reachable-agreed}

-- Events of tick time as one number, and of real time as a pair of numbers.
abbrev tick_layout : RecordLayout ℕ
tick_layout = record {
  size = 1;
  image = λ n. n ∷ [];
  parse = λ bs. get_or bs 0 0;
  size_pos = omega arith;
  length-image = λ n. refl;
  parse-image = λ n rest. refl;
}

abbrev real_layout : RecordLayout (ℕ × ℕ)
real_layout = record {
  size = 2;
  image = λ t. t.0 ∷ (t.1 ∷ []);
  parse = λ bs. (get_or bs 0 0, get_or bs 1 0);
  size_pos = omega arith;
  length-image = λ t. refl;
  parse-image = λ t rest. refl;
}

abbrev real_events : List (ℕ × ℕ)
real_events = (1, 10) ∷ ((2, 20) ∷ [])

dispatch_src-events_example :
    dispatch_src 1
      (λ bs. get_or bs 0 0)
      2
      (λ bs. (get_or bs 0 0, get_or bs 1 0))
      platform
      (record { fd = some 3; event_type = real_time; proto_ver_triplet = (2, 0, 7) })
      (record { io_in = true; io_err = false })
      (answer (
        length (images real_layout real_events ++ (7 ∷ [])),
        images real_layout real_events ++ (7 ∷ []),
      ))
    ≡ (signals tick_layout real_layout real_time real_events, continue)
dispatch_src-events_example =
    dispatch_src-events tick_layout real_layout platform real_time 3 (2, 0, 7) true real_events
      (7 ∷ []) (omega arith)

abbrev agrees : ℕ → Reply (Unit {0})
agrees n = answer tt

abbrev open_world : World
open_world = record {
  instance = (open_instance platform new (answer 3) (answer 131079)).0;
  tread = 0;
}

abbrev real_world : World
real_world = record {
  instance = (choose_event_type platform agrees open_world.instance real_time).0;
  tread = 1;
}

is_open : open_world.instance.fd ≡ some 3
unfolding open_instance
is_open = refl

is_new : new.event_type ≡ tick_time
unfolding new
is_new = refl

Reachable-agreed_example :
    (1 ≡ event_type_number real_world.instance.event_type)
    × ((fd version : ℕ)
        → (0
            ≡ event_type_number
                (open_instance platform real_world.instance
                  (answer fd)
                  (answer version)).0.event_type)
          ↔ (real_world.instance.event_type ≡ tick_time))
Reachable-agreed_example = Reachable-agreed platform real_world (
    next open_world real_world
      (next (record { instance = new; tread = 0 }) open_world fresh
        (opened (record { instance = new; tread = 0 }) (answer 3) (answer 131079) is_new))
      (chosen open_world 3 real_time agrees is_open refl))
