-- ===== src/Timer/Query/Clock.antt =====
-- The clock of the time stamps of timers, alsatimer_get_real_time_clock_id of src/timer/query.c.
use alsa_gobject.Base.{
  ℕ, ◌-◌, ◌%◌, ◌^◌, ◌<◌, if◌then◌else◌, ◌==◌, some, List, [], ◌∷◌, ◌++◌, length, replicate, ◌≡◌,
  refl, ap, ◌∙◌, arith, append_assoc,
}
use alsa_gobject.Platform.{Platform, Reply, answer, ended, success, failure, generate_file_error}
use alsa_gobject.Descriptor.{finish}
use alsa_gobject.Utils.Strings.{long_from_string}
use alsa_gobject.Utils.Strings.Decimal.{decimal, Digits, characters, long_from_string-decimal}
use alsa_gobject.Timer.Query.{
  realtime, monotonic, count_digits, buffer_size, timer_get_node_param_value, clock_of,
  get_real_time_clock_id,
}

buffer_size-12 : buffer_size ≡ 12
unfolding buffer_size count_digits
buffer_size-12 = refl

node_param_value-decimal :
    (p : Platform) (fd d : ℕ) (ds : List ℕ) (read : ℕ → Reply (List ℕ))
    → Digits (d ∷ ds)
    → decimal 0 (d ∷ ds) < 2 ^ 31
    → read 12 ≡ answer (characters (d ∷ ds) ++ (10 ∷ []))
    → timer_get_node_param_value p (answer fd) read 12 ≡ finish fd (success (decimal 0 (d ∷ ds)))
unfolding timer_get_node_param_value
node_param_value-decimal p fd d ds read digits small stored =
    let text = characters (d ∷ ds) ++ (10 ∷ []) in
    let room = 12 - length text in
    let (parsed, negative) =
      long_from_string-decimal p d ds 10 (replicate room 0) digits refl (omega arith) in
    let whole : long_from_string p (text ++ replicate room 0) ≡ some (answer (decimal 0 (d ∷ ds))) =
      ap (λ t. long_from_string p t)
        (append_assoc (characters (d ∷ ds)) (10 ∷ []) (replicate room 0))
      ∙ parsed in
    let word : decimal 0 (d ∷ ds) % 2 ^ 32 ≡ decimal 0 (d ∷ ds) = omega arith in
    rw (timer_get_node_param_value, stored, whole, word)

-- Where the file of the parameter is opened and has a number of the type `int` with a new line behind
-- it, which fits in the buffer of 12 bytes, the file is closed once and the number decides: 0 is the real
-- time, 1 is the monotonic clock, and any other is the error EPROTO.
pub get_real_time_clock_id-decimal :
    (p : Platform) (fd d : ℕ) (ds : List ℕ) (read : ℕ → Reply (List ℕ))
    → Digits (d ∷ ds)
    → decimal 0 (d ∷ ds) < 2 ^ 31
    → read 12 ≡ answer (characters (d ∷ ds) ++ (10 ∷ []))
    → get_real_time_clock_id p (answer fd) read ≡ record {
      closed = fd ∷ [];
      outcome = ended (
          if decimal 0 (d ∷ ds) == 0
          then success realtime
          else (if decimal 0 (d ∷ ds) == 1
              then success monotonic
              else failure (some (generate_file_error p (p.eproto)))));
    }
unfolding get_real_time_clock_id clock_of
get_real_time_clock_id-decimal p fd d ds read digits small stored =
    let param =
      ap (λ (t : ℕ). timer_get_node_param_value p (answer fd) read t) buffer_size-12
      ∙ node_param_value-decimal p fd d ds read digits small stored in
    rw (get_real_time_clock_id, param, param, clock_of)
