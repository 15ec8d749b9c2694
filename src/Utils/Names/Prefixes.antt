-- ===== src/Utils/Names/Prefixes.antt =====
-- Of which devices the name starts with the prefix for the devices of a card, src/utils/utils.h.
use alsa_gobject.Base.{
  ℕ, zero, suc, ◌+◌, ◌*◌, ◌/◌, ◌%◌, ◌^◌, ◌<◌, true, false, if◌then◌else◌, ◌==◌, ltb, List, [], ◌∷◌,
  ◌++◌, ◌≡◌, refl, sym, ap, ◌∙◌, arith, append_assoc,
}
use alsa_gobject.Utils.Sysfs.{starts_with}
use alsa_gobject.Utils.Names.{
  decimal_text, number_text, hwdep_sysname_prefix, hwdep_sysname, rawmidi_sysname_prefix,
  rawmidi_sysname,
}
use native.Mathlib.Nat.{pow-suc}

starts_with-append : (prefix rest : List ℕ) → starts_with prefix (prefix ++ rest) ≡ true
unfolding starts_with
starts_with-append [] rest = refl
starts_with-append (c ∷ cs) rest =
    let same : (c == c) ≡ true = ground arith in
    rw (same, if◌then◌else◌) (starts_with-append cs rest)

-- More digits than a number has are not used.
decimal_text_more :
    (k n : ℕ) → n < 10 ^ suc k → decimal_text (suc (suc k)) n ≡ decimal_text (suc k) n
unfolding decimal_text
decimal_text_more zero n small = let one : ltb n 10 ≡ true = ground arith in rw (one, if◌then◌else◌)
decimal_text_more (suc k) n small =
    let fits : n / 10 < 10 ^ suc k = omega (arith, pow-suc 10 (suc k)) in
    ap (λ (t : List ℕ). if ltb n 10 then (n + 48) ∷ [] else t ++ ((n % 10 + 48) ∷ []))
      (decimal_text_more k (n / 10) fits)

-- A digit that is appended to a number is appended to its text.
number_text-digit :
    (c d : ℕ)
    → 0 < c
    → d < 10
    → c * 10 + d < 2 ^ 32
    → number_text (c * 10 + d) ≡ number_text c ++ ((d + 48) ∷ [])
unfolding decimal_text
number_text-digit c d positive digit fits =
    let two : ltb (c * 10 + d) 10 ≡ false = ground arith in
    let high : (c * 10 + d) / 10 ≡ c = omega arith in
    let low : (c * 10 + d) % 10 ≡ d = omega arith in
    rw (decimal_text, two, high, low, if◌then◌else◌)
      (ap (λ (t : List ℕ). t ++ ((d + 48) ∷ [])) (sym (decimal_text_more 8 c (omega arith))))

-- A device of the card whose number is that of another card with a digit appended, as 10 is for 1: its
-- name starts with the prefix for the devices of the other card, for hardware dependent devices and
-- for those of raw MIDI.
pub sysname_prefix-digit :
    (c d device_id : ℕ)
    → 0 < c
    → d < 10
    → c * 10 + d < 2 ^ 32
    → (starts_with (hwdep_sysname_prefix c) (hwdep_sysname (c * 10 + d) device_id) ≡ true)
      × (starts_with (rawmidi_sysname_prefix c) (rawmidi_sysname (c * 10 + d) device_id) ≡ true)
unfolding hwdep_sysname_prefix hwdep_sysname rawmidi_sysname_prefix rawmidi_sysname
sysname_prefix-digit c d device_id positive digit fits =
    let rest = 68 ∷ number_text device_id in
    let appended : number_text (c * 10 + d) ++ rest ≡ number_text c ++ (((d + 48) ∷ []) ++ rest) =
      ap (λ (t : List ℕ). t ++ rest) (number_text-digit c d positive digit fits)
      ∙ append_assoc (number_text c) ((d + 48) ∷ []) rest in
    (
      ap (λ (t : List ℕ). starts_with (hwdep_sysname_prefix c) (104 ∷ (119 ∷ (67 ∷ t)))) appended
          ∙ starts_with-append (hwdep_sysname_prefix c) (((d + 48) ∷ []) ++ rest),
      ap
            (λ (t : List ℕ).
              starts_with (rawmidi_sysname_prefix c) (109 ∷ (105 ∷ (100 ∷ (105 ∷ (67 ∷ t))))))
            appended
          ∙ starts_with-append (rawmidi_sysname_prefix c) (((d + 48) ∷ []) ++ rest),
    )
