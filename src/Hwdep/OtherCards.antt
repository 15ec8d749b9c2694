-- ===== src/Hwdep/OtherCards.antt =====
-- Devices of other cards in the list of the devices of a card, src/hwdep/query.c.
use alsa_gobject.Base.{
  ℕ, suc, ◌+◌, ◌*◌, ◌%◌, ◌^◌, ◌<◌, ◌==◌, true, false, if◌then◌else◌, some, List, ◌∷◌, map, length,
  ◌≡◌, arith,
}
use alsa_gobject.Platform.{Platform, answer, ended, success}
use alsa_gobject.Descriptor.{look_up}
use alsa_gobject.Utils.Strings.Decimal.{decimal}
use alsa_gobject.Utils.Sysfs.{starts_with, compare_u32, sysnum_outcome}
use alsa_gobject.Utils.Sysfs.Numbers.{Node, device, Numbered, numbers, generate_sysnum_list-numbers}
use alsa_gobject.Utils.Names.{hwdep_sysname_prefix, hwdep_sysname}
use alsa_gobject.Utils.Names.Prefixes.{sysname_prefix-digit}
use alsa_gobject.Hwdep.{get_device_id_list}

suc_not_zero : (n : ℕ) → (suc n == 0) ≡ false
suc_not_zero n = ground arith

-- The list of the devices of a card has the number of a device of another card, of the card whose
-- number is that of the first with a digit appended, as 10 is for 1: where the first node that is
-- found is such a device, its number is among those that are given to `qsort` and out.
pub get_device_id_list-other_card :
    (p : Platform) (qsort : (ℕ → ℕ → ℕ) → List ℕ → List ℕ) (c d device_id : ℕ) (node : Node)
    (nodes : List Node)
    → 0 < c
    → d < 10
    → c * 10 + d < 2 ^ 32
    → node.name ≡ hwdep_sysname (c * 10 + d) device_id
    → Numbered (node ∷ nodes)
    → get_device_id_list p qsort (answer (map device (node ∷ nodes))) c
      ≡ ended (
          success (
            some (
              qsort compare_u32 (
                decimal 0 (node.digit ∷ node.digits) % 2 ^ 32
                ∷ numbers (hwdep_sysname_prefix c) nodes))))
unfolding get_device_id_list sysnum_outcome look_up
get_device_id_list-other_card p qsort c d device_id node nodes positive digit fits named numbered =
    let (has_prefix, midi) = sysname_prefix-digit c d device_id positive digit fits in
    let starts : starts_with (hwdep_sysname_prefix c) node.name ≡ true = rw (named) has_prefix in
    rw (
      generate_sysnum_list-numbers p (hwdep_sysname_prefix c) qsort (node ∷ nodes) numbered,
      starts,
      suc_not_zero (length (numbers (hwdep_sysname_prefix c) nodes)),
      if◌then◌else◌,
    )
