-- ===== src/Utils/Sysfs/Numbers.antt =====
-- The numbers of the nodes with a prefix, src/utils/sysfs.c.
use alsa_gobject.Base.{
  ℕ, suc, ◌%◌, ◌^◌, ◌<◌, true, if◌then◌else◌, ◌==◌, none, some, List, [], ◌∷◌, ◌++◌, map, length,
  ◌≡◌, refl, ap, arith, Bool-cases, inl, inr,
}
use alsa_gobject.Platform.{Platform, Reply, answer, errno}
use alsa_gobject.Utils.Strings.Decimal.{decimal, Digits, characters, long_from_string-decimal}
use alsa_gobject.Utils.Sysfs.{
  Device, starts_with, compare_u32, detect_device, count_devices, read_numbers,
  generate_sysnum_list_by_sysname_prefix,
}

-- A node of the subsystem as libudev shows it: its name, and the digits at the end of the name.
pub record Node : Type 0 where
  pub name : List ℕ
  pub digit : ℕ
  pub digits : List ℕ

-- The device for a node, with the text of its number in memory that ends with the zero byte.
abbrev pub device : Node → Reply Device
device node = answer (record {
  sysname = answer (node.name);
  devnode = errno 0;
  sysnum = some (characters (node.digit ∷ node.digits) ++ (0 ∷ []));
})

-- The numbers of nodes are digits, and fit in the type `long`.
abbrev pub Numbered : List Node → Type 0
Numbered [] = Unit
Numbered (node ∷ nodes) =
    Digits (node.digit ∷ node.digits)
    × (decimal 0 (node.digit ∷ node.digits) < 2 ^ 63)
    × Numbered nodes

-- The numbers of the nodes whose name has the prefix, in the order of the nodes.
abbrev pub numbers : List ℕ → List Node → List ℕ
numbers prefix [] = []
numbers prefix (node ∷ nodes) =
    if starts_with prefix node.name
    then decimal 0 (node.digit ∷ node.digits) % 2 ^ 32 ∷ numbers prefix nodes
    else numbers prefix nodes

module _ (p : Platform) (prefix : List ℕ) where
  count_devices-numbers :
      (nodes : List Node)
      → count_devices p prefix (map device nodes) ≡ length (numbers prefix nodes)
  unfolding count_devices detect_device
  count_devices-numbers [] = refl
  count_devices-numbers (node ∷ nodes) = elim (Bool-cases (starts_with prefix node.name)) [
    | inl has ↦
        rw (count_devices, numbers, has, if◌then◌else◌) (ap suc (count_devices-numbers nodes))
    | inr has_not ↦
        rw (count_devices, numbers, has_not, if◌then◌else◌) (count_devices-numbers nodes)
  ]

  read_numbers-numbers :
      (nodes : List Node)
      → Numbered nodes
      → read_numbers p prefix (map device nodes) ≡ some (numbers prefix nodes)
  unfolding read_numbers detect_device
  read_numbers-numbers [] numbered = refl
  read_numbers-numbers (node ∷ nodes) (digits, fits, numbered) =
      elim (Bool-cases (starts_with prefix node.name)) [
        | inr has_not ↦
            rw (read_numbers, numbers, has_not, if◌then◌else◌) (read_numbers-numbers nodes numbered)
        | inl has ↦
            let (parsed, negative) =
              long_from_string-decimal p node.digit node.digits 0 [] digits refl fits in
            rw (
              read_numbers,
              numbers,
              has,
              if◌then◌else◌,
              parsed,
              read_numbers-numbers nodes numbered,
            )
      ]

  -- For nodes with numbers of which at least one has a name with the prefix, the call succeeds with the
  -- numbers of exactly those nodes, cut off to 32 bits, in the order in which `qsort` puts them; where
  -- none has such a name it succeeds and stores nothing.
  pub generate_sysnum_list-numbers :
      (qsort : (ℕ → ℕ → ℕ) → List ℕ → List ℕ) (nodes : List Node)
      → Numbered nodes
      → generate_sysnum_list_by_sysname_prefix p qsort (answer (map device nodes)) prefix
        ≡ some (
            answer (
              if length (numbers prefix nodes) == 0
              then none
              else some (qsort compare_u32 (numbers prefix nodes))))
  unfolding generate_sysnum_list_by_sysname_prefix
  generate_sysnum_list-numbers qsort nodes numbered =
      let n = length (numbers prefix nodes) in
      let same : (n == n) ≡ true = ground arith in
      elim (Bool-cases (n == 0)) [
        | inl nothing ↦ rw (count_devices-numbers nodes, nothing, if◌then◌else◌)
        | inr something ↦ rw (
          count_devices-numbers nodes,
          something,
          read_numbers-numbers nodes numbered,
          count_devices-numbers nodes,
          same,
          if◌then◌else◌,
        )
      ]
