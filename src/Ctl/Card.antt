-- ===== src/Ctl/Card.antt =====
-- src/ctl/card.c: the object for the control character device of a sound card. What the driver does
-- at an `ioctl` is a parameter; a reply of it is what the call leaves in its argument, or the error
-- number. The checks of `g_return_val_if_fail` on values end a call with FALSE and no error; those on
-- the classes of the arguments and on NULL have no counterpart.
pub mod Lists
pub mod Tlv
pub mod Labels
pub mod Elems
pub mod Events
use alsa_gobject.Base.{
  ℕ, ◌/◌, ◌%◌, ◌^◌, Bool, true, false, if◌then◌else◌, ◌==◌, Option, none, some, List,
}
use alsa_gobject.Platform.{
  Platform, Reply, answer, errno, local, GError, Ended, success, failure, generate_file_error,
}

-- `ALSACtlCardError`
pub data CardError : Type 0 where
  failed disconnected elem_not_found elem_not_supported elem_owned elem_exist : CardError

-- `struct snd_ctl_elem_id`; the name is the text before the end mark.
pub record ElemId : Type 0 where
  pub numid : ℕ
  pub iface : ℕ
  pub device : ℕ
  pub subdevice : ℕ
  pub name : List ℕ
  pub index : ℕ

-- What becomes of the reply to an `ioctl` whose errors are told apart by `classify`; the code
-- `failed` is that of `generate_syscall_error`.
abbrev pub conclude : {A B : Type 0} → (ℕ → CardError) → (A → B) → Reply A → Ended CardError B
conclude classify f (answer a) = success (f a)
conclude classify f (errno e) = failure (some (local (classify e)))

-- `ALSACtlCardPrivate` without the path; `none` is a negative descriptor.
pub record Card : Type 0 where
  pub fd : Option ℕ
  pub subscribers : ℕ
  pub proto_ver_triplet : ℕ × ℕ × ℕ

module _ (p : Platform) where
  -- An element does not matter to the call, or there is no error number for it.
  unfoldable pub device_error : ℕ → CardError
  device_error e = if e == p.enodev then disconnected else failed

  unfoldable pub elem_error : ℕ → CardError
  elem_error e =
      if e == p.enodev then disconnected else (if e == p.enoent then elem_not_found else failed)

  -- The errors of the calls that also tell one error number `special` apart.
  unfoldable pub elem_error_or : ℕ → CardError → ℕ → CardError
  elem_error_or special code e =
      if e == p.enodev
      then disconnected
      else (if e == p.enoent then elem_not_found else (if e == special then code else failed))

  -- The error of `open`: the macro for the file error is given the code in place of the number.
  unfoldable pub open_error : ℕ → GError CardError
  open_error e =
      let code = p.file_error_from_errno e in
      if e == p.enodev
      then local disconnected
      else (if code == p.file_error_failed then local failed else generate_file_error p code)

  -- The three parts of the protocol version, 16 bits and twice 8 bits.
  unfoldable pub split_version : ℕ → ℕ × ℕ × ℕ
  split_version proto_ver =
      (proto_ver / 2 ^ 16 % 2 ^ 16, proto_ver / 2 ^ 8 % 2 ^ 8, proto_ver % 2 ^ 8)

  -- The card afterwards, and the end of the call. The path of the device node is found already.
  unfoldable pub card_open : Card → Reply ℕ → Reply ℕ → Card × Ended CardError (Unit {0})
  card_open self (errno e) pversion = (record self { fd = none }, failure (some (open_error e)))
  card_open self (answer fd) (errno e) =
      (record self { fd = none }, failure (some (local (device_error e))))
  card_open self (answer fd) (answer proto_ver) =
      (record self { fd = some fd; proto_ver_triplet = split_version proto_ver }, success tt)

  unfoldable pub get_protocol_version : Card → Ended CardError (ℕ × ℕ × ℕ)
  get_protocol_version self = elim (self.fd) [
    | none ↦ failure none
    | some fd ↦ success (self.proto_ver_triplet)
  ]

  -- The information is of the class `ALSACtlCardInfo`, a record of the kernel's.
  unfoldable pub get_info : {Info : Type 0} → Reply Info → Ended CardError Info
  get_info reply = conclude device_error (λ i. i) reply

  unfoldable pub remove_elems : Reply (Unit {0}) → Ended CardError (Unit {0})
  remove_elems reply = conclude (elem_error_or p.ebusy elem_owned) (λ i. i) reply
