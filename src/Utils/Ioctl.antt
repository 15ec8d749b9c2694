-- ===== src/Utils/Ioctl.antt =====
-- src/utils/ioctl.c: a request to the control device of a card, with the descriptors that it opens and
-- closes. What libudev finds and what the system calls give are parameters.
pub mod Balance
use alsa_gobject.Base.{
  ℕ, Bool, true, false, if◌then◌else◌, ◌==◌, Option, none, some, List, [], ◌∷◌, ◌++◌,
}
use alsa_gobject.Platform.{Platform, Reply, answer, errno}

-- A variable for a descriptor: not set yet, set to -1, or holding a descriptor.
pub data Slot : Type 0 where
  unset negative : Slot
  held : ℕ → Slot

-- The calls that open or close a descriptor. To close a variable that is not set is undefined; to close
-- -1 does nothing.
pub data Call : Type 0 where
  opens : ℕ → Call
  closes : Slot → Call

-- The control device: how its path is found, how it is opened, and what a request gives.
pub record Control (A : Type 0) : Type 0 where
  pub devname : ℕ → Reply (List ℕ)
  pub open_node : List ℕ → Reply ℕ
  pub request : ℕ → Reply A

-- The calls, what is stored at `fd`, and the error or what the request gives.
unfoldable pub request_ctl_ioctl_opened : {A : Type 0} → Control A → ℕ → List Call × Slot × Reply A
request_ctl_ioctl_opened control card_id = elim (control.devname card_id) [
  | errno e ↦ ([], unset, errno e)
  | answer devname ↦ elim (control.open_node devname) [
    | errno e ↦ ([], negative, errno e)
    | answer fd ↦ (opens fd ∷ [], held fd, control.request fd)
  ]
]

unfoldable pub request_ctl_ioctl : {A : Type 0} → Control A → ℕ → List Call × Reply A
request_ctl_ioctl control card_id =
    let (calls, fd, err) = request_ctl_ioctl_opened control card_id in
    (calls ++ (closes fd ∷ []), err)
