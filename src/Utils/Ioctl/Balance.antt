-- ===== src/Utils/Ioctl/Balance.antt =====
-- Which descriptors are open behind some calls, and the request of src/utils/ioctl.c among them.
use alsa_gobject.Base.{
  ℕ, true, if◌then◌else◌, ◌==◌, Option, none, some, List, [], ◌∷◌, ◌≡◌, arith, inl, inr,
}
use alsa_gobject.Platform.{Reply, answer, errno, Reply-cases}
use alsa_gobject.Utils.Ioctl.{
  unset, negative, held, Call, opens, closes, Control, request_ctl_ioctl_opened, request_ctl_ioctl,
}

-- A descriptor is removed from those that are open.
abbrev pub without : ℕ → List ℕ → List ℕ
without fd [] = []
without fd (x ∷ xs) = if x == fd then xs else x ∷ without fd xs

-- The descriptors that are open behind some calls, by those open before; `none` where the behaviour
-- is undefined.
abbrev pub left_open : List ℕ → List Call → Option (List ℕ)
left_open fds [] = some fds
left_open fds (opens fd ∷ calls) = left_open (fd ∷ fds) calls
left_open fds (closes unset ∷ calls) = none
left_open fds (closes negative ∷ calls) = left_open fds calls
left_open fds (closes (held fd) ∷ calls) = left_open (without fd fds) calls

pub same_fd : (fd : ℕ) → (fd == fd) ≡ true
same_fd fd = ground arith

module _ {A : Type 0} (control : Control A) (card_id : ℕ) where
  -- What a request through the control device comes to: the reply of the request, or the error of the
  -- step before it that failed.
  abbrev pub requested : Reply A
  requested = elim (control.devname card_id) [
    | errno e ↦ errno e
    | answer devname ↦ elim (control.open_node devname) [
      | errno e ↦ errno e
      | answer fd ↦ control.request fd
    ]
  ]

  -- A request gives the reply of the driver, or the error of the step that failed. Where the path of the
  -- device is found it leaves the same descriptors open as before; where it is not found the behaviour is
  -- undefined.
  pub request_ctl_ioctl-left_open :
      (fds : List ℕ)
      → (request_ctl_ioctl control card_id).1 ≡ requested
        × (left_open fds (request_ctl_ioctl control card_id).0
            ≡ elim (control.devname card_id) [ errno e ↦ none | answer devname ↦ some fds ])
  unfolding request_ctl_ioctl request_ctl_ioctl_opened
  request_ctl_ioctl-left_open fds = elim (Reply-cases (control.devname card_id)) [
    | inl (e, missing) ↦ (
      rw (request_ctl_ioctl, request_ctl_ioctl_opened, requested, missing),
      rw (request_ctl_ioctl, request_ctl_ioctl_opened, left_open, missing),
    )
    | inr (devname, found) ↦ elim (Reply-cases (control.open_node devname)) [
      | inl (e, refused) ↦ (
        rw (request_ctl_ioctl, request_ctl_ioctl_opened, requested, found, refused),
        rw (request_ctl_ioctl, request_ctl_ioctl_opened, left_open, found, refused),
      )
      | inr (fd, opened) ↦ (
        rw (request_ctl_ioctl, request_ctl_ioctl_opened, requested, found, opened),
        rw (
          request_ctl_ioctl,
          request_ctl_ioctl_opened,
          left_open,
          found,
          opened,
          same_fd fd,
          if◌then◌else◌,
        ),
      )
    ]
  ]
