-- ===== src/Rawmidi/StreamPair/Descriptors.antt =====
-- Which descriptors are open behind the life of a stream pair, src/rawmidi/stream-pair.c.
use alsa_gobject.Base.{
  ℕ, true, if◌then◌else◌, ◌==◌, some, List, [], ◌∷◌, ◌++◌, ◌≡◌, ap, arith, Bool-cases, inl, inr,
}
use alsa_gobject.Platform.{
  Platform, Reply, answer, errno, Reply-cases, success, failure, generate_file_error,
}
use alsa_gobject.Utils.Ioctl.{held, opens, Control, request_ctl_ioctl_opened}
use alsa_gobject.Utils.Ioctl.Balance.{without, left_open, same_fd}
use alsa_gobject.Rawmidi.StreamPair.{
  new, flags_for, open_stream_pair, finalize, rawmidi_select_subdevice,
}

-- Of two descriptors that are open, both are closed.
without-without :
    (fd ctl_fd : ℕ) (fds : List ℕ) → without fd (without ctl_fd (fd ∷ (ctl_fd ∷ fds))) ≡ fds
without-without fd ctl_fd fds = elim (Bool-cases (fd == ctl_fd)) [
  | inl same ↦
      let back : (ctl_fd == fd) ≡ true = ground (arith, same) in
      rw (without, same, back, if◌then◌else◌)
  | inr other ↦ rw (without, other, same_fd ctl_fd, same_fd fd, if◌then◌else◌)
]

module _ (p : Platform) (control : Control (Unit {0})) (open_node : List ℕ → ℕ → Reply ℕ)
    (pversion : Reply ℕ) where
  requested :
      (name : List ℕ) (card_id ctl_fd : ℕ) (reply : Reply (Unit {0}))
      → control.devname card_id ≡ answer name
      → control.open_node name ≡ answer ctl_fd
      → control.request ctl_fd ≡ reply
      → request_ctl_ioctl_opened control card_id ≡ (opens ctl_fd ∷ [], held ctl_fd, reply)
  unfolding request_ctl_ioctl_opened
  requested name card_id ctl_fd reply found opened asked =
      rw (request_ctl_ioctl_opened, found, opened, asked)

  -- A stream pair is created, opened for access modes that the library has, and disposed of, with the
  -- path of its device found and the control device of its card opened. Whatever fails in between, the
  -- same descriptors are open as before, but for one case: where the control device refuses the subdevice
  -- its descriptor stays open.
  pub open_stream_pair-finalize :
      (node name : List ℕ) (card_id access_modes open_flag flags ctl_fd : ℕ) (fds : List ℕ)
      → flags_for access_modes open_flag ≡ some flags
      → control.devname card_id ≡ answer name
      → control.open_node name ≡ answer ctl_fd
      → left_open fds (
          (open_stream_pair p control
            (answer node)
            open_node
            pversion
            new
            card_id
            access_modes
            open_flag).0
          ++ (finalize
              (open_stream_pair p control
                (answer node)
                open_node
                pversion
                new
                card_id
                access_modes
                open_flag).1).0)
        ≡ elim (control.request ctl_fd) [ errno e ↦ some (ctl_fd ∷ fds) | answer done ↦ some fds ]
  unfolding open_stream_pair finalize rawmidi_select_subdevice request_ctl_ioctl_opened new
  open_stream_pair-finalize node name card_id access_modes open_flag flags ctl_fd fds chosen found
        opened =
      elim (Reply-cases (control.request ctl_fd)) [
        | inl (e, refused) ↦
            let asked : rawmidi_select_subdevice p control card_id
                ≡ (opens ctl_fd ∷ [], held ctl_fd, failure (some (generate_file_error p e))) =
              let r = requested name card_id ctl_fd (errno e) found opened refused in
              rw (rawmidi_select_subdevice, r, r) in
            rw (open_stream_pair, chosen, asked, asked, refused)
        | inr (done, taken) ↦
            let asked : rawmidi_select_subdevice p control card_id
                ≡ (opens ctl_fd ∷ [], held ctl_fd, success tt) =
              let r = requested name card_id ctl_fd (answer done) found opened taken in
              rw (rawmidi_select_subdevice, r, r) in
            elim (Reply-cases (open_node node flags)) [
              | inl (e, failed) ↦ rw (
                open_stream_pair,
                chosen,
                asked,
                failed,
                asked,
                taken,
                left_open,
                without,
                same_fd ctl_fd,
                if◌then◌else◌,
              )
              | inr (fd, got) ↦
                  let closed = ap (λ t. some t) (without-without fd ctl_fd fds) in
                  elim (Reply-cases pversion) [
                    | inl (e, failed) ↦
                        rw (open_stream_pair, chosen, asked, got, failed, asked, taken) closed
                    | inr (proto_ver, known) ↦
                        rw (open_stream_pair, chosen, asked, got, known, asked, taken) closed
                  ]
            ]
      ]
