-- ===== src/Rawmidi/StreamPair/Sources.antt =====
-- For which stream pairs a source is created, src/rawmidi/stream-pair.c.
use alsa_gobject.Base.{
  ℕ, ◌-◌, ◌^◌, ◌<◌, false, if◌then◌else◌, ◌==◌, some, bit_and, bit_or, ◌≡◌, sym, ap, ◌∙◌, arith,
  Bool-cases, inl, inr,
}
use alsa_gobject.Base.Bits.{
  assign_bits, bit_and-one, bit_and-two, bit_and-three, bit_and-assign_bits,
}
use alsa_gobject.Platform.{Platform, answer, local, success, failure}
use alsa_gobject.Rawmidi.StreamPair.{
  StreamPair, unreadable, flags_for, create_source, has_bit, info_flag_input, info_flag_output,
}

-- A source is refused exactly where the file status flags have the access mode for reading only.
create_source-access :
    (p : Platform) (self : StreamPair) (fd access_modes : ℕ)
    → self.fd ≡ some fd
    → create_source p self (answer access_modes)
      ≡ (if bit_and access_modes 3 == 0 then failure (some (local unreadable)) else success tt)
unfolding create_source
create_source-access p self fd access_modes opened =
    elim (Bool-cases (bit_and access_modes 3 == 0)) [
      | inl reading ↦
          let reads : bit_and access_modes 3 ≡ 0 = ground (arith, reading) in
          let no_second : bit_and access_modes 2 ≡ 0 =
            omega (arith, reads, bit_and-two access_modes, bit_and-three access_modes) in
          let no_first : bit_and access_modes 1 ≡ 0 =
            omega (arith, reads, bit_and-one access_modes, bit_and-three access_modes) in
          rw (opened, reading, no_second, no_first, if◌then◌else◌)
      | inr writing ↦ elim (Bool-cases (bit_and access_modes 2 == 0)) [
        | inr second ↦ rw (opened, writing, second, if◌then◌else◌)
        | inl no_second ↦
            let first : (bit_and access_modes 1 == 0) ≡ false = ground (
              arith,
              writing,
              no_second,
              bit_and-one access_modes,
              bit_and-two access_modes,
              bit_and-three access_modes,
            ) in
            rw (opened, writing, no_second, first, if◌then◌else◌)
      ]
    ]

module _ (p : Platform) (self : StreamPair) (fd flags status : ℕ) where
  opened_for :
      (open_flag v : ℕ)
      → open_flag < 2 ^ 32
      → v < 4
      → some (assign_bits 32 open_flag 3 v) ≡ some flags
      → bit_and status 3 ≡ bit_and flags 3
      → bit_and status 3 ≡ v
  opened_for open_flag v word small chosen same =
      let is : assign_bits 32 open_flag 3 v ≡ flags = cc chosen in
      let inside : bit_and v 3 ≡ v = omega (arith, bit_and-three v) in
      same
      ∙ ap (λ (t : ℕ). bit_and t 3) (sym is)
      ∙ bit_and-assign_bits 32 open_flag 3 v word (omega arith) (omega arith) inside

  created :
      (v : ℕ)
      → self.fd ≡ some fd
      → bit_and status 3 ≡ v
      → create_source p self (answer status)
        ≡ (if v == 0 then failure (some (local unreadable)) else success tt)
  created v opened mode =
      create_source-access p self fd status opened
      ∙ ap (λ (t : ℕ). if t == 0 then failure (some (local unreadable)) else success tt) mode

  -- A stream pair that is opened for input only gets no source: where `fcntl` gives file status flags with
  -- the access mode that the device was opened with, the call fails and says that the stream pair is not
  -- for read operation. One that is opened for output gets a source, whether it is for input as well or not.
  pub create_source-flags_for :
      (access_modes open_flag : ℕ)
      → self.fd ≡ some fd
      → open_flag < 2 ^ 32
      → flags_for access_modes open_flag ≡ some flags
      → bit_and status 3 ≡ bit_and flags 3
      → create_source p self (answer status) ≡ (
          if has_bit access_modes info_flag_output
          then success tt
          else failure (some (local unreadable)))
  unfolding flags_for
  create_source-flags_for access_modes open_flag opened word chosen same =
      let mask = bit_and access_modes (2 ^ 32 - 1 - bit_or info_flag_output info_flag_input) == 0 in
      elim (Bool-cases mask) [
        | inr unknown ↦ absurd (cc (rw (flags_for, unknown, if◌then◌else◌) at chosen))
        | inl known ↦ elim (Bool-cases (bit_and access_modes 1 == 0)) [
          | inl no_output ↦ elim (Bool-cases (bit_and access_modes 2 == 0)) [
            | inl no_input ↦
                absurd (cc (rw (flags_for, known, no_output, no_input, if◌then◌else◌) at chosen))
            | inr input ↦
                let chosen' = rw (flags_for, known, no_output, input, if◌then◌else◌) at chosen in
                rw (no_output, if◌then◌else◌)
                  (created 0 opened (opened_for open_flag 0 word (omega arith) chosen' same))
          ]
          | inr output ↦ elim (Bool-cases (bit_and access_modes 2 == 0)) [
            | inl no_input ↦
                let chosen' = rw (flags_for, known, output, no_input, if◌then◌else◌) at chosen in
                rw (output, if◌then◌else◌)
                  (created 1 opened (opened_for open_flag 1 word (omega arith) chosen' same))
            | inr input ↦
                let chosen' = rw (flags_for, known, output, input, if◌then◌else◌) at chosen in
                rw (output, if◌then◌else◌)
                  (created 2 opened (opened_for open_flag 2 word (omega arith) chosen' same))
          ]
        ]
      ]
