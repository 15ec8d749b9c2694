-- ===== src/Ctl/Card/Tlv/Containers.antt =====
-- What a container holds after a read or a command.
use alsa_gobject.Base.{
  ℕ, ◌/◌, ◌≤◌, ◌≡◌, ◌∙◌, true, false, if◌then◌else◌, leb, ltb, min, List, ◌++◌, length, take, drop,
  length-append, take-append, drop-append, length-take, length-drop, length-replicate, replicate,
  arith,
}
use alsa_gobject.Platform.{Platform, Reply, answer, ended, success}
use alsa_gobject.Ctl.Card.Tlv.{
  Packet, Container, packet_length, copy_packet, read_elem_tlv, command_elem_tlv,
}

-- What is documented of the driver: it answers in the packet that it is given, and tells of no more
-- bytes than it was asked for.
abbrev pub IsTlvDriver : (Packet → Reply Packet) → Type 0
IsTlvDriver f =
    (asked given : Packet)
    → f asked ≡ answer given
    → (given.length ≤ asked.length) × (length given.tlv ≡ length asked.tlv)

copy_packet-inside :
    (bytes : List ℕ) (packet : Packet)
    → packet.length ≤ packet_length bytes
    → length packet.tlv ≡ length bytes
    → (c : Container) × (copy_packet bytes packet ≡ ended (success c))
      × (length c.bytes ≡ length bytes)
      × (take packet.length c.bytes ≡ take packet.length packet.tlv)
      × (drop packet.length c.bytes ≡ drop packet.length bytes)
      × (c.count ≤ length bytes / 4)
unfolding copy_packet
copy_packet-inside bytes packet few same =
    let front = take packet.length packet.tlv in
    let behind = drop packet.length bytes in
    let fits : leb packet.length (min (length packet.tlv) (length bytes)) ≡ true = ground arith in
    let size : packet.length ≡ length front = omega (arith, length-take packet.length packet.tlv) in
    (
      record { bytes = front ++ behind; count = packet.length / 4 },
      rw (fits, if◌then◌else◌),
      omega (arith, size, length-append front behind, length-drop packet.length bytes),
      take-append front behind packet.length size,
      drop-append front behind packet.length size,
      omega arith,
    )

not_short : {n : ℕ} → 2 ≤ n → ltb n 2 ≡ false
not_short h = ground arith

module _ (p : Platform) (numid : ℕ) (bytes : List ℕ) where
  -- The container afterwards: as large as before, in front what the driver gave, behind it as before,
  -- and the count is not larger than before.
  abbrev pub Filled : Packet → Container → Type 0
  Filled given c =
      (length c.bytes ≡ length bytes)
      × (take given.length c.bytes ≡ take given.length given.tlv)
      × (drop given.length c.bytes ≡ drop given.length bytes)
      × (c.count ≤ length bytes / 4)

  -- With a driver that keeps to the packet, a read into a container of two quadlets or more that the
  -- driver answers succeeds inside the bounds of both: the container keeps its size, has the bytes of the
  -- driver in front and its own behind them, and the count does not grow.
  pub read_elem_tlv-bounds :
      (f : Packet → Reply Packet) (given : Packet)
      → IsTlvDriver f
      → 2 ≤ length bytes / 4
      → f (record { numid = numid; length = packet_length bytes; tlv = replicate (length bytes) 0 })
        ≡ answer given
      → (c : Container) × (read_elem_tlv p f numid bytes ≡ ended (success c)) × Filled given c
  unfolding read_elem_tlv
  read_elem_tlv-bounds f given keeps enough answered =
      let (few, same) =
        keeps
          (record { numid = numid; length = packet_length bytes; tlv = replicate (length bytes) 0 })
          given answered in
      let (c, copied, size, front, behind, count) =
        copy_packet-inside bytes given few (same ∙ length-replicate (length bytes) 0) in
      (c, rw (not_short enough, answered, copied, if◌then◌else◌), (size, front, behind, count))

  -- With a driver that keeps to the packet, a command with a container of two quadlets or more
  -- that the driver answers succeeds inside the bounds of both: the container keeps its size, has
  -- the bytes of the driver in front and its own behind them, and the count does not grow.
  pub command_elem_tlv-bounds :
      (f : Packet → Reply Packet) (given : Packet)
      → IsTlvDriver f
      → 2 ≤ length bytes / 4
      → f (record { numid = numid; length = packet_length bytes; tlv = bytes }) ≡ answer given
      → (c : Container) × (command_elem_tlv p f numid bytes ≡ ended (success c)) × Filled given c
  unfolding command_elem_tlv
  command_elem_tlv-bounds f given keeps enough answered =
      let (few, same) =
        keeps (record { numid = numid; length = packet_length bytes; tlv = bytes }) given
          answered in
      let (c, copied, size, front, behind, count) = copy_packet-inside bytes given few same in
      (c, rw (not_short enough, answered, copied, if◌then◌else◌), (size, front, behind, count))
