-- ===== src/Ctl/Card/Tlv.antt =====
-- src/ctl/card.c: Type/Length/Value data of an element. A container is given as its bytes, so that
-- the count of its quadlets is the length divided by four.
pub mod Containers
use alsa_gobject.Base.{
  ℕ, ◌+◌, ◌*◌, ◌/◌, ◌%◌, ◌^◌, min, if◌then◌else◌, leb, ltb, none, List, ◌++◌, length, take, drop,
  replicate, some,
}
use alsa_gobject.Platform.{
  Platform, Reply, answer, errno, local, Outcome, fault, ended, success, failure,
}
use alsa_gobject.Ctl.Card.{CardError, elem_owned, elem_error, elem_error_or}

-- `struct snd_ctl_tlv`
pub record Packet : Type 0 where
  pub numid : ℕ
  pub length : ℕ
  pub tlv : List ℕ

-- What the callers get back: the container, its bytes replaced from the front, and the new count.
pub record Container : Type 0 where
  pub bytes : List ℕ
  pub count : ℕ

-- `packet->length` has 32 bits.
abbrev pub packet_length : List ℕ → ℕ
packet_length bytes = length bytes / 4 * 4 % 2 ^ 32

-- The copy behind a read or a command; it is undefined if it reads behind the packet, or writes
-- behind the container.
unfoldable pub copy_packet : List ℕ → Packet → Outcome CardError Container
copy_packet bytes packet =
    if leb packet.length (min (length packet.tlv) (length bytes))
    then ended (
        success (record {
          bytes = take packet.length packet.tlv ++ drop packet.length bytes;
          count = packet.length / 4;
        }))
    else fault

module _ (p : Platform) where
  unfoldable pub write_elem_tlv :
      (Packet → Reply (Unit {0})) → ℕ → List ℕ → Outcome CardError (Unit {0})
  write_elem_tlv tlv_write numid bytes =
      if ltb (length bytes / 4) 2
      then ended (failure none)
      else (elim (tlv_write (record { numid = numid; length = packet_length bytes; tlv = bytes })) [
        | answer done ↦ ended (success tt)
        | errno e ↦ ended (failure (some (local (elem_error_or p p.eperm elem_owned e))))
      ])

  -- The driver fills the zero bytes of the packet.
  unfoldable pub read_elem_tlv : (Packet → Reply Packet) → ℕ → List ℕ → Outcome CardError Container
  read_elem_tlv tlv_read numid bytes =
      if ltb (length bytes / 4) 2
      then ended (failure none)
      else (elim (tlv_read (record {
        numid = numid;
        length = packet_length bytes;
        tlv = replicate (length bytes) 0;
      })) [
        | answer packet ↦ copy_packet bytes packet
        | errno e ↦ ended (failure (some (local (elem_error p e))))
      ])

  unfoldable pub command_elem_tlv :
      (Packet → Reply Packet) → ℕ → List ℕ → Outcome CardError Container
  command_elem_tlv tlv_command numid bytes =
      if ltb (length bytes / 4) 2
      then ended (failure none)
      else (elim (tlv_command
          (record { numid = numid; length = packet_length bytes; tlv = bytes })) [
            | answer packet ↦ copy_packet bytes packet
            | errno e ↦ ended (failure (some (local (elem_error_or p p.eperm elem_owned e))))
          ])
