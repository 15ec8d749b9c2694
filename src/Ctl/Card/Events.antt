-- ===== src/Ctl/Card/Events.antt =====
-- src/ctl/card.c: the source of events of a card. `parse` reads a `struct snd_ctl_event` of
-- `event_size` bytes at the front of some bytes.
pub mod Queue
pub mod Subscription
use alsa_gobject.Base.{
  ℕ, zero, suc, ◌+◌, ◌-◌, ◌*◌, ◌^◌, Bool, true, false, ◌||◌, not, if◌then◌else◌, ◌==◌, leb, ltb,
  Option, none, some, List, [], ◌∷◌, drop, take,
}
use alsa_gobject.Platform.{Platform, Reply, answer, errno, local, Ended, success, failure}
use alsa_gobject.Ctl.Card.{CardError, ElemId, Card, device_error}

-- An event of an element; `Ident` is `struct snd_ctl_elem_id`, which is handed on as it is.
pub record ElemEvent (Ident : Type 0) : Type 0 where
  pub mask : ℕ
  pub id : Ident

-- An event of an element, or of another type.
pub data CtlEvent (Ident : Type 0) : Type 0 where
  elem : ElemEvent Ident → CtlEvent Ident
  unknown : CtlEvent Ident

pub data Signal (Ident : Type 0) : Type 0 where
  handle_elem_event : Ident → ℕ → Signal Ident
  handle_disconnection : Signal Ident

-- `G_SOURCE_REMOVE` and `G_SOURCE_CONTINUE`
pub data SourceEnd : Type 0 where
  remove continue : SourceEnd

-- The conditions of a descriptor.
pub record Condition : Type 0 where
  pub io_in : Bool
  pub io_err : Bool

-- `SNDRV_CTL_EVENT_MASK_REMOVE` is `~0U`; the flags of the library have `1 << 4` in its place, the
-- bit above `SNDRV_CTL_EVENT_MASK_TLV`.
abbrev pub kernel_mask_remove : ℕ
kernel_mask_remove = 2 ^ 32 - 1

unfoldable pub elem_event_signal : {Ident : Type 0} → ℕ → ElemEvent Ident → Signal Ident
elem_event_signal event_mask_tlv ev =
    handle_elem_event ev.id (if ev.mask == kernel_mask_remove then event_mask_tlv * 2 else ev.mask)

unfoldable pub check_src : Condition → Bool
check_src c = c.io_in || c.io_err

module _ {Ident : Type 0} (event_mask_tlv : ℕ) (event_size : ℕ)
    (parse : List ℕ → CtlEvent Ident) where
  -- The loop over the bytes that were read; each round takes one event from them, so that fuel for
  -- as many rounds as there are bytes is enough.
  unfoldable pub handle_events : ℕ → ℕ → List ℕ → List (Signal Ident)
  handle_events zero len buf = []
  handle_events (suc fuel) len buf =
      let rest = handle_events fuel (len - event_size) (drop event_size buf) in
      if leb event_size len
      then (elim (parse buf) [
        | elem ev ↦ elem_event_signal event_mask_tlv ev ∷ rest
        | unknown ↦ rest
      ])
      else []

  -- The signals that a dispatch emits; the reply is that of `read`, with its result and the bytes.
  unfoldable pub dispatch_src :
      Platform → Card → Condition → Reply (ℕ × List ℕ) → List (Signal Ident) × SourceEnd
  dispatch_src p self c reply = elim (self.fd) [
    | none ↦ ([], remove)
    | some fd ↦ if c.io_err then (handle_disconnection ∷ [], remove) else (elim reply [
      | errno e ↦ ([], if e == p.eagain then continue else remove)
      | answer (len, buf) ↦ (handle_events len len buf, continue)
    ])
  ]

-- The card, and whether the kernel delivers events for its descriptor.
pub record World : Type 0 where
  pub card : Card
  pub subscribed : Bool

-- The property `subscribed` of the card.
unfoldable pub get_subscribed : Card → Bool
get_subscribed card = ltb 0 card.subscribers

-- `finalize` of a source. `subscribe` is 0 for the `ioctl`, whose error is ignored: `kept` is what
-- the kernel keeps of the subscription if it refuses.
unfoldable pub finalize_src : World → Reply (Unit {0}) → World
finalize_src w reply =
    let left = w.card.subscribers - 1 in
    let card' = record (w.card) { subscribers = left } in
    if left == 0
    then (elim reply [
      | answer done ↦ record { card = card'; subscribed = false }
      | errno e ↦ record { card = card'; subscribed = w.subscribed }
    ])
    else record { card = card'; subscribed = w.subscribed }

-- A source is created, and the kernel is asked to subscribe; where it refuses, the source is given
-- up, which finalizes it, with an `ioctl` of its own.
unfoldable pub create_source :
    Platform → World → Reply (Unit {0}) → Reply (Unit {0}) → World × Ended CardError (Unit {0})
create_source p w subscribe unsubscribe = elim (w.card.fd) [
  | none ↦ (w, failure none)
  | some fd ↦
      let card' = record (w.card) { subscribers = w.card.subscribers + 1 } in
      elim subscribe [
        | answer done ↦ (record { card = card'; subscribed = true }, success tt)
        | errno e ↦ (
          finalize_src (record { card = card'; subscribed = w.subscribed }) unsubscribe,
          failure (some (local (device_error p e))),
        )
      ]
]
