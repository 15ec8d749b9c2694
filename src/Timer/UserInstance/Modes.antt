-- ===== src/Timer/UserInstance/Modes.antt =====
-- The mode of events that the object keeps, and the one that the driver keeps.
use alsa_gobject.Base.{ℕ, ◌≡◌, refl, ap, sym, ◌∙◌, some, ◌↔◌, arith}
use alsa_gobject.Platform.{Platform, Reply, answer, errno}
use alsa_gobject.Timer.UserInstance.{
  UserInstance, EventType, tick_time, real_time, event_type_number, new, open_instance,
  choose_event_type,
}

-- An object and the mode of the driver for its descriptor.
pub record World : Type 0 where
  pub instance : UserInstance
  pub tread : ℕ

-- What the application may do, in any order: to open an instance that reads tick times, which one that is
-- not open yet does, and to choose the mode of events. The driver starts a new descriptor in the mode 0, it sets the mode of a descriptor that
-- is open when it does not refuse, and keeps it when it refuses.
pub data Step (p : Platform) : World → World → Type 0 where
  opened :
      (w : World) (reply pversion : Reply ℕ)
      → w.instance.event_type ≡ tick_time
      → Step p w (record { instance = (open_instance p w.instance reply pversion).0; tread = 0 })
  chosen :
      (w : World) (fd : ℕ) (t : EventType) (tread : ℕ → Reply (Unit {0}))
      → w.instance.fd ≡ some fd
      → tread (event_type_number t) ≡ answer tt
      → Step p w (record {
        instance = (choose_event_type p tread w.instance t).0;
        tread = event_type_number t;
      })
  refused :
      (w : World) (t : EventType) (tread : ℕ → Reply (Unit {0})) (e : ℕ)
      → tread (event_type_number t) ≡ errno e
      → Step p w (record { instance = (choose_event_type p tread w.instance t).0; tread = w.tread })

pub data Reachable (p : Platform) : World → Type 0 where
  fresh : Reachable p (record { instance = new; tread = 0 })
  next : (w w' : World) → Reachable p w → Step p w w' → Reachable p w'

number_zero : (t : EventType) → 0 ≡ event_type_number t → t ≡ tick_time
number_zero tick_time e = refl
number_zero real_time e = absurd (omega (arith, e))

module _ (p : Platform) where
  open_instance-event_type :
      (self : UserInstance) (reply pversion : Reply ℕ)
      → (open_instance p self reply pversion).0.event_type ≡ self.event_type
  unfolding open_instance
  open_instance-event_type self (errno e) pversion = refl
  open_instance-event_type self (answer fd) (errno e) = refl
  open_instance-event_type self (answer fd) (answer version) = refl

  Step-agreed :
      (w w' : World)
      → w.tread ≡ event_type_number w.instance.event_type
      → Step p w w'
      → w'.tread ≡ event_type_number w'.instance.event_type
  unfolding choose_event_type
  Step-agreed w w' h (opened _ reply pversion first) =
      sym (ap event_type_number (open_instance-event_type w.instance reply pversion ∙ first))
  Step-agreed w w' h (chosen _ fd t tread is_open done) = rw (choose_event_type, done)
  Step-agreed w w' h (refused _ t tread e failed) = rw (choose_event_type, failed) h

  new-agreed : 0 ≡ event_type_number (new.event_type)
  unfolding new
  new-agreed = refl

  open_instance-agreed :
      (self : UserInstance) (fd version : ℕ)
      → (0 ≡ event_type_number (open_instance p self (answer fd) (answer version)).0.event_type)
        ↔ (self.event_type ≡ tick_time)
  open_instance-agreed self fd version =
      let kept = open_instance-event_type self (answer fd) (answer version) in
      (
        (λ e. number_zero self.event_type (e ∙ ap event_type_number kept)),
        (λ e. sym (ap event_type_number (kept ∙ e))),
      )

  -- With a driver that starts a descriptor in the mode 0 and keeps its mode when it refuses
  -- another: after any sequence of openings of an instance that reads tick times, open or not, and of
  -- choices of the mode, granted or refused, the object reads the events in the mode in which the driver
  -- writes them. A further opening that succeeds, whose new descriptor is in the mode 0, keeps this up
  -- if and only if the instance reads tick times.
  pub Reachable-agreed :
      (w : World)
      → Reachable p w
      → (w.tread ≡ event_type_number w.instance.event_type)
        × ((fd version : ℕ)
            → (0
                ≡ event_type_number
                    (open_instance p w.instance (answer fd) (answer version)).0.event_type)
              ↔ (w.instance.event_type ≡ tick_time))
  Reachable-agreed w r = (agreed w r, open_instance-agreed w.instance)
    where
      agreed : (w : World) → Reachable p w → w.tread ≡ event_type_number w.instance.event_type
      agreed _ fresh = new-agreed
      agreed _ (next w w' r step) = Step-agreed w w' (agreed w r) step
