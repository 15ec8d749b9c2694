-- ===== src/Seq/Event/Delivering.antt =====
-- An event whose data can be read can be delivered.
use alsa_gobject.Base.{
  ℕ, bit_and, ◌≡◌, ◌≢◌, refl, sym, true, false, if◌then◌else◌, ◌==◌, ==_iff, ltb, arith, ◌⊎◌, inl,
  inr, Bool-cases, Option, some,
}
use alsa_gobject.Seq.Uapi.{
  Uapi, IsUapi, Union, Ext, Member, note, control, raw8, raw32, queue, addr, connect, result,
}
use alsa_gobject.Seq.Event.{Event, Ret, done, refused, EventError, get_length_mode, ◌>>=◌}
use alsa_gobject.Seq.Event.DataFlag
use alsa_gobject.Seq.Event.Types.{
  seq_event_data_flags, validate_event_type, validate_event_type_and_length, check_length_mode,
  expected_length_mode, is_fixed_flag,
}
use alsa_gobject.Seq.Event.Read.{data_flag, get_member, get_blob_data, get_pointer_data}
use alsa_gobject.Seq.Event.Storage.{expected_length_mode-data_flag}
use alsa_gobject.Seq.Event.Blobs.{expected_length_mode-blob}
use alsa_gobject.Seq.Event.Flatten.{seq_event_is_deliverable}

-- A type that takes the data of a flag takes some data of the class `any`.
abbrev Within : ℕ → ℕ → Type 0
Within flag any =
    (kind : ℕ)
    → (bit_and (seq_event_data_flags kind) flag == 0) ≡ false
    → ltb 0 (bit_and (seq_event_data_flags kind) any) ≡ true

blob-variable_any : Within DataFlag.blob DataFlag.variable_any
unfolding seq_event_data_flags
blob-variable_any kind = ground arith

pointer-varusr_any : Within DataFlag.pointer DataFlag.varusr_any
unfolding seq_event_data_flags
pointer-varusr_any kind = ground arith

data_flag-fixed_any : (m : Member) → Within (data_flag m) DataFlag.fixed_any
unfolding seq_event_data_flags
data_flag-fixed_any note kind = ground arith
data_flag-fixed_any control kind = ground arith
data_flag-fixed_any raw8 kind = ground arith
data_flag-fixed_any raw32 kind = ground arith
data_flag-fixed_any queue kind = ground arith
data_flag-fixed_any addr kind = ground arith
data_flag-fixed_any connect kind = ground arith
data_flag-fixed_any result kind = ground arith

expected_length_mode-pointer :
    (u : Uapi) → expected_length_mode u DataFlag.pointer ≡ some u.event_length_varusr
unfolding expected_length_mode is_fixed_flag
expected_length_mode-pointer u = refl

Ret-cases : (r : Ret (Unit {0})) → (r ≡ done tt) ⊎ ((e : Option EventError) × (r ≡ refused e))
Ret-cases (done tt) = inl refl
Ret-cases (refused e) = inr (e, refl)

bind_done :
    {A : Type 0} (r : Ret (Unit {0})) (a b : A) → (r >>= (λ t. done a)) ≡ done b → r ≡ done tt
bind_done (done t) a b e = refl
bind_done (refused x) a b e = absurd (cc e)

same_test : (a : ℕ) → (a == a) ≡ true
same_test a = (==_iff a a).1 refl

ne_test : (a b : ℕ) → a ≢ b → (b == a) ≡ false
ne_test a b ne = ground arith

module _ (u : Uapi) {Raw : Type 0} where
  -- What a validation has seen.
  validated :
      (ev : Event Raw) (flag mode : ℕ)
      → expected_length_mode u flag ≡ some mode
      → validate_event_type_and_length u ev flag ≡ done tt
      → ((bit_and (seq_event_data_flags ev.kind) flag == 0) ≡ false) × (get_length_mode u ev ≡ mode)
  unfolding validate_event_type_and_length validate_event_type check_length_mode
  validated ev flag mode expected e =
      elim (Bool-cases (bit_and (seq_event_data_flags ev.kind) flag == 0)) [
        | inl unfit ↦ absurd (cc (rw (unfit, ◌>>=◌, if◌then◌else◌) at e))
        | inr fit ↦ elim (Bool-cases (get_length_mode u ev == mode)) [
          | inl same ↦ (fit, (==_iff (get_length_mode u ev) mode).0 same)
          | inr other ↦ absurd (cc (rw (fit, expected, other, ◌>>=◌, if◌then◌else◌) at e))
        ]
      ]

module _ (u : Uapi) (law : IsUapi u) (U : Union) where
  -- An event from which the data of a member can be read can be delivered, unless it is a note that goes
  -- past the queues.
  pub get_member-deliverable :
      (m : Member) (ev : Event U.Raw) (s : U.Struct m)
      → get_member u U m ev ≡ done s
      → (ev.kind ≡ u.event_note → ev.queue ≢ u.queue_direct)
      → seq_event_is_deliverable u U ev ≡ true
  unfolding get_member seq_event_is_deliverable
  get_member-deliverable m ev s e queued =
      let valid =
        bind_done (validate_event_type_and_length u ev (data_flag m)) (U.get m ev.content) s e in
      let (fit, mode) =
        validated u ev (data_flag m) u.event_length_fixed (expected_length_mode-data_flag u m)
          valid in
      rw (mode, same_test u.event_length_fixed, if◌then◌else◌)
        (elim (Bool-cases (ev.kind == u.event_note)) [
          | inl is_note ↦ rw (
            is_note,
            ne_test u.queue_direct ev.queue
                (λ q. queued ((==_iff ev.kind u.event_note).0 is_note) (sym q)),
            if◌then◌else◌,
          )
          | inr other ↦ rw (other, if◌then◌else◌) (data_flag-fixed_any m ev.kind fit)
        ])

  -- An event from which a blob can be read can be delivered.
  pub get_blob_data-deliverable :
      (ev : Event U.Raw) (blob : Ext)
      → get_blob_data u U ev ≡ done blob
      → seq_event_is_deliverable u U ev ≡ true
  unfolding get_blob_data seq_event_is_deliverable
  get_blob_data-deliverable ev blob e =
      let valid =
        bind_done (validate_event_type_and_length u ev DataFlag.blob) (U.get_ext ev.content) blob
          e in
      let (fit, mode) =
        validated u ev DataFlag.blob u.event_length_variable (expected_length_mode-blob u) valid in
      rw
        (
          mode,
          ne_test u.event_length_fixed u.event_length_variable law.fixed-ne-variable,
          same_test u.event_length_variable,
          if◌then◌else◌,
        )
        (blob-variable_any ev.kind fit)

  -- An event from which a pointer can be read can be delivered if and only if it goes past the queues.
  pub get_pointer_data-deliverable :
      (ev : Event U.Raw) (data' : Ext)
      → get_pointer_data u U ev ≡ done data'
      → seq_event_is_deliverable u U ev ≡ (ev.queue == u.queue_direct)
  unfolding get_pointer_data seq_event_is_deliverable
  get_pointer_data-deliverable ev data' e =
      let valid =
        bind_done (validate_event_type_and_length u ev DataFlag.pointer) (U.get_ext ev.content)
          data' e in
      let (fit, mode) =
        validated u ev DataFlag.pointer u.event_length_varusr (expected_length_mode-pointer u)
          valid in
      rw (
        mode,
        ne_test u.event_length_fixed u.event_length_varusr law.fixed-ne-varusr,
        ne_test u.event_length_variable u.event_length_varusr law.variable-ne-varusr,
        same_test u.event_length_varusr,
        pointer-varusr_any ev.kind fit,
        if◌then◌else◌,
      )
