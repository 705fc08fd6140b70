-- ===== src/Inbound/Persist/Patch.antt =====
-- What a second snapshot of the same path does to a row of the table of received messages.
use hi_wave_tel.Prelude.{
  ◌≤◌, ◌≡◌, refl, inl, inr, Text, true, false, ◌&&◌, ◌||◌, not, [], ◌∷◌, if◌then◌else◌, ltb, length,
  is_empty, strip, lower, strip-strip, ap, arith, Bool-cases,
}
use hi_wave_tel.Models.{InboundSms}
use hi_wave_tel.Inbound.{Field, inbound_field_should_update, is_stale_mm_state, normalize_mm_state}
use hi_wave_tel.Inbound.Persist.{Snapshot, patched, patch_columns, needs_patch}

-- A field that has just been patched with a value is not patched with it again.
should_update_self : (f : Field) (v : Text) → inbound_field_should_update f v v ≡ false
unfolding inbound_field_should_update
should_update_self Field.text v = ground arith
should_update_self Field.mm_state v = ground arith
should_update_self Field.from_number v = ground arith
should_update_self Field.smsc v = ground arith
should_update_self Field.modem_timestamp_raw v = ground arith

patched-settles :
    (f : Field) (current desired : Text)
    → inbound_field_should_update f (patched f current desired current) desired ≡ false
unfolding patched
patched-settles f current desired =
    elim (Bool-cases (inbound_field_should_update f current desired)) [
      | inl y ↦ rw y (should_update_self f desired)
      | inr n ↦ rw n n
    ]

empty-length : (s : Text) → is_empty s ≡ true → length s ≡ 0
empty-length [] h = refl
empty-length (c ∷ cs) h = absurd (ground arith)

longer_text :
    (a b : Text)
    → (if is_empty b then false else is_empty a || ltb (length a) (length b)) ≡ true
    → length a ≤ length b
longer_text a b h = elim (Bool-cases (is_empty a)) [
  | inl e ↦ omega (arith, empty-length a e)
  | inr e ↦ ground arith
]

patched-text_grows :
    (current desired : Text)
    → length (strip current) ≤ length (strip (patched Field.text current desired current))
unfolding patched
patched-text_grows current desired =
    elim (Bool-cases (inbound_field_should_update Field.text current desired)) [
      | inl y ↦
          rw y (unfold inbound_field_should_update in longer_text (strip current) (strip desired) y)
      | inr n ↦ rw n (omega arith)
    ]

fresh_not_empty : (s : Text) → is_stale_mm_state s ≡ false → is_empty s ≡ false
unfolding is_stale_mm_state
fresh_not_empty [] h = absurd (ground arith)
fresh_not_empty (c ∷ cs) h = refl

normalize-strip : (s : Text) → normalize_mm_state (strip s) ≡ normalize_mm_state s
unfolding normalize_mm_state
normalize-strip s = ap lower (strip-strip s)

-- A state that is not stale stays.
keeps_state :
    (current desired : Text)
    → is_stale_mm_state (normalize_mm_state current) ≡ false
    → inbound_field_should_update Field.mm_state current desired ≡ false
unfolding inbound_field_should_update
keeps_state current desired h =
    let fresh = fresh_not_empty (normalize_mm_state current) h in
    rw (normalize-strip current, h, fresh) (ground arith)

-- A text that is there stays.
keeps_filled :
    (s d : Text)
    → is_empty (strip s) ≡ false
    → (is_empty (strip s) && not (is_empty (strip d))) ≡ false
keeps_filled s d h = ground arith

-- What a refresh leaves of a row: the text is as long as before or longer, and what is known stays.
abbrev pub Refreshed : InboundSms → InboundSms → Type 0
Refreshed r r' =
    (length (strip r.text) ≤ length (strip r'.text))
    × (is_stale_mm_state (normalize_mm_state r.mm_state) ≡ false → r'.mm_state ≡ r.mm_state)
    × (is_empty (strip r.from_number) ≡ false → r'.from_number ≡ r.from_number)
    × (is_empty (strip r.smsc) ≡ false → r'.smsc ≡ r.smsc)
    × (is_empty (strip r.modem_timestamp_raw) ≡ false
        → r'.modem_timestamp_raw ≡ r.modem_timestamp_raw)

-- A row that is patched with a snapshot loses nothing: its text is not shorter, a state that is not
-- stale and the other fields that are filled are as they were. The same snapshot again patches nothing.
pub patch_columns-settles :
    (obj : InboundSms) (d : Snapshot)
    → Refreshed obj (patch_columns obj d obj) × (needs_patch (patch_columns obj d obj) d ≡ false)
unfolding patch_columns needs_patch
patch_columns-settles obj d = (
  (
    patched-text_grows obj.text d.text,
    (λ h. unfold patched in rw (keeps_state obj.mm_state d.mm_state h) refl),
    (λ h. unfold patched inbound_field_should_update in rw (keeps_filled _ _ h) refl),
    (λ h. unfold patched inbound_field_should_update in rw (keeps_filled _ _ h) refl),
    (λ h. unfold patched inbound_field_should_update in rw (keeps_filled _ _ h) refl),
  ),
  rw
      (
        patched-settles Field.from_number obj.from_number d.from_number,
        patched-settles Field.text obj.text d.text,
        patched-settles Field.mm_state obj.mm_state d.mm_state,
        patched-settles Field.smsc obj.smsc d.smsc,
        patched-settles Field.modem_timestamp_raw obj.modem_timestamp_raw d.modem_timestamp_raw,
      )
      refl,
)
