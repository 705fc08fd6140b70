-- ===== src/Inbound/Stale/Counts.antt =====
-- What the figures of a refresh count.
use mathlib.Core.List.{Perm}
use hi_wave_tel.Prelude.{
  ℕ, suc, none, some, codes, not, ◌&&◌, ◌||◌, ◌+◌, ◌≤◌, ◌≡◌, ◌⊎◌, Bool, true, Option, List, [], ◌∷◌,
  filter, is_empty, length, strip,
}
use hi_wave_tel.Runtime.Exn.{path_unavailable}
use hi_wave_tel.Runtime.Exec.{Result, ok, err}
use hi_wave_tel.Models.{InboundSms, inbound_keyed, row}
use hi_wave_tel.World.{Env, World}
use hi_wave_tel.World.Calm.{IsCalm, counted_call}
use hi_wave_tel.Inbound.{normalize_mm_state, is_stale_mm_state, is_unavailable_mm_state}
use hi_wave_tel.Inbound.Persist.{Persisted, persist_inbound_sms}
use hi_wave_tel.Inbound.Stale.Order.{IsSortedByPk}
use hi_wave_tel.Inbound.Stale.{StaleStats, no_stats, one_if, given_back, is_stale_row}

-- A figure that counts the row, which it does only where `p` holds of the row, or leaves it out.
abbrev pub Grows : Bool → ℕ → ℕ → Type 0
Grows p a b = (b ≡ a) ⊎ ((b ≡ suc a) × (p ≡ true))

-- The row is checked once. It is marked as unavailable, and in no other figure; or it is not marked, and
-- its text counts as filled only if it was blank, its state as updated only if it was not settled.
abbrev pub CountedOnce : InboundSms → StaleStats → StaleStats → Type 0
CountedOnce r s t =
    (t.checked ≡ suc s.checked)
    × (((t.marked_unavailable ≡ suc s.marked_unavailable)
          × (t.text_filled ≡ s.text_filled)
          × (t.state_updated ≡ s.state_updated)
          × (t.still_stale ≡ s.still_stale))
        ⊎ ((t.marked_unavailable ≡ s.marked_unavailable)
            × Grows (is_empty (strip r.text)) s.text_filled t.text_filled
            × Grows (is_stale_mm_state (normalize_mm_state r.mm_state)) s.state_updated
                t.state_updated
            × Grows true s.still_stale t.still_stale))

-- A row that is gone stays gone.
abbrev pub MarkedIfThere : Option InboundSms → Option InboundSms → Type 0
MarkedIfThere none o = o ≡ none
MarkedIfThere (some q) o =
    (q' : InboundSms) × (o ≡ some q') × (q'.mm_state ≡ codes "unavailable") × (q'.text ≡ q.text)

-- The message is still stale as it was read: it has no text, or its state is not settled.
abbrev pub still_unread : InboundSms → Bool
still_unread a = is_empty (strip a.text) || is_stale_mm_state (normalize_mm_state a.mm_state)

abbrev pub is_lost : InboundSms → Bool
is_lost a = is_unavailable_mm_state (normalize_mm_state a.mm_state)

-- How the attempt to store the message again is counted, and what it leaves.
abbrev pub RowRead :
    InboundSms → StaleStats → StaleStats → Result Persisted × World → World → Type 0
RowRead r s t (ok updated, v) u =
    (u ≡ v)
    × (t.marked_unavailable ≡ s.marked_unavailable + one_if (is_lost (given_back updated)))
    × (t.still_stale
        ≡ s.still_stale
          + one_if (not (is_lost (given_back updated)) && still_unread (given_back updated)))
RowRead r s t (err (path_unavailable p), v) u =
    (t.marked_unavailable ≡ suc s.marked_unavailable)
    × MarkedIfThere (row r.pk v.inbound) (row r.pk u.inbound)
RowRead r s t (err x, v) u = (t.still_stale ≡ suc s.still_stale) × (u ≡ v)

-- The rows in turn, each read in the world that the one before left.
abbrev pub AllRead : Env → List InboundSms → StaleStats → World → StaleStats → World → Type 0
AllRead env [] s w t u = (t ≡ s) × (u ≡ w)
AllRead env (r ∷ rs) s w t u =
    (s1 : StaleStats) × (w1 : World) × CountedOnce r s s1
    × RowRead r s s1 (persist_inbound_sms env r.mm_path r.modem_index w) w1
    × AllRead env rs s1 w1 t u

-- How far the figures of `n` rows are from each other.
abbrev pub Tallied : ℕ → StaleStats → StaleStats → Type 0
Tallied n s t =
    (t.checked ≡ s.checked + n)
    × (t.marked_unavailable + t.still_stale ≤ s.marked_unavailable + s.still_stale + n)
    × (t.marked_unavailable + t.text_filled ≤ s.marked_unavailable + s.text_filled + n)
    × (t.marked_unavailable + t.state_updated ≤ s.marked_unavailable + s.state_updated + n)

module _ (env : Env) (calm : IsCalm env) where
  abbrev RowOutcome :
      InboundSms → StaleStats → Result Persisted × World → Result StaleStats × World → Type 0
  RowOutcome r s p out =
      (t : StaleStats) × (u : World) × (out ≡ (ok t, u)) × CountedOnce r s t × RowRead r s t p u

  -- The rows of the table that the query selects.
  abbrev pub stale_rows : Option ℕ → World → List InboundSms
  stale_rows modem_index w = filter (is_stale_row modem_index) w.inbound

  abbrev pub Refreshed : Option ℕ → World → Result StaleStats × World → Type 0
  Refreshed modem_index w out =
      (rows : List InboundSms) × (t : StaleStats) × (u : World) × (out ≡ (ok t, u))
      × Perm rows (stale_rows modem_index w)
      × IsSortedByPk rows
      × AllRead env rows no_stats (counted_call w) t u
      × Tallied (length (stale_rows modem_index w)) no_stats t
