-- ===== src/Inbound/Stale.antt =====
-- apps/sms/services.py: refresh_stale_inbound_sms_rows, which reads the messages again that have no text
-- or are not assembled. The rows of the query are read before the loop.
pub mod Counts
pub mod Order
use hi_wave_tel.Prelude.{
  ℕ, suc, ◌+◌, ◌≤◌, ◌≡◌, inl, inr, Text, codes, Bool, true, false, ◌&&◌, ◌||◌, not, Option, none,
  some, List, [], ◌∷◌, if◌then◌else◌, ◌==◌, ltb, filter, is_empty, length, lower, strip, text_eq,
  Bool-cases, arith,
}
use hi_wave_tel.Runtime.Exn.{Exn, path_unavailable}
use hi_wave_tel.Runtime.Exec.{ok, pure, try_else, ◌>>=◌, ◌>>◌}
use hi_wave_tel.Models.{InboundSms, inbound_keyed, update_row}
use hi_wave_tel.World.{Env, World, Act, statement, query}
use hi_wave_tel.Inbound.{normalize_mm_state, is_stale_mm_state, is_unavailable_mm_state}
use hi_wave_tel.Inbound.Persist.{Persisted, stored, rejected, persist_inbound_sms, unavailable}

-- mm_state__iexact
abbrev same_state : Text → Text → Bool
same_state s state = text_eq (lower s) state

abbrev of_modem : Option ℕ → InboundSms → Bool
of_modem none r = true
of_modem (some n) r = r.modem_index == n

-- the filter of _stale_inbound_sms_queryset
unfoldable pub is_stale_row : Option ℕ → InboundSms → Bool
unfolding lower text_eq
is_stale_row modem_index r =
    not (same_state r.mm_state (codes "unavailable"))
    && (is_empty r.text
        || same_state r.mm_state (codes "receiving")
        || same_state r.mm_state (codes "unknown"))
    && of_modem modem_index r

-- order_by('pk')
unfoldable pub insert_by_pk : InboundSms → List InboundSms → List InboundSms
insert_by_pk r [] = r ∷ []
insert_by_pk r (q ∷ qs) = if ltb q.pk r.pk then q ∷ insert_by_pk r qs else r ∷ q ∷ qs

unfoldable pub by_pk : List InboundSms → List InboundSms
unfolding insert_by_pk
by_pk [] = []
by_pk (r ∷ rs) = insert_by_pk r (by_pk rs)

pub record StaleStats : Type 0 where
  pub checked : ℕ
  pub text_filled : ℕ
  pub state_updated : ℕ
  pub still_stale : ℕ
  pub marked_unavailable : ℕ

abbrev pub no_stats : StaleStats
no_stats = record {
  checked = 0;
  text_filled = 0;
  state_updated = 0;
  still_stale = 0;
  marked_unavailable = 0;
}

abbrev pub one_if : Bool → ℕ
one_if true = 1
one_if false = 0

abbrev pub marked : StaleStats → StaleStats
marked s = record s { marked_unavailable = suc s.marked_unavailable }

abbrev pub given_back : Persisted → InboundSms
given_back (stored obj) = obj
given_back (rejected obj) = obj

-- the figures of a row that was read again, from its texts and states before and after
unfoldable pub count_read : InboundSms → InboundSms → StaleStats → StaleStats
unfolding strip normalize_mm_state is_stale_mm_state is_unavailable_mm_state
count_read before after s =
    let after_empty = is_empty (strip after.text) in
    let after_state = normalize_mm_state after.mm_state in
    if is_unavailable_mm_state after_state then marked s else record s {
      text_filled = s.text_filled + one_if (is_empty (strip before.text) && not after_empty);
      state_updated =
          s.state_updated
          + one_if (
              is_stale_mm_state (normalize_mm_state before.mm_state)
              && not (is_stale_mm_state after_state));
      still_stale = s.still_stale + one_if (after_empty || is_stale_mm_state after_state);
    }

module _ (env : Env) where
  unfoldable pub mark_row_unavailable : ℕ → Act (Unit {0})
  unfolding update_row
  mark_row_unavailable pk =
      statement env λ w. (ok tt, record w { inbound = update_row pk (unavailable env) w.inbound })

  abbrev pub read_failed : InboundSms → StaleStats → Exn → Act StaleStats
  read_failed r s (path_unavailable p) = mark_row_unavailable r.pk >> pure (marked s)
  read_failed r s exc = pure (record s { still_stale = suc s.still_stale })

  -- the body of the loop
  unfoldable pub refresh_row : StaleStats → InboundSms → Act StaleStats
  unfolding count_read
  refresh_row s r =
      let s' : StaleStats = record s { checked = suc s.checked } in
      try_else (persist_inbound_sms env r.mm_path r.modem_index) (read_failed r s')
        (λ updated. pure (count_read r (given_back updated) s'))

  unfoldable pub refresh_rows : StaleStats → List InboundSms → Act StaleStats
  refresh_rows s [] = pure s
  refresh_rows s (r ∷ rs) = do s' ← refresh_row s r; refresh_rows s' rs

  unfoldable pub refresh_stale_inbound_sms_rows : Option ℕ → Act StaleStats
  unfolding by_pk is_stale_row
  refresh_stale_inbound_sms_rows modem_index = do
    rows ← query env (λ w. by_pk (filter (is_stale_row modem_index) w.inbound))
    refresh_rows no_stats rows
