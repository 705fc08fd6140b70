-- ===== src/Inbound.antt =====
-- apps/sms/services.py, the inbound half: an SMS object of the modem is read until its text is there,
-- and stored in the table of received messages. The locks of mmcli and of SQLite are left out: the
-- model runs one operation at a time.
pub mod Signal
pub mod Persist
pub mod Announce
pub mod Polling
pub mod Recovery
pub mod Stale
use hi_wave_tel.Prelude.{
  ℕ, zero, suc, ◌+◌, ◌-◌, ◌/◌, max, Text, codes, Bool, true, false, ◌&&◌, ◌||◌, not, Option, none,
  some, List, [], ◌∷◌, ◌++◌, if◌then◌else◌, leb, ltb, ◌==◌, length, is_empty, is_some, any, find,
  map, strip, lower, contains, text_eq, text_in, or_else,
}
use hi_wave_tel.Runtime.Exn.{Exn, MmcliError, mmcli, path_unavailable, is_busy, message}
use hi_wave_tel.Runtime.Exec.{
  Exec, Result, ok, err, pure, raise, gets, modify, try_else, ◌>>=◌, ◌>>◌,
}
use hi_wave_tel.Runtime.Retry.{with_sqlite_retry}
use hi_wave_tel.Models.{InboundSms, inbound_keyed, row, update_row}
use hi_wave_tel.World.{
  Env, World, Act, statement, query, sqlite_nap, sleep, increment, no_rows_affected,
  mmcli_show_retries, multipart_detected, inbound_whitelist_rejected, persist_success,
  empty_text_persisted,
}
use hi_wave_tel.Mmcli.{show_sms}
use hi_wave_tel.Mmcli.Snapshot.{
  Details, get, extract_from_number, extract_text, extract_state, extract_smsc, extract_timestamp,
}
use hi_wave_tel.Dlq.{remove_by_path}

unfoldable pub mmcli_sms_path_missing : MmcliError → Bool
mmcli_sms_path_missing exc =
    let haystack = lower (exc.message ++ codes "\n" ++ exc.stderr ++ codes "\n" ++ exc.stdout) in
    contains (codes "couldn't find sms") haystack
    || contains (codes "not found in any modem") haystack

unfoldable pub normalize_mm_state : Text → Text
unfolding strip lower
normalize_mm_state state = lower (strip state)

abbrev stale_mm_states : List Text
stale_mm_states = map codes ("receiving" ∷ "unknown" ∷ "" ∷ [])

-- _STALE_MM_STATES, _TERMINAL_MM_STATES, _UNAVAILABLE_MM_STATES, _RETRY_MMCLI_SHOW_WHILE_STATES
unfoldable pub is_stale_mm_state : Text → Bool
unfolding text_in
is_stale_mm_state s = text_in s stale_mm_states

unfoldable pub is_terminal_mm_state : Text → Bool
unfolding text_in
is_terminal_mm_state s = text_in s (map codes ("received" ∷ "stored" ∷ "sent" ∷ "delivered" ∷ []))

unfoldable pub is_unavailable_mm_state : Text → Bool
unfolding text_in
is_unavailable_mm_state s = text_in s (map codes ("unavailable" ∷ "missing" ∷ []))

-- The fields of `defaults` that a later snapshot may patch.
pub data Field : Type 0 where
  from_number text mm_state smsc modem_timestamp_raw : Field

unfoldable pub inbound_field_should_update : Field → Text → Text → Bool
unfolding strip normalize_mm_state is_stale_mm_state
inbound_field_should_update text current desired =
    let cur = strip current in
    let des = strip desired in
    if is_empty des then false else is_empty cur || ltb (length cur) (length des)
inbound_field_should_update mm_state current desired =
    let cur = strip current in
    let des = strip desired in
    if is_empty des
    then false
    else if is_stale_mm_state (normalize_mm_state cur)
        && not (is_stale_mm_state (normalize_mm_state des))
    then true
    else is_empty (normalize_mm_state cur) && not (is_empty (normalize_mm_state des))
inbound_field_should_update _ current desired =
    is_empty (strip current) && not (is_empty (strip desired))

unfoldable pub should_retry_empty_mmcli_snapshot : Details → Text → Bool
unfolding text_in strip extract_from_number extract_timestamp
should_retry_empty_mmcli_snapshot raw state_norm =
    ((not (is_empty (strip (extract_from_number raw)))
        || not (is_empty (strip (extract_timestamp raw))))
      && not (text_in state_norm (map codes ("failed" ∷ "unknown" ∷ []))))
    || text_in state_norm (map codes ("receiving" ∷ "unknown" ∷ []))

-- A setting of 0 or less is replaced by its default.
abbrev pub positive_or : ℕ → ℕ → ℕ
positive_or d zero = d
positive_or d (suc n) = suc n

abbrev pub empty_backoff : Env → ℕ
empty_backoff env = positive_or 1500000 env.empty_text_backoff

abbrev pub receiving_max_wait : Env → ℕ
receiving_max_wait env = positive_or 60000000 env.receiving_max_wait

abbrev pub max_snapshot_tries : Env → ℕ
max_snapshot_tries env = max 1 env.empty_text_retries

module _ (env : Env) where
  -- mm.show_sms, with the errors that the polling loop handles
  abbrev show_failed : Text → Exn → Act Details
  show_failed mm_path (mmcli e) =
      if mmcli_sms_path_missing e then raise (path_unavailable mm_path) else pure []
  show_failed mm_path exc = raise exc

  unfoldable pub show_or_empty : Text → Act Details
  show_or_empty mm_path = try_else (show_sms env mm_path) (show_failed mm_path) pure

  -- What one round of the loop does with its snapshot: it stops, or sleeps for another round.
  unfoldable pub polls_again : (snap_attempt elapsed : ℕ) → Details → Bool
  unfolding strip extract_text extract_state normalize_mm_state should_retry_empty_mmcli_snapshot
      text_eq is_terminal_mm_state
  polls_again snap_attempt elapsed raw =
      let state = normalize_mm_state (extract_state raw) in
      let keep_trying = should_retry_empty_mmcli_snapshot raw state in
      let last = not (ltb (suc snap_attempt) (max_snapshot_tries env)) in
      let assembling = text_eq state (codes "receiving") && ltb elapsed (receiving_max_wait env) in
      if not (is_empty (strip (extract_text raw)))
      then false
      else if assembling || (keep_trying && not last)
      then true
      else if is_terminal_mm_state state
      then false
      else if not keep_trying
      then false
      else not last

  unfoldable pub nap_between_snapshots : World → World
  unfolding sleep
  nap_between_snapshots w = sleep (empty_backoff env) w

  -- The polling loop; `none` is fuel that ran out.
  unfoldable pub poll_rounds : (fuel : ℕ) → Text → (started snap_attempt : ℕ) → Act (Option Details)
  poll_rounds zero mm_path started snap_attempt = pure none
  poll_rounds (suc fuel) mm_path started snap_attempt = do
    raw ← show_or_empty mm_path
    now ← gets (λ w. w.clock)
    elim (polls_again snap_attempt (now - started) raw) [
      | false ↦ pure (some raw)
      | true ↦ do
        increment mmcli_show_retries
        modify nap_between_snapshots
        poll_rounds fuel mm_path started (suc snap_attempt)
    ]

  -- Each round sleeps for `empty_backoff`, so the wait for assembly is over after the quotient.
  abbrev pub poll_fuel : ℕ
  poll_fuel = max_snapshot_tries env + receiving_max_wait env / empty_backoff env + 2

  unfoldable pub fetch_mmcli_snapshot_with_retries : Text → Act Details
  fetch_mmcli_snapshot_with_retries mm_path = do
    poll_started ← gets (λ w. w.clock)
    raw ← poll_rounds poll_fuel mm_path poll_started 0
    pure (or_else raw [])
