-- ===== src/Dlq.antt =====
-- apps/sms/dead_letter_queue.py: SmsDeadLetterQueue, a table in a SQLite file of its own. Each method
-- is one transaction under the queue's lock. Instants that are printed compare as the instants do.
pub mod Bounds
use hi_wave_tel.Prelude.{
  ℕ, zero, suc, ◌+◌, ◌*◌, ◌^◌, min, Text, codes, Bool, true, false, ◌&&◌, not, Option, none, some,
  List, [], ◌∷◌, ◌++◌, if◌then◌else◌, leb, ltb, ◌==◌, length, filter, any, map, take, text_eq,
}
use hi_wave_tel.Runtime.Exn.{raised}
use hi_wave_tel.Runtime.Exec.{Result, ok, err, pure, ◌>>=◌, ◌>>◌}
use hi_wave_tel.Models.{DlqRow, dlq_keyed, row, update_row, delete_row, update_where}
use hi_wave_tel.World.{Env, World, Act, increment, persist_failed, dlq_enqueued}

abbrev pub has_path : Text → DlqRow → Bool
has_path sms_path r = text_eq r.sms_path sms_path

-- ON CONFLICT(sms_path) DO UPDATE
abbrev pub refreshed : Text → ℕ → DlqRow → DlqRow
refreshed error now r = record r {
  last_error = take 2000 error;
  failed_at = now;
  next_retry_at = some now;
}

abbrev pub new_row : ℕ → Text → ℕ → Text → ℕ → DlqRow
new_row id sms_path modem_index error now = record {
  id = id;
  sms_path = sms_path;
  modem_index = modem_index;
  failed_at = now;
  retry_count = 0;
  last_error = take 2000 error;
  next_retry_at = some now;
}

unfoldable pub upsert : ℕ → Text → ℕ → Text → ℕ → List DlqRow → List DlqRow
unfolding update_where text_eq
upsert id sms_path modem_index error now rows =
    if any (has_path sms_path) rows
    then update_where (has_path sms_path) (refreshed error now) rows
    else rows ++ new_row id sms_path modem_index error now ∷ []

-- min(3600.0, retry_interval_sec * (2 ** min(new_count, 6)))
unfoldable pub retry_delay : ℕ → ℕ → ℕ
retry_delay interval new_count = min 3600000000 (interval * 2 ^ min new_count 6)

-- The UPDATE of mark_retry_failed.
abbrev pub retried : ℕ → Text → ℕ → DlqRow → DlqRow
retried interval error now r =
    let new_count = suc r.retry_count in
    record r {
      retry_count = new_count;
      last_error = take 2000 error;
      next_retry_at = some (now + retry_delay interval new_count);
    }

-- next_retry_at IS NULL OR next_retry_at <= now
abbrev is_ripe : ℕ → Option ℕ → Bool
is_ripe now none = true
is_ripe now (some t) = leb t now

-- the WHERE clause of dequeue_batch
abbrev pub is_due : ℕ → ℕ → DlqRow → Bool
is_due max_retries now r = ltb r.retry_count max_retries && is_ripe now r.next_retry_at

-- ORDER BY failed_at ASC
unfoldable pub insert_by_failed_at : DlqRow → List DlqRow → List DlqRow
insert_by_failed_at r [] = r ∷ []
insert_by_failed_at r (q ∷ qs) =
    if leb r.failed_at q.failed_at then r ∷ q ∷ qs else q ∷ insert_by_failed_at r qs

unfoldable pub by_failed_at : List DlqRow → List DlqRow
unfolding insert_by_failed_at
by_failed_at [] = []
by_failed_at (r ∷ rs) = insert_by_failed_at r (by_failed_at rs)

module _ (env : Env) where
  -- sqlite3.OperationalError is not Django's, so no retry loop of the program catches it.
  unfoldable pub dlq_statement : {A : Type 0} → (World → A × World) → Act A
  dlq_statement f w =
      let w' : World = record w { db_calls = suc w.db_calls } in
      elim (env.db_error w.db_calls) [
        | none ↦ let (a, w2) = f w' in (ok a, w2)
        | some m ↦ (err (raised m), w')
      ]

  unfoldable pub enqueue : Text → ℕ → Text → Act Bool
  unfolding upsert
  enqueue sms_path modem_index error = dlq_statement λ w.
      if leb env.dlq_max_size (length w.dlq) then (false, w) else (
        true,
        record w {
          dlq = upsert w.next_pk sms_path modem_index error w.clock w.dlq;
          next_pk = suc w.next_pk;
        },
      )

  unfoldable pub dequeue_batch : ℕ → Act (List DlqRow)
  unfolding by_failed_at
  dequeue_batch limit =
      dlq_statement
        λ w. (take limit (by_failed_at (filter (is_due env.dlq_max_retries w.clock) w.dlq)), w)

  unfoldable pub mark_recovered : ℕ → Act (Unit {0})
  unfolding delete_row
  mark_recovered row_id = dlq_statement λ w. (tt, record w { dlq = delete_row row_id w.dlq })

  unfoldable pub remove_by_path : Text → Act (Unit {0})
  unfolding text_eq
  remove_by_path sms_path =
      dlq_statement λ w. (tt, record w { dlq = filter (λ r. not (has_path sms_path r)) w.dlq })

  -- A row that is gone stays gone.
  unfoldable pub mark_retry_failed : ℕ → Text → Act (Unit {0})
  unfolding update_row retry_delay
  mark_retry_failed row_id error = dlq_statement λ w. (
    tt,
    record w { dlq = update_row row_id (retried env.dlq_retry_interval error w.clock) w.dlq },
  )

  unfoldable pub dlq_pending_count : Act ℕ
  dlq_pending_count = dlq_statement λ w. (length w.dlq, w)

  -- `if dlq and dlq.enqueue(…): metrics.increment('dlq_enqueued')`
  abbrev pub count_enqueued : Bool → Act (Unit {0})
  count_enqueued true = increment dlq_enqueued
  count_enqueued false = pure tt

  unfoldable pub enqueue_persist_failure : Text → ℕ → Text → Act (Unit {0})
  enqueue_persist_failure sms_path modem_index error = do
    increment persist_failed
    added ← if env.dlq_enabled then enqueue sms_path modem_index error else pure false
    count_enqueued added

  -- enabled, and the number of rows
  unfoldable pub get_dlq_stats : Act (Bool × ℕ)
  get_dlq_stats =
      if env.dlq_enabled then dlq_pending_count >>= (λ n. pure (true, n)) else pure (false, 0)
