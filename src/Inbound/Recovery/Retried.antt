-- ===== src/Inbound/Recovery/Retried.antt =====
-- What a batch of the dead-letter queue does to each of its rows.
use hi_wave_tel.Prelude.{
  ℕ, suc, ◌+◌, ◌≡◌, ◌≢◌, refl, Text, Option, none, some, List, [], ◌∷◌, filter, length, take, arith,
}
use hi_wave_tel.Runtime.Exn.{message}
use hi_wave_tel.Runtime.Exec.{
  Result, ok, err, pure, modify, try_else, handle_with, ◌>>=◌, ◌>>◌, continue_with,
}
use hi_wave_tel.Models.{DlqRow, dlq_keyed, row, update_row, delete_row}
use hi_wave_tel.Models.Tables.{
  row-update_row_self, row-update_row-none, row-update_row_ne, row-delete_row, row-delete_row_ne,
}
use hi_wave_tel.World.{Env, World, increment, dlq_recovered}
use hi_wave_tel.World.Calm.{IsCalm, counted_call}
use hi_wave_tel.Dlq.{
  by_failed_at, is_due, retry_delay, retried, dlq_statement, dequeue_batch, mark_recovered,
  mark_retry_failed,
}
use hi_wave_tel.Inbound.Persist.{Persisted, persist_inbound_sms}
use hi_wave_tel.Inbound.Recovery.{BatchStats, retry_row, retry_rows, process_batch}

-- A row that has failed once more.
abbrev pub FailedAgain : Env → Text → ℕ → DlqRow → DlqRow → Type 0
FailedAgain env error now q q' =
    (q'.sms_path ≡ q.sms_path)
    × (q'.retry_count ≡ suc q.retry_count)
    × (q'.last_error ≡ take 2000 error)
    × (q'.next_retry_at ≡ some (now + retry_delay env.dlq_retry_interval (suc q.retry_count)))

-- A row that is gone stays gone.
abbrev pub FailedIfThere : Env → Text → ℕ → Option DlqRow → Option DlqRow → Type 0
FailedIfThere env error now none o = o ≡ none
FailedIfThere env error now (some q) o =
    (q' : DlqRow) × (o ≡ some q') × FailedAgain env error now q q'

-- All rows but that of the key are as they were.
abbrev pub OthersKept : ℕ → World → World → Type 0
OthersKept id v u = (m : ℕ) → m ≢ id → row m u.dlq ≡ row m v.dlq

-- One row after the attempt to store its message, which ended as `r`: a stored message takes the row
-- out of the queue and counts as recovered; any exception keeps it, as failed again, and counts as
-- failed.
abbrev pub RowFate :
    Env → DlqRow → BatchStats → BatchStats → Result Persisted × World → World → Type 0
RowFate env r s t (ok obj, v) u =
    (t.processed ≡ suc s.processed)
    × (t.recovered ≡ suc s.recovered)
    × (t.failed ≡ s.failed)
    × (row r.id u.dlq ≡ none)
    × OthersKept r.id v u
RowFate env r s t (err x, v) u =
    (t.processed ≡ suc s.processed)
    × (t.recovered ≡ s.recovered)
    × (t.failed ≡ suc s.failed)
    × FailedIfThere env (message x) v.clock (row r.id v.dlq) (row r.id u.dlq)
    × OthersKept r.id v u

-- The rows of a batch in turn, from the figures `s` to the figures `t`.
abbrev pub BatchFate : Env → List DlqRow → BatchStats → World → BatchStats → World → Type 0
BatchFate env [] s w t u = (t ≡ s) × (u ≡ w)
BatchFate env (r ∷ rs) s w t u =
    (s1 : BatchStats) × (w1 : World) × RowFate env r s s1
      (persist_inbound_sms env r.sms_path r.modem_index w) w1
    × BatchFate env rs s1 w1 t u

abbrev pub no_stats : BatchStats
no_stats = record { processed = 0; recovered = 0; failed = 0 }

-- The rows that are due, oldest failure first, at most `limit` of them.
abbrev pub due_rows : Env → ℕ → World → List DlqRow
due_rows env limit w = take limit (by_failed_at (filter (is_due env.dlq_max_retries w.clock) w.dlq))

module _ (env : Env) (calm : IsCalm env) where
  abbrev RowOutcome :
      DlqRow → BatchStats → Result Persisted × World → Result BatchStats × World → Type 0
  RowOutcome r s p out = (t : BatchStats) × (u : World) × (out ≡ (ok t, u)) × RowFate env r s t p u

  recovered_lem :
      (id : ℕ) (w : World)
      → mark_recovered env id w
        ≡ (ok tt, record w { db_calls = suc w.db_calls; dlq = delete_row id w.dlq })
  unfolding mark_recovered dlq_statement
  recovered_lem id w = rw (mark_recovered, dlq_statement, calm.no_error w.db_calls) refl

  failed_lem :
      (id : ℕ) (error : Text) (w : World)
      → mark_retry_failed env id error w ≡ (
        ok tt,
        record w {
          db_calls = suc w.db_calls;
          dlq = update_row id (retried env.dlq_retry_interval error w.clock) w.dlq;
        },
      )
  unfolding mark_retry_failed dlq_statement
  failed_lem id error w = rw (mark_retry_failed, dlq_statement, calm.no_error w.db_calls) refl

  failed_there :
      (id : ℕ) (error : Text) (now : ℕ) (rows : List DlqRow) (o : Option DlqRow)
      → row id rows ≡ o
      → FailedIfThere env error now o
          (row id (update_row id (retried env.dlq_retry_interval error now) rows))
  failed_there id error now rows none e =
      row-update_row-none (retried env.dlq_retry_interval error now) id rows (λ a. refl) e
  failed_there id error now rows (some q) e =
      let change = retried env.dlq_retry_interval error now in
      (change q, row-update_row_self change id rows q (λ a. refl) e, (refl, refl, refl, refl))

  retry_row-RowOutcome :
      (r : DlqRow) (s : BatchStats) (w : World)
      → RowOutcome r s (persist_inbound_sms env r.sms_path r.modem_index w) (retry_row env r s w)
  unfolding retry_row try_else increment modify pure ◌>>=◌ ◌>>◌
  retry_row-RowOutcome r s w = by_result (persist_inbound_sms env r.sms_path r.modem_index w)
    where
      by_result :
          (p : Result Persisted × World)
          → RowOutcome r s p (
              handle_with
                (λ exc.
                  mark_retry_failed env r.id (message exc)
                  >> pure (record s { processed = suc s.processed; failed = suc s.failed }))
                pure
                (continue_with
                  (λ u.
                    pure (record s { processed = suc s.processed; recovered = suc s.recovered }))
                  (continue_with
                    (λ u. increment dlq_recovered)
                    (continue_with (λ obj. mark_recovered env r.id) p))))
      by_result (ok obj, v) = (
        record s { processed = suc s.processed; recovered = suc s.recovered },
        record v {
          db_calls = suc v.db_calls;
          dlq = delete_row r.id v.dlq;
          counted = dlq_recovered ∷ v.counted;
        },
        rw (recovered_lem r.id v) refl,
        (refl, refl, refl, row-delete_row r.id v.dlq, λ m ne. row-delete_row_ne r.id m v.dlq ne),
      )
      by_result (err x, v) =
          let change = retried env.dlq_retry_interval (message x) v.clock in
          (
            record s { processed = suc s.processed; failed = suc s.failed },
            record v { db_calls = suc v.db_calls; dlq = update_row r.id change v.dlq },
            rw (failed_lem r.id (message x) v) refl,
            (
              refl,
              refl,
              refl,
              failed_there r.id (message x) v.clock v.dlq (row r.id v.dlq) refl,
              λ m ne. row-update_row_ne change r.id m v.dlq (λ a. refl) ne,
            ),
          )

  abbrev pub BatchOutcome : List DlqRow → BatchStats → World → Result BatchStats × World → Type 0
  BatchOutcome rows s w out =
      (t : BatchStats) × (u : World) × (out ≡ (ok t, u))
      × (t.processed ≡ s.processed + length rows)
      × (t.recovered + t.failed ≡ s.recovered + s.failed + length rows)
      × BatchFate env rows s w t u

  retry_rows-BatchOutcome :
      (rows : List DlqRow) (s : BatchStats) (w : World)
      → BatchOutcome rows s w (retry_rows env rows s w)
  unfolding retry_rows ◌>>=◌ pure
  retry_rows-BatchOutcome [] s w = (s, w, refl, omega arith, omega arith, (refl, refl))
  retry_rows-BatchOutcome (r ∷ rs) s w =
      let (s1, w1, e, fate) = retry_row-RowOutcome r s w in
      let (t, u, e', n, sum, fates) = retry_rows-BatchOutcome rs s1 w1 in
      let (one, both) =
        counts r s s1 (persist_inbound_sms env r.sms_path r.modem_index w) w1 fate in
      (t, u, rw (e, e') refl, omega arith, omega arith, (s1, w1, fate, fates))
    where
      counts :
          (r : DlqRow) (s t : BatchStats) (p : Result Persisted × World) (u : World)
          → RowFate env r s t p u
          → (t.processed ≡ suc s.processed)
            × (t.recovered + t.failed ≡ suc (s.recovered + s.failed))
      counts r s t (ok obj, v) u (a, b, c, h, k) = (a, omega arith)
      counts r s t (err x, v) u (a, b, c, h, k) = (a, omega arith)

  -- In a run without database errors a batch returns, whatever mmcli answers. It tries the rows that are
  -- due, one after the other, and counts each once: where its message was stored, as recovered, and no
  -- row of its key is left; where storing it raised any exception, as failed, and a row that its key then
  -- has gets one retry more, the error and the instant of the next try. In each turn, the rows of all
  -- other keys stay as the attempt to store the message left them.
  pub process_batch-BatchOutcome :
      (limit : ℕ) (w : World)
      → BatchOutcome (due_rows env limit w) no_stats (counted_call w) (process_batch env limit w)
  unfolding process_batch dequeue_batch dlq_statement ◌>>=◌
  process_batch-BatchOutcome limit w =
      rw (process_batch, dequeue_batch, dlq_statement, calm.no_error w.db_calls)
        (retry_rows-BatchOutcome (due_rows env limit w) no_stats (counted_call w))
