-- ===== src/PersistQueue/Fate.antt =====
-- Where a message goes: onto the persist queue, into the table, or into the dead-letter queue.
use hi_wave_tel.Prelude.{
  ℕ, suc, ◌≡◌, refl, inl, inr, Text, Bool, true, false, List, [], ◌∷◌, ◌++◌, leb, length, any,
  text_eq_refl, Bool-cases, arith,
}
use hi_wave_tel.Runtime.Exn.{message}
use hi_wave_tel.Runtime.Exec.{Result, ok, err, pure, modify, try_else, handle_with, ◌>>=◌, ◌>>◌}
use hi_wave_tel.Models.{DlqRow, dlq_keyed, update_where}
use hi_wave_tel.World.{Env, World, increment, persist_failed, dlq_enqueued}
use hi_wave_tel.World.Calm.{IsCalm}
use hi_wave_tel.Dlq.{has_path, refreshed, upsert, enqueue, dlq_statement, enqueue_persist_failure}
use hi_wave_tel.Inbound.Persist.{Persisted, persist_inbound_sms}
use hi_wave_tel.PersistQueue.{process_sms}

-- The dead-letter queue has a row for the path.
abbrev pub InDlq : Text → World → Type 0
InDlq sms_path w = any (has_path sms_path) w.dlq ≡ true

-- The dead-letter queue is in use and has room.
abbrev pub HasRoom : Env → World → Type 0
HasRoom env w = (env.dlq_enabled ≡ true) × (leb env.dlq_max_size (length w.dlq) ≡ false)

any-append :
    (p : DlqRow → Bool) (rs : List DlqRow) (a : DlqRow) → p a ≡ true → any p (rs ++ a ∷ []) ≡ true
any-append p [] a h = ground arith
any-append p (r ∷ rs) a h = ground (arith, any-append p rs a)

any-refreshed :
    (sms_path error : Text) (now : ℕ) (rs : List DlqRow)
    → any (has_path sms_path) rs ≡ true
    → any (has_path sms_path) (update_where (has_path sms_path) (refreshed error now) rs) ≡ true
unfolding update_where
any-refreshed sms_path error now [] h = h
any-refreshed sms_path error now (r ∷ rs) h = elim (Bool-cases (has_path sms_path r)) [
  | inl y ↦ rw y (rw y refl)
  | inr n ↦ rw n (rw n (any-refreshed sms_path error now rs (ground arith)))
]

pub any-upsert :
    (id : ℕ) (sms_path : Text) (modem_index : ℕ) (error : Text) (now : ℕ) (rs : List DlqRow)
    → any (has_path sms_path) (upsert id sms_path modem_index error now rs) ≡ true
unfolding upsert
any-upsert id sms_path modem_index error now rs = elim (Bool-cases (any (has_path sms_path) rs)) [
  | inl y ↦ rw y (any-refreshed sms_path error now rs y)
  | inr n ↦ rw n (any-append (has_path sms_path) rs _ (text_eq_refl sms_path))
]

module _ (env : Env) (calm : IsCalm env) where
  abbrev with_row : Text → ℕ → Text → World → World
  with_row sms_path modem_index error w = record w {
    db_calls = suc w.db_calls;
    dlq = upsert w.next_pk sms_path modem_index error w.clock w.dlq;
    next_pk = suc w.next_pk;
  }

  enqueue-with_row :
      (sms_path : Text) (modem_index : ℕ) (error : Text) (w : World)
      → leb env.dlq_max_size (length w.dlq) ≡ false
      → enqueue env sms_path modem_index error w ≡ (ok true, with_row sms_path modem_index error w)
  unfolding enqueue dlq_statement
  enqueue-with_row sms_path modem_index error w room =
      rw (enqueue, dlq_statement, calm.no_error w.db_calls) (rw room refl)

  -- Recording a failure, where the dead-letter queue is in use and has room.
  pub failure-InDlq :
      (sms_path : Text) (modem_index : ℕ) (error : Text) (w : World)
      → HasRoom env w
      → (v : World) × (enqueue_persist_failure env sms_path modem_index error w ≡ (ok tt, v))
        × InDlq sms_path v
        × (v.persist_queue ≡ w.persist_queue)
  unfolding enqueue_persist_failure ◌>>=◌ ◌>>◌ increment modify pure
  failure-InDlq sms_path modem_index error w (on, room) =
      let u : World = record w { counted = persist_failed ∷ w.counted } in
      (
        record (with_row sms_path modem_index error u) {
          counted = dlq_enqueued ∷ persist_failed ∷ w.counted;
        },
        simp (on, enqueue-with_row sms_path modem_index error u room) refl,
        any-upsert w.next_pk sms_path modem_index error w.clock w.dlq,
        refl,
      )

  -- How the work on a message ends: it is stored, or it is rejected by the whitelist and so not to be
  -- stored; or storing it raised, and the dead-letter queue has its path.
  abbrev pub Fate : Text → Result Persisted × World → Result (Unit {0}) × World → Type 0
  Fate sms_path (ok obj, v) out = out ≡ (ok tt, v)
  Fate sms_path (err x, v) out = (out.0 ≡ ok tt) × InDlq sms_path out.1

  -- In a run without database errors, and where the dead-letter queue is in use and not full after
  -- the attempt to store a message, a worker's turn on the message raises nothing: it ends where
  -- storing it ended or, if storing it raised any exception, with its path in the dead-letter queue.
  pub process_sms-Fate :
      (sms_path : Text) (modem_index : ℕ) (w : World)
      → HasRoom env (persist_inbound_sms env sms_path modem_index w).1
      → Fate sms_path
          (persist_inbound_sms env sms_path modem_index w)
          (process_sms env sms_path modem_index w)
  unfolding process_sms try_else pure
  process_sms-Fate sms_path modem_index w room =
      by_result (persist_inbound_sms env sms_path modem_index w) room
    where
      by_result :
          (r : Result Persisted × World)
          → HasRoom env r.1
          → Fate sms_path r (
              handle_with
                (λ exc. enqueue_persist_failure env sms_path modem_index (message exc))
                (λ obj. pure tt)
                r)
      by_result (ok obj, v) room = refl
      by_result (err x, v) room =
          let (u, e, there, same) = failure-InDlq sms_path modem_index (message x) v room in
          rw e (refl, there)
