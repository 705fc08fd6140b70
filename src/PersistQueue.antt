-- ===== src/PersistQueue.antt =====
-- apps/sms/queue_processor.py: SmsProcessingQueue, the bounded queue between the D-Bus signals and the
-- workers that store messages.
pub mod Fate
use hi_wave_tel.Prelude.{
  ℕ, Text, Bool, true, false, ◌&&◌, List, [], ◌∷◌, ◌++◌, if◌then◌else◌, ltb, leb, length,
}
use hi_wave_tel.Runtime.Exn.{message}
use hi_wave_tel.Runtime.Exec.{Result, ok, err, pure, modify, try_else, ◌>>◌}
use hi_wave_tel.World.{
  Env, World, Act, sleep, increment, enqueue_success, enqueue_failed_queue_full,
}
use hi_wave_tel.Dlq.{enqueue_persist_failure}
use hi_wave_tel.Inbound.Persist.{persist_inbound_sms}

abbrev pub Item : Type 0
Item = Text × ℕ

module _ (env : Env) where
  -- Queue.full
  abbrev pub is_full : List Item → Bool
  is_full items = ltb 0 env.persist_queue_max && leb env.persist_queue_max (length items)

  abbrev append_item : Item → World → World
  append_item item w = record w { persist_queue = w.persist_queue ++ item ∷ [] }

  -- put with block=False, and the handler of queue.Full
  unfoldable pub enqueue_sms : Text → ℕ → Act Bool
  enqueue_sms sms_path modem_index w =
      (if is_full w.persist_queue
          then (increment enqueue_failed_queue_full >> pure false)
          else (modify (append_item (sms_path, modem_index))
              >> increment enqueue_success
              >> pure true))
        w

  -- _process_sms: whatever storing raises goes to the dead-letter queue
  unfoldable pub process_sms : Text → ℕ → Act (Unit {0})
  process_sms sms_path modem_index =
      try_else (persist_inbound_sms env sms_path modem_index)
        (λ exc. enqueue_persist_failure env sms_path modem_index (message exc)) (λ obj. pure tt)

  -- `except Exception` of the worker's loop
  abbrev pub after_error : Result (Unit {0}) × World → World
  after_error (ok t, w) = w
  after_error (err x, w) = sleep 500000 w

  abbrev pub with_oldest : List Item → World → World
  with_oldest [] w = w
  with_oldest ((sms_path, modem_index) ∷ rest) w =
      after_error (process_sms sms_path modem_index (record w { persist_queue = rest }))

  -- one round of the worker's loop
  unfoldable pub worker_round : World → World
  unfolding sleep
  worker_round w = with_oldest w.persist_queue w
