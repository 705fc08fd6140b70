-- ===== src/InboundQueue.antt =====
-- apps/sms/inbound_processor.py: InboundProcessorQueue, a bounded queue of the keys of received messages
-- whose webhooks are to be called. The delays and the number of its own retries are stored and not used.
pub mod InTurn
use hi_wave_tel.Prelude.{
  ℕ, zero, suc, ◌+◌, ◌≡◌, refl, Bool, true, false, ◌&&◌, List, [], ◌∷◌, ◌++◌, if◌then◌else◌, ltb,
  leb, length,
}
use hi_wave_tel.Runtime.Exn.{does_not_exist}
use hi_wave_tel.Runtime.Exec.{Result, ok, err, pure, try_else, handle_with, ◌>>=◌}
use hi_wave_tel.Runtime.Retry.{with_sqlite_retry}
use hi_wave_tel.Models.{InboundSms, inbound_keyed, row}
use hi_wave_tel.World.{Env, World, Act, statement, sqlite_nap, or_raise}
use hi_wave_tel.Delivery.{deliver_inbound_webhooks}

pub record InboundQueue : Type 0 where
  pub max_queue_size : ℕ
  pub queued : List ℕ
  pub processed_count : ℕ
  pub failed_count : ℕ
  pub retry_count : ℕ

-- put with block=False; a size of 0 is no bound
unfoldable pub enqueue_inbound : ℕ → InboundQueue → Bool × InboundQueue
enqueue_inbound inbound_pk q =
    if ltb 0 q.max_queue_size && leb q.max_queue_size (length q.queued)
    then (false, q)
    else (true, record q { queued = q.queued ++ inbound_pk ∷ [] })

-- the figures of get_metrics: processed, failed, retries and the size
unfoldable pub inbound_metrics : InboundQueue → ℕ × ℕ × ℕ × ℕ
inbound_metrics q = (q.processed_count, q.failed_count, q.retry_count, length q.queued)

module _ (env : Env) where
  -- _fetch_inbound_sms
  unfoldable pub fetch_inbound_sms : ℕ → Act InboundSms
  unfolding row
  fetch_inbound_sms pk =
      with_sqlite_retry env.sqlite_retries (sqlite_nap env)
        (statement env (λ w. or_raise does_not_exist (row pk w.inbound) w))

  abbrev pub processed_one : InboundQueue → InboundQueue
  processed_one q = record q { processed_count = suc q.processed_count }

  abbrev pub failed_one : InboundQueue → InboundQueue
  failed_one q = record q { failed_count = suc q.failed_count }

  -- after the delivery: was it a success? Any exception counts as a failure.
  abbrev pub after_delivery : InboundQueue → Result Bool × World → InboundQueue × World
  after_delivery q (ok success, w) = (if success then processed_one q else failed_one q, w)
  after_delivery q (err exc, w) = (failed_one q, w)

  -- after the read: a message that is gone counts as a failure, as any exception does
  abbrev pub after_fetch : InboundQueue → Result InboundSms × World → InboundQueue × World
  after_fetch q (ok inbound, w) = after_delivery q (deliver_inbound_webhooks env inbound w)
  after_fetch q (err does_not_exist, w) = (failed_one q, w)
  after_fetch q (err exc, w) = (failed_one q, w)

  -- _process_inbound
  unfoldable pub process_inbound : ℕ → InboundQueue → World → InboundQueue × World
  process_inbound inbound_pk q w = after_fetch q (fetch_inbound_sms inbound_pk w)

  abbrev pub work_on : List ℕ → InboundQueue → World → InboundQueue × World
  work_on [] q w = (q, w)
  work_on (pk ∷ pks) q w = process_inbound pk (record q { queued = pks }) w

  -- one round of the worker's loop
  unfoldable pub inbound_round : InboundQueue → World → InboundQueue × World
  inbound_round q w = work_on q.queued q w

  unfoldable pub rounds : ℕ → InboundQueue × World → InboundQueue × World
  rounds zero s = s
  rounds (suc n) (q, w) = rounds n (inbound_round q w)
