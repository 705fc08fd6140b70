-- ===== src/OutboundQueue.antt =====
-- apps/sms/outbound_processor.py: OutboundProcessorQueue, the priority queue between the HTTP requests
-- and the workers that send. The functions here are what a thread does between two points at which
-- another thread may run; Pool lets any number of threads interleave them, and Worker runs a job.
pub mod Pool
pub mod Order
pub mod Worker
use hi_wave_tel.Prelude.{
  ℕ, zero, suc, Text, codes, Bool, true, false, ◌&&◌, ◌||◌, not, Option, none, some, List, [], ◌∷◌,
  ◌++◌, ◌==◌, if◌then◌else◌, leb, ltb, length, is_empty, filter, strip, lower, text_eq, text_in,
}
use hi_wave_tel.World.{Members}

-- _PRIORITY_RANK.get((priority or 'normal').strip().lower(), 2)
unfoldable pub priority_rank : Text → ℕ
unfolding strip lower text_eq
priority_rank priority =
    let p = lower (strip (if is_empty priority then codes "normal" else priority)) in
    if text_eq p (codes "urgent") then 0 else if text_eq p (codes "high") then 1 else 2

-- _OutboundJob
pub record OutboundJob : Type 0 where
  pub rank : ℕ
  pub seq : ℕ
  pub job_type : Text
  pub reference : Text
  pub priority : Text
  pub payload : Members

-- f'{job_type}:{reference}'
unfoldable pub job_key : Text → Text → Text
job_key job_type reference = job_type ++ codes ":" ++ reference

-- the order of the dataclass: by (rank, seq)
abbrev pub precedes : OutboundJob → OutboundJob → Bool
precedes a b = ltb a.rank b.rank || ((a.rank == b.rank) && ltb a.seq b.seq)

-- What the threads share. The heap of queue.PriorityQueue is the list of its jobs in the order in
-- which it gives them.
pub record Shared : Type 0 where
  pub max_queue_size : ℕ
  pub seq : ℕ
  pub in_flight : List Text
  pub queued : List OutboundJob
  pub processed_count : ℕ
  pub failed_count : ℕ
  pub enqueued_count : ℕ

-- OutboundProcessorQueue(num_workers, max_queue_size)
unfoldable pub new_queue : ℕ → Shared
new_queue max_queue_size = record {
  max_queue_size = max_queue_size;
  seq = 0;
  in_flight = [];
  queued = [];
  processed_count = 0;
  failed_count = 0;
  enqueued_count = 0;
}

-- PriorityQueue.put, on the jobs in order
unfoldable pub insert_job : OutboundJob → List OutboundJob → List OutboundJob
insert_job j [] = j ∷ []
insert_job j (k ∷ ks) = if precedes k j then k ∷ insert_job j ks else j ∷ k ∷ ks

-- a queue of size 0 has no bound
abbrev pub is_full : ℕ → List OutboundJob → Bool
is_full max_queue_size queued = ltb 0 max_queue_size && leb max_queue_size (length queued)

abbrev pub discard : Text → List Text → List Text
discard key keys = filter (λ k. not (text_eq k key)) keys

-- `if key in self._in_flight: return True`, else the key is added: is the call to go on?
unfoldable pub reserve : Text → Shared → Bool × Shared
unfolding text_in text_eq
reserve key q =
    if text_in key q.in_flight
    then (false, q)
    else (true, record q { in_flight = key ∷ q.in_flight })

unfoldable pub next_seq : Shared → ℕ × Shared
next_seq q = (suc q.seq, record q { seq = suc q.seq })

abbrev pub new_job : ℕ → Text → Text → Text → Members → OutboundJob
new_job seq job_type reference priority payload = record {
  rank = priority_rank priority;
  seq = seq;
  job_type = job_type;
  reference = reference;
  priority = priority;
  payload = payload;
}

-- self.queue.put(job, block=False), and the handler of queue.Full
unfoldable pub put_job : OutboundJob → Shared → Bool × Shared
unfolding insert_job job_key text_eq
put_job job q =
    if is_full q.max_queue_size q.queued
    then (false, record q { in_flight = discard (job_key job.job_type job.reference) q.in_flight })
    else (
      true,
      record q { queued = insert_job job q.queued; enqueued_count = suc q.enqueued_count },
    )

abbrev pub put_new : Text → Text → Text → Members → ℕ × Shared → Bool × Shared
put_new job_type reference priority payload (seq, q) =
    put_job (new_job seq job_type reference priority payload) q

abbrev pub put_reserved : Text → Text → Text → Members → Bool × Shared → Bool × Shared
put_reserved job_type reference priority payload (false, q) = (true, q)
put_reserved job_type reference priority payload (true, q) =
    put_new job_type reference priority payload (next_seq q)

-- enqueue, by a thread that is not interrupted
unfoldable pub enqueue : Text → Text → Text → Members → Shared → Bool × Shared
unfolding reserve next_seq put_job priority_rank job_key
enqueue job_type reference priority payload q =
    put_reserved job_type reference priority payload (reserve (job_key job_type reference) q)

-- self.queue.get; `none` is queue.Empty
abbrev pub taken : List OutboundJob → Shared → Option OutboundJob × Shared
taken [] q = (none, q)
taken (j ∷ js) q = (some j, record q { queued = js })

unfoldable pub take_job : Shared → Option OutboundJob × Shared
take_job q = taken q.queued q

unfoldable pub release_in_flight : Text → Text → Shared → Shared
unfolding job_key text_eq
release_in_flight job_type reference q = record q {
  in_flight = discard (job_key job_type reference) q.in_flight;
}

-- get_metrics
pub record QueueMetrics : Type 0 where
  pub enqueued : ℕ
  pub processed : ℕ
  pub failed : ℕ
  pub queue_size : ℕ

unfoldable pub get_metrics : Shared → QueueMetrics
get_metrics q = record {
  enqueued = q.enqueued_count;
  processed = q.processed_count;
  failed = q.failed_count;
  queue_size = length q.queued;
}
