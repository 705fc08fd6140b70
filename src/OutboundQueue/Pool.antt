-- ===== src/OutboundQueue/Pool.antt =====
-- Any number of threads on one queue: callers of enqueue, between its locked parts, and workers. A
-- state is what the threads share and what each thread holds; the invariants are over every
-- interleaving.
mod Count
pub mod Sound
pub mod Calls
pub mod Priority
pub mod Life
use hi_wave_tel.Prelude.{ℕ, Text, ◌≡◌, true, false, Option, none, some, List, [], ◌∷◌, ◌++◌}
use hi_wave_tel.World.{Members}
use hi_wave_tel.OutboundQueue.{
  OutboundJob, Shared, new_queue, job_key, reserve, next_seq, new_job, put_job, take_job,
  release_in_flight,
}

-- the arguments of a call of enqueue
pub record Request : Type 0 where
  pub job_type : Text
  pub reference : Text
  pub priority : Text
  pub payload : Members

pub record Pool : Type 0 where
  pub shared : Shared
  -- callers whose key is in flight and that have no number yet
  pub reserved : List Request
  -- callers with a numbered job, before the put
  pub numbered : List OutboundJob
  -- workers, each with its job
  pub running : List OutboundJob

abbrev pub request_key : Request → Text
request_key r = job_key r.job_type r.reference

abbrev pub key_of : OutboundJob → Text
key_of j = job_key j.job_type j.reference

abbrev pub numbered_job : ℕ → Request → OutboundJob
numbered_job seq r = new_job seq r.job_type r.reference r.priority r.payload

abbrev pub start : ℕ → Pool
start max_queue_size = record {
  shared = new_queue max_queue_size;
  reserved = [];
  numbered = [];
  running = [];
}

-- What one thread does between two locks.
pub data Step : Pool → Pool → Type 0 where
  -- enqueue finds the key in flight, and returns
  known :
      (p : Pool) (r : Request)
      → (reserve (request_key r) p.shared).0 ≡ false
      → Step p (record p { shared = (reserve (request_key r) p.shared).1 })
  -- enqueue adds the key
  fresh :
      (p : Pool) (r : Request)
      → (reserve (request_key r) p.shared).0 ≡ true
      → Step p
          (record p { shared = (reserve (request_key r) p.shared).1; reserved = r ∷ p.reserved })
  number :
      (p : Pool) (before : List Request) (r : Request) (after : List Request)
      → p.reserved ≡ before ++ r ∷ after
      → Step p (record p {
        shared = (next_seq p.shared).1;
        reserved = before ++ after;
        numbered = numbered_job (next_seq p.shared).0 r ∷ p.numbered;
      })
  -- the put, whether there is room or not
  put :
      (p : Pool) (before : List OutboundJob) (j : OutboundJob) (after : List OutboundJob)
      → p.numbered ≡ before ++ j ∷ after
      → Step p (record p { shared = (put_job j p.shared).1; numbered = before ++ after })
  take :
      (p : Pool) (j : OutboundJob)
      → (take_job p.shared).0 ≡ some j
      → Step p (record p { shared = (take_job p.shared).1; running = j ∷ p.running })
  -- the metrics that a job in work counts
  tally :
      (p : Pool) (processed failed : ℕ)
      → Step p (record p {
        shared = record p.shared { processed_count = processed; failed_count = failed };
      })
  -- the worker is done with the job
  finish :
      (p : Pool) (before : List OutboundJob) (j : OutboundJob) (after : List OutboundJob)
      → p.running ≡ before ++ j ∷ after
      → Step p (record p {
        shared = release_in_flight j.job_type j.reference p.shared;
        running = before ++ after;
      })

pub data Reach (p : Pool) : Pool → Type 0 where
  here : Reach p p
  next : {q r : Pool} → Reach p q → Step q r → Reach p r
