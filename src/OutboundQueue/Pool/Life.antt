-- ===== src/OutboundQueue/Pool/Life.antt =====
-- The threads on the queue, seen by one key: a machine with four states.
use hi_wave_tel.Prelude.{ℕ, suc, ◌+◌, ◌≡◌, ◌⊎◌, Text, Bool, true, text_eq}
use hi_wave_tel.OutboundQueue.{is_full}
use hi_wave_tel.OutboundQueue.Pool.{Pool, request_key}
use hi_wave_tel.OutboundQueue.Pool.Count.{count, times}
use hi_wave_tel.OutboundQueue.Pool.Sound.{has_key}

-- The abstract view of a message's key: it is not known to the queue, in a call of enqueue, in the queue,
-- or in the work of a worker.
pub data Stage : Type 0 where
  absent called waiting worked : Stage

-- What may happen to a key; a call ends without a job only if the queue is full.
pub data Moves (full : Bool) : Stage → Stage → Type 0 where
  stays : (s : Stage) → Moves full s s
  calls : Moves full absent called
  puts : Moves full called waiting
  drops : full ≡ true → Moves full called absent
  takes : Moves full waiting worked
  releases : Moves full worked absent

abbrev pub callers : Text → Pool → ℕ
callers k p = count (λ r. text_eq (request_key r) k) p.reserved + count (has_key k) p.numbered

abbrev pub queued : Text → Pool → ℕ
queued k p = count (has_key k) p.shared.queued

abbrev pub workers : Text → Pool → ℕ
workers k p = count (has_key k) p.running

-- The stage of a key, by those who hold it and by the set of the keys in flight.
abbrev pub At : Text → Pool → Stage → Type 0
At k p absent =
    (times k p.shared.in_flight ≡ 0) × (callers k p ≡ 0) × (queued k p ≡ 0) × (workers k p ≡ 0)
At k p called =
    (times k p.shared.in_flight ≡ 1) × (callers k p ≡ 1) × (queued k p ≡ 0) × (workers k p ≡ 0)
At k p waiting =
    (times k p.shared.in_flight ≡ 1) × (callers k p ≡ 0) × (queued k p ≡ 1) × (workers k p ≡ 0)
At k p worked =
    (times k p.shared.in_flight ≡ 1) × (callers k p ≡ 0) × (queued k p ≡ 0) × (workers k p ≡ 1)

-- What a step does to the numbers of those who hold a key.
abbrev Changes : Bool → (c q w c' q' w' : ℕ) → Type 0
Changes full c q w c' q' w' =
    ((c' ≡ c) × (q' ≡ q) × (w' ≡ w))
    ⊎ ((c' ≡ suc c) × (q' ≡ q) × (w' ≡ w))
    ⊎ ((c ≡ suc c') × (q' ≡ suc q) × (w' ≡ w))
    ⊎ ((c ≡ suc c') × (q' ≡ q) × (w' ≡ w) × (full ≡ true))
    ⊎ ((c' ≡ c) × (q ≡ suc q') × (w' ≡ suc w))
    ⊎ ((c' ≡ c) × (q' ≡ q) × (w ≡ suc w'))

abbrev full_of : Pool → Bool
full_of p = is_full p.shared.max_queue_size p.shared.queued

abbrev ChangesOf : Text → Pool → Pool → Type 0
ChangesOf k p p' =
    Changes (full_of p) (callers k p) (queued k p) (workers k p) (callers k p') (queued k p')
      (workers k p')
