-- ===== src/OutboundQueue/Pool/Priority.antt =====
-- Which job a worker is given: by the words of the priorities, not by their ranks.
use hi_wave_tel.Prelude.{
  ℕ, ◌<◌, ◌≡◌, refl, inl, inr, ◌⊎◌, Text, codes, Bool, true, false, some, List, [], ◌∷◌, ◌++◌,
  if◌then◌else◌, All, lower, strip, text_eq, Bool-cases, arith, subst,
}
use hi_wave_tel.OutboundQueue.{
  OutboundJob, priority_rank, precedes, new_queue, next_seq, take_job, release_in_flight, is_full,
}
use hi_wave_tel.OutboundQueue.Order.{IsOrdered, All-insert_job}
use hi_wave_tel.OutboundQueue.Pool.{
  Pool, Step, known, fresh, number, put, take, tally, finish, Reach, here, next, start, request_key,
}
use hi_wave_tel.OutboundQueue.Pool.Sound.{
  Reach-IsSound, taken_first, put_full, put_room, reserved_new, reserved_old,
}

-- What a priority asks for; whatever is neither word is normal.
pub data Urgency : Type 0 where
  urgent high normal : Urgency

abbrev urgency_by : (is_urgent is_high : Bool) → Urgency
urgency_by true b = urgent
urgency_by false true = high
urgency_by false false = normal

unfoldable pub urgency : Text → Urgency
unfolding text_eq lower strip
urgency priority =
    let word = lower (strip priority) in
    urgency_by (text_eq word (codes "urgent")) (text_eq word (codes "high"))

abbrev pub Above : Urgency → Urgency → Type 0
Above urgent high = Unit
Above urgent normal = Unit
Above high normal = Unit
Above _ _ = ⊥

-- The job `j` is more urgent than `k`, or as urgent and has the smaller number.
abbrev pub IsBefore : OutboundJob → OutboundJob → Type 0
IsBefore j k =
    Above (urgency j.priority) (urgency k.priority)
    ⊎ ((urgency j.priority ≡ urgency k.priority) × (j.seq < k.seq))

abbrev rank_of : Urgency → ℕ
rank_of urgent = 0
rank_of high = 1
rank_of normal = 2

-- The rank of a job is that of its priority.
abbrev IsRanked : OutboundJob → Type 0
IsRanked j = j.rank ≡ rank_of (urgency j.priority)

rank_by : (a b : Bool) → (if a then 0 else if b then 1 else 2) ≡ rank_of (urgency_by a b)
rank_by true b = refl
rank_by false true = refl
rank_by false false = refl

priority_rank-urgency : (priority : Text) → priority_rank priority ≡ rank_of (urgency priority)
unfolding priority_rank urgency
priority_rank-urgency [] = refl
priority_rank-urgency (c ∷ cs) = rank_by _ _

ranks-IsBefore : (j k : OutboundJob) → IsRanked j → IsRanked k → precedes j k ≡ true → IsBefore j k
ranks-IsBefore j k a b h = by_urgency (urgency j.priority) (urgency k.priority) a b
  where
    by_urgency :
        (u v : Urgency)
        → j.rank ≡ rank_of u
        → k.rank ≡ rank_of v
        → Above u v ⊎ ((u ≡ v) × (j.seq < k.seq))
    by_urgency urgent urgent a b = inr (refl, ground arith)
    by_urgency urgent high a b = inl tt
    by_urgency urgent normal a b = inl tt
    by_urgency high urgent a b = absurd (ground arith)
    by_urgency high high a b = inr (refl, ground arith)
    by_urgency high normal a b = inl tt
    by_urgency normal urgent a b = absurd (ground arith)
    by_urgency normal high a b = absurd (ground arith)
    by_urgency normal normal a b = inr (refl, ground arith)

All-middle :
    (P : OutboundJob → Type 0) (xs : List OutboundJob) (j : OutboundJob) (ys : List OutboundJob)
    → All P (xs ++ j ∷ ys)
    → P j × All P (xs ++ ys)
All-middle P [] j ys h = h
All-middle P (x ∷ xs) j ys (p, h) = let (q, more) = All-middle P xs j ys h in (q, (p, more))

-- All jobs of a pool, numbered or queued, are ranked.
abbrev RanksAgree : Pool → Type 0
RanksAgree p = All IsRanked p.numbered × All IsRanked p.shared.queued

Step-RanksAgree : {p q : Pool} → Step p q → RanksAgree p → RanksAgree q
unfolding next_seq release_in_flight
Step-RanksAgree (known p r h) s = rw (reserved_old (request_key r) p.shared h) s
Step-RanksAgree (fresh p r h) s = rw ((reserved_new (request_key r) p.shared h).0) s
Step-RanksAgree (number p xs r ys e) (a, b) = ((priority_rank-urgency r.priority, a), b)
Step-RanksAgree (put p xs j ys e) (a, b) =
    let (ranked, rest) = All-middle IsRanked xs j ys (subst (All IsRanked) e a) in
    elim (Bool-cases (is_full p.shared.max_queue_size p.shared.queued)) [
      | inl full ↦ rw (put_full j p.shared full) (rest, b)
      | inr room ↦
          rw (put_room j p.shared room) (rest, All-insert_job IsRanked j p.shared.queued ranked b)
    ]
Step-RanksAgree (take p j h) (a, b) =
    let (js, e, f) = taken_first p.shared j h in rw f (a, (subst (All IsRanked) e b).1)
Step-RanksAgree (tally p processed failed) s = s
Step-RanksAgree (finish p xs j ys e) s = s

Reach-RanksAgree : (max : ℕ) {p : Pool} → Reach (start max) p → RanksAgree p
unfolding new_queue
Reach-RanksAgree max here = (tt, tt)
Reach-RanksAgree max (next r st) = Step-RanksAgree st (Reach-RanksAgree max r)

All-IsBefore :
    (j : OutboundJob) (js : List OutboundJob)
    → IsRanked j
    → All (λ k. precedes j k ≡ true) js
    → All IsRanked js
    → All (IsBefore j) js
All-IsBefore j [] a h b = tt
All-IsBefore j (k ∷ ks) a (h, hs) (b, bs) = (ranks-IsBefore j k a b h, All-IsBefore j ks a hs bs)

-- Whatever the threads that share a new queue have done: the job that a worker is given is taken out of
-- the queue, and every job that is left in it is less urgent, or as urgent and has a greater number.
-- Urgent jobs go before high ones, and these before all others, by the words of their priorities without
-- regard to case and blanks around them.
pub take-IsBefore :
    (max_queue_size : ℕ) {p : Pool} (j : OutboundJob)
    → Reach (start max_queue_size) p
    → (take_job p.shared).0 ≡ some j
    → (p.shared.queued ≡ j ∷ ((take_job p.shared).1).queued)
      × All (IsBefore j) ((take_job p.shared).1).queued
take-IsBefore max {p} j r h =
    let (js, e, f) = taken_first p.shared j h in
    let ranked = subst (All IsRanked) e (Reach-RanksAgree max r).1 in
    let ordered = subst IsOrdered e (Reach-IsSound max r).ordered in
    rw f (e, All-IsBefore j js ranked.0 ordered.0 ranked.1)
