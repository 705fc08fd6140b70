-- ===== src/OutboundQueue/Pool/Sound.antt =====
-- What holds of the queue whatever the threads do: each key in flight belongs to one call, one queued
-- job or one worker, the numbers of the jobs are distinct, and the queue is in order and within bounds.
use hi_wave_tel.Prelude.{
  ℕ, suc, ◌+◌, ◌≤◌, ◌<◌, ◌≡◌, refl, ap, ◌∙◌, inl, inr, Text, Bool, true, false, some, List, [], ◌∷◌,
  ◌==◌, length, All, text_eq, text_eq_iff, text_in, Bool-cases, arith, subst,
}
use hi_wave_tel.OutboundQueue.{
  OutboundJob, Shared, new_queue, reserve, next_seq, put_job, take_job, taken, release_in_flight,
  insert_job, discard, is_full,
}
use hi_wave_tel.OutboundQueue.Order.{IsOrdered, HasSeq, insert_job-IsOrdered, length-insert_job}
use hi_wave_tel.OutboundQueue.Pool.{
  Pool, Step, known, fresh, number, put, take, tally, finish, Reach, here, next, start, request_key,
  key_of,
}
use hi_wave_tel.OutboundQueue.Pool.Count.{
  count, one_if, count-middle, count-insert_job, times, times-discard, times-absent,
}

abbrev pub has_key : Text → OutboundJob → Bool
has_key k j = text_eq (key_of j) k

-- How many callers, queued jobs and workers hold the key.
abbrev pub held : Text → Pool → ℕ
held k p =
    count (λ r. text_eq (request_key r) k) p.reserved
    + count (has_key k) p.numbered
    + count (has_key k) p.shared.queued
    + count (has_key k) p.running

-- How many jobs, numbered or queued, have the number.
abbrev pub with_seq : ℕ → Pool → ℕ
with_seq n p = count (λ j. j.seq == n) p.numbered + count (λ j. j.seq == n) p.shared.queued

abbrev pub IsWithin : ℕ → ℕ → Type 0
IsWithin max n = 0 < max → n ≤ max

pub record IsSound (p : Pool) : Type 0 where
  pub holders : (k : Text) → times k p.shared.in_flight ≡ held k p
  pub once : (k : Text) → times k p.shared.in_flight ≤ 1
  pub unused : (n : ℕ) → p.shared.seq < n → with_seq n p ≡ 0
  pub distinct : (n : ℕ) → with_seq n p ≤ 1
  pub ordered : IsOrdered p.shared.queued
  pub bounded : IsWithin p.shared.max_queue_size (length p.shared.queued)

start-IsSound : (max : ℕ) → IsSound (start max)
unfolding new_queue
start-IsSound max = record {
  holders = λ k. refl;
  once = λ k. omega arith;
  unused = λ n h. refl;
  distinct = λ n. omega arith;
  ordered = tt;
  bounded = λ h. omega arith;
}

-- a call that goes on has added its key, which was not there
pub reserved_new :
    (key : Text) (q : Shared)
    → (reserve key q).0 ≡ true
    → ((reserve key q).1 ≡ record q { in_flight = key ∷ q.in_flight }) × (times key q.in_flight ≡ 0)
unfolding reserve
reserved_new key q h = elim (Bool-cases (text_in key q.in_flight)) [
  | inl y ↦ absurd (ground arith)
  | inr n ↦ (rw n refl, times-absent key q.in_flight n)
]

pub reserved_old : (key : Text) (q : Shared) → (reserve key q).0 ≡ false → (reserve key q).1 ≡ q
unfolding reserve
reserved_old key q h = elim (Bool-cases (text_in key q.in_flight)) [
  | inl y ↦ rw y refl
  | inr n ↦ absurd (ground arith)
]

pub taken_first :
    (q : Shared) (j : OutboundJob)
    → (take_job q).0 ≡ some j
    → (js : List OutboundJob) × (q.queued ≡ j ∷ js) × ((take_job q).1 ≡ record q { queued = js })
unfolding take_job
taken_first q j h = by_head q.queued h
  where
    by_head :
        (l : List OutboundJob)
        → (taken l q).0 ≡ some j
        → (js : List OutboundJob) × (l ≡ j ∷ js) × ((taken l q).1 ≡ record q { queued = js })
    by_head [] e = absurd (ground arith)
    by_head (i ∷ is) e = (is, ground arith, refl)

pub put_full :
    (j : OutboundJob) (q : Shared)
    → is_full q.max_queue_size q.queued ≡ true
    → (put_job j q).1 ≡ record q { in_flight = discard (key_of j) q.in_flight }
unfolding put_job
put_full j q h = rw h refl

pub put_room :
    (j : OutboundJob) (q : Shared)
    → is_full q.max_queue_size q.queued ≡ false
    → (put_job j q).1
      ≡ record q { queued = insert_job j q.queued; enqueued_count = suc q.enqueued_count }
unfolding put_job
put_room j q h = rw h refl

-- no job of the list has the number
none_with : (n : ℕ) (js : List OutboundJob) → count (λ j. j.seq == n) js ≡ 0 → All (HasSeq n) js
none_with n [] h = tt
none_with n (j ∷ js) h = (λ e. ground arith, none_with n js (ground arith))

-- A key leaves with the one that holds it.
dropped :
    (key k : Text) (xs : List Text) (rest : ℕ)
    → times k xs ≤ 1
    → times k xs ≡ one_if (text_eq key k) + rest
    → times k (discard key xs) ≡ rest
dropped key k xs rest le e = elim (Bool-cases (text_eq key k)) [
  | inl y ↦ times-discard key k xs ∙ rw y (ground arith)
  | inr n ↦ times-discard key k xs ∙ rw n (ground arith)
]

dropped-le : (key k : Text) (xs : List Text) → times k xs ≤ 1 → times k (discard key xs) ≤ 1
dropped-le key k xs h = ground (arith, times-discard key k xs)

added-le :
    (key k : Text) (xs : List Text)
    → times key xs ≡ 0
    → times k xs ≤ 1
    → one_if (text_eq key k) + times k xs ≤ 1
added-le key k xs z h = elim (Bool-cases (text_eq key k)) [
  | inl y ↦ let e = (text_eq_iff key k).0 y in rw y (rw (← e) (omega (arith, z)))
  | inr n ↦ rw n (omega (arith, h))
]

pub Step-IsSound : {p r : Pool} → Step p r → IsSound p → IsSound r
unfolding next_seq release_in_flight
Step-IsSound (known p r h) s = rw (reserved_old (request_key r) p.shared h) s
Step-IsSound (fresh p r h) s =
    let (e, z) = reserved_new (request_key r) p.shared h in
    rw e (record {
      holders = λ k. omega (arith, s.holders k);
      once = λ k. added-le (request_key r) k p.shared.in_flight z (s.once k);
      unused = s.unused;
      distinct = s.distinct;
      ordered = s.ordered;
      bounded = s.bounded;
    })
Step-IsSound (number p xs r ys e) s = record {
  holders = λ k. omega (
    arith,
    s.holders k,
    ap (count (λ q. text_eq (request_key q) k)) e,
    count-middle (λ q. text_eq (request_key q) k) xs r ys,
  );
  once = s.once;
  unused = λ n h. ground (arith, s.unused n);
  distinct = λ n. ground (arith, s.unused n, s.distinct n);
  ordered = s.ordered;
  bounded = s.bounded;
}
Step-IsSound (put p xs j ys e) s =
    let keys = λ (k : Text). count-middle (has_key k) xs j ys in
    let seqs = λ (n : ℕ). count-middle (λ i. i.seq == n) xs j ys in
    elim (Bool-cases (is_full p.shared.max_queue_size p.shared.queued)) [
      | inl full ↦ rw (put_full j p.shared full) (record {
        holders = λ k.
            dropped (key_of j) k p.shared.in_flight _ (s.once k)
              (omega (arith, s.holders k, ap (count (has_key k)) e, keys k));
        once = λ k. dropped-le (key_of j) k p.shared.in_flight (s.once k);
        unused = λ n h. omega (arith, s.unused n h, ap (count (λ i. i.seq == n)) e, seqs n);
        distinct = λ n. omega (arith, s.distinct n, ap (count (λ i. i.seq == n)) e, seqs n);
        ordered = s.ordered;
        bounded = s.bounded;
      })
      | inr room ↦ rw (put_room j p.shared room) (record {
        holders = λ k. omega (
          arith,
          s.holders k,
          ap (count (has_key k)) e,
          keys k,
          count-insert_job (has_key k) j p.shared.queued,
        );
        once = s.once;
        unused = λ n h. omega (
          arith,
          s.unused n h,
          ap (count (λ i. i.seq == n)) e,
          seqs n,
          count-insert_job (λ i. i.seq == n) j p.shared.queued,
        );
        distinct = λ n. omega (
          arith,
          s.distinct n,
          ap (count (λ i. i.seq == n)) e,
          seqs n,
          count-insert_job (λ i. i.seq == n) j p.shared.queued,
        );
        ordered =
            insert_job-IsOrdered j p.shared.queued
              (none_with j.seq p.shared.queued
                (ground (arith, s.distinct j.seq, ap (count (λ i. i.seq == j.seq)) e, seqs j.seq)))
              s.ordered;
        bounded = λ h. ground (arith, s.bounded h, length-insert_job j p.shared.queued);
      })
    ]
Step-IsSound (take p j h) s =
    let (js, e, f) = taken_first p.shared j h in
    rw f (record {
      holders = λ k. omega (arith, s.holders k, ap (count (has_key k)) e);
      once = s.once;
      unused = λ n h. omega (arith, s.unused n h, ap (count (λ i. i.seq == n)) e);
      distinct = λ n. omega (arith, s.distinct n, ap (count (λ i. i.seq == n)) e);
      ordered = (subst IsOrdered e s.ordered).1;
      bounded = λ h. omega (arith, s.bounded h, ap length e);
    })
Step-IsSound (tally p processed failed) s = record {
  holders = s.holders;
  once = s.once;
  unused = s.unused;
  distinct = s.distinct;
  ordered = s.ordered;
  bounded = s.bounded;
}
Step-IsSound (finish p xs j ys e) s = record {
  holders = λ k.
      dropped (key_of j) k p.shared.in_flight _ (s.once k)
        (omega (arith, s.holders k, ap (count (has_key k)) e, count-middle (has_key k) xs j ys));
  once = λ k. dropped-le (key_of j) k p.shared.in_flight (s.once k);
  unused = s.unused;
  distinct = s.distinct;
  ordered = s.ordered;
  bounded = s.bounded;
}

-- Whatever the threads that share a new queue do, and in whatever order their steps fall: the number
-- of callers, queued jobs and workers that hold a key is 1 if the key is in flight and 0 if not, so no
-- message has two jobs; no two jobs, numbered or queued, have the same number; the queue is in the
-- order of rank and number; and it is never longer than its bound, if it has one.
pub Reach-IsSound : (max_queue_size : ℕ) {p : Pool} → Reach (start max_queue_size) p → IsSound p
Reach-IsSound max here = start-IsSound max
Reach-IsSound max (next r st) = Step-IsSound st (Reach-IsSound max r)
