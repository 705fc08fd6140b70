-- ===== src/OutboundQueue/Pool/Calls.antt =====
-- A whole call of enqueue: its answer, what it leaves, and the steps that it is made of.
use hi_wave_tel.Prelude.{
  suc, ◌≡◌, refl, ap, ◌∙◌, inl, inr, Text, Bool, true, false, List, [], ◌∷◌, if◌then◌else◌,
  text_eq_iff, text_eq_refl, text_in, Bool-cases, arith, subst,
}
use hi_wave_tel.OutboundQueue.{
  Shared, reserve, next_seq, put_job, put_reserved, enqueue, insert_job, discard, is_full,
}
use hi_wave_tel.OutboundQueue.Pool.{
  Pool, Request, Step, known, fresh, number, put, Reach, here, next, request_key, numbered_job,
}

abbrev pub enqueue_of : Request → Shared → Bool × Shared
enqueue_of r q = enqueue r.job_type r.reference r.priority r.payload q

discard-absent : (key : Text) (xs : List Text) → text_in key xs ≡ false → discard key xs ≡ xs
unfolding text_in
discard-absent key [] h = refl
discard-absent key (x ∷ xs) h =
    ground (arith, text_eq_iff x key, text_eq_iff key x, discard-absent key xs)

discard-absent_self :
    (key : Text) (xs : List Text) → text_in key xs ≡ false → discard key (key ∷ xs) ≡ xs
discard-absent_self key xs h = rw (text_eq_refl key) (discard-absent key xs h)

-- the call whose key is new, before the put
abbrev pub numbered_call : Request → Shared → Shared
numbered_call r q = record q { in_flight = request_key r ∷ q.in_flight; seq = suc q.seq }

-- How a call ends: its key is in flight and nothing changes; or there is no room, and only a number is
-- used up; or the job of the next number is put in its place.
abbrev pub CallOutcome : Request → Shared → Bool × Shared → Type 0
CallOutcome r q out =
    if text_in (request_key r) q.in_flight
    then out ≡ (true, q)
    else if is_full q.max_queue_size q.queued
    then out ≡ (false, record q { seq = suc q.seq })
    else out ≡ (
      true,
      record q {
        in_flight = request_key r ∷ q.in_flight;
        seq = suc q.seq;
        queued = insert_job (numbered_job (suc q.seq) r) q.queued;
        enqueued_count = suc q.enqueued_count;
      },
    )

enqueue_lem :
    (r : Request) (q : Shared)
    → enqueue_of r q
      ≡ put_reserved r.job_type r.reference r.priority r.payload (reserve (request_key r) q)
unfolding enqueue
enqueue_lem r q = refl

reserve_known :
    (key : Text) (q : Shared) → text_in key q.in_flight ≡ true → reserve key q ≡ (false, q)
unfolding reserve
reserve_known key q h = rw h refl

reserve_fresh :
    (key : Text) (q : Shared)
    → text_in key q.in_flight ≡ false
    → reserve key q ≡ (true, record q { in_flight = key ∷ q.in_flight })
unfolding reserve
reserve_fresh key q h = rw h refl

-- the put of a call whose key is new
put_call :
    (r : Request) (q : Shared)
    → text_in (request_key r) q.in_flight ≡ false
    → enqueue_of r q ≡ put_job (numbered_job (suc q.seq) r) (numbered_call r q)
unfolding next_seq
put_call r q h = rw (enqueue_lem r q, reserve_fresh (request_key r) q h) refl

full_call :
    (r : Request) (q : Shared)
    → text_in (request_key r) q.in_flight ≡ false
    → is_full q.max_queue_size q.queued ≡ true
    → put_job (numbered_job (suc q.seq) r) (numbered_call r q)
      ≡ (false, record q { seq = suc q.seq })
unfolding put_job
full_call r q h full = rw full (
    ap (λ (ks : List Text). (false, record q { seq = suc q.seq; in_flight = ks }))
      (discard-absent_self (request_key r) q.in_flight h))

room_call :
    (r : Request) (q : Shared)
    → is_full q.max_queue_size q.queued ≡ false
    → put_job (numbered_job (suc q.seq) r) (numbered_call r q) ≡ (
      true,
      record q {
        in_flight = request_key r ∷ q.in_flight;
        seq = suc q.seq;
        queued = insert_job (numbered_job (suc q.seq) r) q.queued;
        enqueued_count = suc q.enqueued_count;
      },
    )
unfolding put_job
room_call r q room = rw room refl

-- A call of enqueue refuses a job exactly when its key is not in flight and the queue is full, and then
-- only uses up a number. A call whose key is in flight changes nothing and is answered as if the job
-- were put. Any other call puts one job, with the next number, and its key is then in flight.
pub enqueue-CallOutcome : (r : Request) (q : Shared) → CallOutcome r q (enqueue_of r q)
enqueue-CallOutcome r q = elim (Bool-cases (text_in (request_key r) q.in_flight)) [
  | inl old ↦ rw old (enqueue_lem r q ∙ rw (reserve_known (request_key r) q old) refl)
  | inr new ↦ elim (Bool-cases (is_full q.max_queue_size q.queued)) [
    | inl full ↦ rw (new, full) (put_call r q new ∙ full_call r q new full)
    | inr room ↦ rw (new, room) (put_call r q new ∙ room_call r q room)
  ]
]

calls :
    (p : Pool) (r : Request)
    → reserve (request_key r) p.shared
      ≡ (true, record p.shared { in_flight = request_key r ∷ p.shared.in_flight })
    → Reach p (record p {
      shared = (put_job (numbered_job (suc p.shared.seq) r) (numbered_call r p.shared)).1;
    })
unfolding next_seq
calls p r e =
    let p1 : Pool = record p {
      shared = record p.shared { in_flight = request_key r ∷ p.shared.in_flight };
      reserved = r ∷ p.reserved;
    } in
    let p2 : Pool = record p {
      shared = numbered_call r p.shared;
      numbered = numbered_job (suc p.shared.seq) r ∷ p.numbered;
    } in
    let first : Step p p1 =
      subst (λ (q : Shared). Step p (record p { shared = q; reserved = r ∷ p.reserved }))
        (ap (λ o. o.1) e) (fresh p r (ap (λ o. o.0) e)) in
    let second : Step p1 p2 = number p1 [] r p.reserved refl in
    next (next (next here first) second)
      (put p2 [] (numbered_job (suc p.shared.seq) r) p.numbered refl)

-- An uninterrupted call is a run of the threads' steps.
pub enqueue-Reach :
    (p : Pool) (r : Request) → Reach p (record p { shared = (enqueue_of r p.shared).1 })
enqueue-Reach p r = elim (Bool-cases (text_in (request_key r) p.shared.in_flight)) [
  | inl old ↦
      let e = reserve_known (request_key r) p.shared old in
      rw (enqueue_lem r p.shared ∙ ap (put_reserved r.job_type r.reference r.priority r.payload) e)
        (subst (λ (q : Shared). Reach p (record p { shared = q })) (ap (λ o. o.1) e)
          (next here (known p r (ap (λ o. o.0) e))))
  | inr new ↦
      let e = reserve_fresh (request_key r) p.shared new in
      rw (put_call r p.shared new) (calls p r e)
]
