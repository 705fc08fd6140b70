-- ===== src/InboundQueue/InTurn.antt =====
-- A worker on the queue of received messages, against the messages delivered one after the other.
use mathlib.Core.List.{append-nil, append_assoc}
use hi_wave_tel.Prelude.{
  ℕ, suc, ◌+◌, ◌≤◌, ◌≡◌, refl, ◌∙◌, inl, inr, ◌⊎◌, Bool, true, false, List, [], ◌∷◌, ◌++◌, length,
  arith, Bool-cases, ap, sym, subst, ltb, leb, ◌&&◌, length-append,
}
use hi_wave_tel.Runtime.Exn.{Exn, does_not_exist}
use hi_wave_tel.Runtime.Exec.{Result, ok, err, continue_with}
use hi_wave_tel.Models.{InboundSms}
use hi_wave_tel.World.{Env, World, Act}
use hi_wave_tel.Delivery.{deliver_inbound_webhooks}
use hi_wave_tel.InboundQueue.{
  InboundQueue, enqueue_inbound, fetch_inbound_sms, after_delivery, after_fetch, process_inbound,
  inbound_round, rounds,
}

-- put after put, as far as the answers go unread
abbrev pub put_all : List ℕ → InboundQueue → InboundQueue
put_all [] q = q
put_all (pk ∷ pks) q = put_all pks (enqueue_inbound pk q).1

-- The queue has room for so many more.
abbrev pub HasRoomFor : ℕ → InboundQueue → Type 0
HasRoomFor n q = (q.max_queue_size ≡ 0) ⊎ (length q.queued + n ≤ q.max_queue_size)

enqueue-room :
    (pk n : ℕ) (q : InboundQueue)
    → HasRoomFor (suc n) q
    → (enqueue_inbound pk q).1 ≡ record q { queued = q.queued ++ pk ∷ [] }
unfolding enqueue_inbound
enqueue-room pk n q (inl e) = rw e refl
enqueue-room pk n q (inr h) =
    elim (Bool-cases (ltb 0 q.max_queue_size && leb q.max_queue_size (length q.queued))) [
      | inl y ↦ absurd (ground arith)
      | inr x ↦ rw x refl
    ]

less_room :
    (pk n : ℕ) (q : InboundQueue)
    → HasRoomFor (suc n) q
    → HasRoomFor n (record q { queued = q.queued ++ pk ∷ [] })
less_room pk n q (inl e) = inl e
less_room pk n q (inr h) = inr (omega (arith, h, length-append q.queued (pk ∷ [])))

put_all_lem :
    (pks : List ℕ) (q : InboundQueue)
    → HasRoomFor (length pks) q
    → put_all pks q ≡ record q { queued = q.queued ++ pks }
put_all_lem [] q room = ap (λ xs. record q { queued = xs }) (sym (append-nil q.queued))
put_all_lem (pk ∷ pks) q room =
    ap (put_all pks) (enqueue-room pk (length pks) q room)
    ∙ put_all_lem pks (record q { queued = q.queued ++ pk ∷ [] }) (less_room pk (length pks) q room)
    ∙ ap (λ xs. record q { queued = xs }) (append_assoc q.queued (pk ∷ []) pks)

module _ (env : Env) where
  -- read the row, and post it
  abbrev pub deliver : ℕ → Act Bool
  deliver pk w = continue_with (deliver_inbound_webhooks env) (fetch_inbound_sms env pk w)

  -- 1 where the delivery returned true
  abbrev pub success : Result Bool → ℕ
  success (ok true) = 1
  success (ok false) = 0
  success (err x) = 0

  -- The messages delivered in this order, each in the world that the one before left: how many were
  -- delivered to all of their URLs, and the world at the end.
  unfoldable pub deliver_in_turn : List ℕ → World → ℕ × World
  deliver_in_turn [] w = (0, w)
  deliver_in_turn (pk ∷ pks) w =
      let (n, v) = deliver_in_turn pks (deliver pk w).1 in (success (deliver pk w).0 + n, v)

  -- One message: it leaves the list alone, and counts once.
  abbrev CountsOnce : InboundQueue → Result Bool × World → InboundQueue × World → Type 0
  CountsOnce q d out =
      (out.1 ≡ d.1)
      × ((out.0).queued ≡ q.queued)
      × ((out.0).processed_count ≡ q.processed_count + success d.0)
      × ((out.0).failed_count + success d.0 ≡ suc q.failed_count)

  delivery-CountsOnce :
      (q : InboundQueue) (d : Result Bool × World) → CountsOnce q d (after_delivery env q d)
  delivery-CountsOnce q (ok true, w) = (refl, refl, omega arith, omega arith)
  delivery-CountsOnce q (ok false, w) = (refl, refl, omega arith, omega arith)
  delivery-CountsOnce q (err x, w) = (refl, refl, omega arith, omega arith)

  fetch-CountsOnce :
      (q : InboundQueue) (f : Result InboundSms × World)
      → CountsOnce q (continue_with (deliver_inbound_webhooks env) f) (after_fetch env q f)
  fetch-CountsOnce q (ok inbound, w) =
      delivery-CountsOnce q (deliver_inbound_webhooks env inbound w)
  fetch-CountsOnce q (err does_not_exist, w) = (refl, refl, omega arith, omega arith)
  fetch-CountsOnce q (err x, w) = after_error x
    where
      after_error : (x : Exn) → CountsOnce q (err x, w) (after_fetch env q (err x, w))
      after_error does_not_exist = (refl, refl, omega arith, omega arith)
      after_error x = (refl, refl, omega arith, omega arith)

  round-CountsOnce :
      (pk : ℕ) (pks : List ℕ) (q : InboundQueue) (w : World)
      → q.queued ≡ pk ∷ pks
      → CountsOnce (record q { queued = pks }) (deliver pk w) (inbound_round env q w)
  unfolding inbound_round process_inbound
  round-CountsOnce pk pks q w e =
      rw e (fetch-CountsOnce (record q { queued = pks }) (fetch_inbound_sms env pk w))

  -- A worker has done the jobs as if each message had been delivered in this order.
  abbrev pub DoneInTurn : List ℕ → InboundQueue → World → InboundQueue × World → Type 0
  DoneInTurn pks q w out =
      (out.1 ≡ (deliver_in_turn pks w).1)
      × ((out.0).queued ≡ [])
      × ((out.0).processed_count ≡ q.processed_count + (deliver_in_turn pks w).0)
      × ((out.0).failed_count + (deliver_in_turn pks w).0 ≡ q.failed_count + length pks)

  rounds-DoneInTurn :
      (pks : List ℕ) (q : InboundQueue) (w : World)
      → q.queued ≡ pks
      → DoneInTurn pks q w (rounds env (length pks) (q, w))
  unfolding rounds deliver_in_turn
  rounds-DoneInTurn [] q w e = (refl, e, omega arith, omega arith)
  rounds-DoneInTurn (pk ∷ pks) q w e =
      let (same, left, done, missed) = round-CountsOnce pk pks q w e in
      let (q1, w1) = inbound_round env q w in
      let (ends, none_left, more, fewer) = rounds-DoneInTurn pks q1 w1 left in
      (
        ends ∙ ap (λ v. (deliver_in_turn pks v).1) same,
        none_left,
        omega (arith, more, done, ap (λ v. (deliver_in_turn pks v).0) same),
        omega (arith, fewer, missed, ap (λ v. (deliver_in_turn pks v).0) same),
      )

  -- Messages that are put in a queue that is empty and has room for them, followed by as many rounds of
  -- a worker, end as if each was read and delivered in the order of the puts: with the same world, an
  -- empty queue, as many processed as deliveries returned true, and all others failed.
  pub rounds-put_all :
      (pks : List ℕ) (q : InboundQueue) (w : World)
      → q.queued ≡ []
      → HasRoomFor (length pks) q
      → DoneInTurn pks q w (rounds env (length pks) (put_all pks q, w))
  rounds-put_all pks q w e room =
      subst (λ x. DoneInTurn pks q w (rounds env (length pks) (x, w)))
        (sym (put_all_lem pks q room))
        (rounds-DoneInTurn pks (record q { queued = q.queued ++ pks }) w (ap (λ xs. xs ++ pks) e))
