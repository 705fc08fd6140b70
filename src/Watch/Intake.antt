-- ===== src/Watch/Intake.antt =====
-- What a signal of a new message, and a list of messages, leave in the persist queue.
use hi_wave_tel.Prelude.{
  ℕ, suc, ◌≤◌, ◌<◌, ◌≡◌, refl, sym, ap, ◌∙◌, inl, inr, Text, codes, Bool, true, false, List, [],
  ◌∷◌, ◌++◌, if◌then◌else◌, leb, length, take, map, Bool-cases, Option-cases, arith,
}
use mathlib.Core.List.{append-nil, append_assoc}
use hi_wave_tel.Runtime.Exec.{
  Result, ok, err, pure, modify, try_else, handle_with, ◌>>=◌, ◌>>◌, continue_with,
}
use hi_wave_tel.Runtime.Respects.{IsPreorder, Respects, respects_rules}
use hi_wave_tel.World.{
  Env, World, increment, Metric, enqueue_success, enqueue_failed_queue_full, dbus_signals_received,
}
use hi_wave_tel.World.Calm.{IsCalm}
use hi_wave_tel.Dlq.{count_enqueued, dlq_statement, enqueue, enqueue_persist_failure}
use hi_wave_tel.PersistQueue.{Item, is_full, enqueue_sms}
use hi_wave_tel.PersistQueue.Fate.{InDlq, HasRoom, failure-InDlq}
use hi_wave_tel.Watch.{on_added, enqueue_or_dlq, enqueue_paths}

-- Recording a failure leaves the persist queue alone.
abbrev SameQueue : World → World → Type 0
SameQueue w w' = w'.persist_queue ≡ w.persist_queue

SameQueue-IsPreorder : IsPreorder SameQueue
SameQueue-IsPreorder = record { refl = λ w. refl; trans = λ u v w a b. b ∙ a }

increment-SameQueue : (m : Metric) → Respects SameQueue (increment m)
unfolding increment modify
increment-SameQueue m = record { at = λ w. refl }

module _ (env : Env) where
  dlq_statement-SameQueue :
      {A : Type 0} (f : World → A × World)
      → ((w : World) → ((f w).1).persist_queue ≡ w.persist_queue)
      → Respects SameQueue (dlq_statement env f)
  unfolding dlq_statement
  dlq_statement-SameQueue f h = record {
    at = λ w. elim (Option-cases (env.db_error w.db_calls)) [
      | inl e ↦ rw (dlq_statement, e) (h (record w { db_calls = suc w.db_calls }))
      | inr (m, e) ↦ rw (dlq_statement, e) refl
    ];
  }

  enqueue-SameQueue :
      (sms_path : Text) (modem_index : ℕ) (error : Text)
      → Respects SameQueue (enqueue env sms_path modem_index error)
  unfolding enqueue
  enqueue-SameQueue sms_path modem_index error = dlq_statement-SameQueue _ (λ w.
      elim (Bool-cases (leb env.dlq_max_size (length w.dlq))) [
        | inl y ↦ rw y refl
        | inr n ↦ rw n refl
      ])

  count-SameQueue : (b : Bool) → Respects SameQueue (count_enqueued env b)
  count-SameQueue true = increment-SameQueue _
  count-SameQueue false = search (respects_rules, SameQueue-IsPreorder)

  failure-SameQueue :
      (sms_path : Text) (modem_index : ℕ) (error : Text)
      → Respects SameQueue (enqueue_persist_failure env sms_path modem_index error)
  unfolding enqueue_persist_failure
  failure-SameQueue sms_path modem_index error =
      search
        (
          respects_rules, SameQueue-IsPreorder, increment-SameQueue, enqueue-SameQueue,
          count-SameQueue,
        )
        depth 9

  -- put with room, and without
  enqueue_sms-room :
      (sms_path : Text) (modem_index : ℕ) (w : World)
      → is_full env w.persist_queue ≡ false
      → enqueue_sms env sms_path modem_index w ≡ (
        ok true,
        record w {
          persist_queue = w.persist_queue ++ (sms_path, modem_index) ∷ [];
          counted = enqueue_success ∷ w.counted;
        },
      )
  unfolding enqueue_sms ◌>>◌ ◌>>=◌ modify increment pure
  enqueue_sms-room sms_path modem_index w h = rw (enqueue_sms, h) refl

  enqueue_sms-full :
      (sms_path : Text) (modem_index : ℕ) (w : World)
      → is_full env w.persist_queue ≡ true
      → enqueue_sms env sms_path modem_index w
        ≡ (ok false, record w { counted = enqueue_failed_queue_full ∷ w.counted })
  unfolding enqueue_sms ◌>>◌ ◌>>=◌ modify increment pure
  enqueue_sms-full sms_path modem_index w h = rw (enqueue_sms, h) refl

  -- Where a signalled path is: at the end of the persist queue if it had room; otherwise in the
  -- dead-letter queue, with the persist queue as it was.
  abbrev pub Signalled : Text → ℕ → World → Result (Unit {0}) × World → Type 0
  Signalled sms_path modem_index w out =
      if is_full env w.persist_queue
      then (out.0 ≡ ok tt) × InDlq sms_path out.1 × ((out.1).persist_queue ≡ w.persist_queue)
      else (out.0 ≡ ok tt)
        × ((out.1).persist_queue ≡ w.persist_queue ++ (sms_path, modem_index) ∷ [])

  -- In a run without database errors, and where the dead-letter queue is in use and not full if the
  -- persist queue is full, the handler of the signal for a new message raises nothing: the path is
  -- queued behind the others or, with a full persist queue, is in the dead-letter queue.
  pub on_added-Signalled :
      IsCalm env
      → (modem_index : ℕ) (sms_path : Text) (w : World)
      → (is_full env w.persist_queue ≡ true → HasRoom env w)
      → Signalled sms_path modem_index w (on_added env modem_index sms_path w)
  unfolding on_added ◌>>=◌ ◌>>◌ try_else increment modify pure
  on_added-Signalled calm modem_index sms_path w has =
      let u : World = record w { counted = dbus_signals_received ∷ w.counted } in
      elim (Bool-cases (is_full env w.persist_queue)) [
        | inl full ↦
            rw (full, enqueue_sms-full sms_path modem_index u full)
              (let (v, e, there, same) =
                  failure-InDlq env calm sms_path modem_index (codes "persist queue full")
                    (record u { counted = enqueue_failed_queue_full ∷ u.counted }) (has full) in
                rw e (refl, there, same))
        | inr free ↦ rw (free, enqueue_sms-room sms_path modem_index u free) (refl, refl)
      ]

  abbrev pub items_of : ℕ → List Text → List Item
  items_of modem_index paths = map (λ p. (p, modem_index)) paths

  -- one path of a list, whatever the database of the dead-letter queue does
  enqueue_or_dlq-room :
      (modem_index : ℕ) (path : Text) (w : World)
      → is_full env w.persist_queue ≡ false
      → (v : World) × (enqueue_or_dlq env modem_index path w ≡ (ok 1, v))
        × (v.persist_queue ≡ w.persist_queue ++ (path, modem_index) ∷ [])
  unfolding enqueue_or_dlq try_else ◌>>=◌ ◌>>◌ pure
  enqueue_or_dlq-room modem_index path w h = (
    record w {
      persist_queue = w.persist_queue ++ (path, modem_index) ∷ [];
      counted = enqueue_success ∷ w.counted;
    },
    rw (enqueue_or_dlq, enqueue_sms-room path modem_index w h) refl,
    refl,
  )

  enqueue_or_dlq-full :
      (modem_index : ℕ) (path : Text) (w : World)
      → is_full env w.persist_queue ≡ true
      → (v : World) × (enqueue_or_dlq env modem_index path w ≡ (ok 0, v))
        × (v.persist_queue ≡ w.persist_queue)
  unfolding enqueue_or_dlq try_else ◌>>=◌ ◌>>◌ pure
  enqueue_or_dlq-full modem_index path w h =
      let u : World = record w { counted = enqueue_failed_queue_full ∷ w.counted } in
      let error : Text = codes "persist queue full (snapshot)" in
      let (v, e, same) =
        after (enqueue_persist_failure env path modem_index error u)
          ((failure-SameQueue path modem_index error).at u) in
      (v, rw (enqueue_or_dlq, enqueue_sms-full path modem_index w h) e, same)
    where
      after :
          (r : Result (Unit {0}) × World)
          → (r.1).persist_queue ≡ w.persist_queue
          → (v : World) × (handle_with {A = ℕ} (λ exc. pure 0) pure (continue_with (λ t. pure 0) r)
              ≡ (ok 0, v))
            × (v.persist_queue ≡ w.persist_queue)
      after (ok t, v) s = (v, refl, s)
      after (err x, v) s = (v, refl, s)

  -- The first `n` of the paths stand behind the old items; the others found the queue full.
  abbrev pub Filled : ℕ → List Text → World → Result ℕ × World → Type 0
  Filled modem_index paths w out =
      (n : ℕ) × (v : World) × (out ≡ (ok n, v))
      × (v.persist_queue ≡ w.persist_queue ++ items_of modem_index (take n paths))
      × (n ≤ length paths)
      × (n < length paths → is_full env v.persist_queue ≡ true)

  Filled-nil : (modem_index : ℕ) (w : World) → Filled modem_index [] w (ok 0, w)
  Filled-nil modem_index w =
      (0, w, refl, sym (append-nil w.persist_queue), omega arith, λ h. absurd (omega arith))

  -- full stays full
  full_on :
      (modem_index : ℕ) (paths : List Text) (w : World)
      → is_full env w.persist_queue ≡ true
      → (v : World) × (enqueue_paths env modem_index paths w ≡ (ok 0, v))
        × (v.persist_queue ≡ w.persist_queue)
  unfolding enqueue_paths ◌>>=◌ pure
  full_on modem_index [] w h = (w, refl, refl)
  full_on modem_index (path ∷ paths) w h =
      let (u, e, s) = enqueue_or_dlq-full modem_index path w h in
      let (v, e', s') = full_on modem_index paths u (ap (is_full env) s ∙ h) in
      (v, rw (e, e') refl, s' ∙ s)

  -- Whatever errors its databases raise, the intake of a list of paths returns. It gives the number n of
  -- paths that were queued: the first n of the list, behind the items that were there; and if that is
  -- not all of them, the persist queue is full.
  pub enqueue_paths-Filled :
      (modem_index : ℕ) (paths : List Text) (w : World)
      → Filled modem_index paths w (enqueue_paths env modem_index paths w)
  unfolding enqueue_paths ◌>>=◌ pure
  enqueue_paths-Filled modem_index [] w = Filled-nil modem_index w
  enqueue_paths-Filled modem_index (path ∷ paths) w =
      elim (Bool-cases (is_full env w.persist_queue)) [
        | inl full ↦
            let (v, e, s) = full_on modem_index (path ∷ paths) w full in
            (
              0,
              v,
              e,
              s ∙ sym (append-nil w.persist_queue),
              omega arith,
              λ h. ap (is_full env) s ∙ full,
            )
        | inr room ↦
            let (u, e, s) = enqueue_or_dlq-room modem_index path w room in
            let (n, v, e', s', le, rest) = enqueue_paths-Filled modem_index paths u in
            (
              suc n,
              v,
              rw (e, e') (ap (λ (k : ℕ). (ok k, v)) (omega arith)),
              s'
                  ∙ ap (λ (q : List Item). q ++ items_of modem_index (take n paths)) s
                  ∙ append_assoc w.persist_queue ((path, modem_index) ∷ [])
                      (items_of modem_index (take n paths)),
              omega (arith, le),
              λ h. rest (omega (arith, h)),
            )
      ]
