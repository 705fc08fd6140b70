-- ===== src/Inbound/Announce.antt =====
-- From a new row of received messages to the job for its webhooks, in one transaction and its commit.
use hi_wave_tel.Prelude.{
  ℕ, suc, ◌≡◌, refl, sym, inl, inr, Text, Bool, true, false, ◌&&◌, not, none, some, [], ◌∷◌, ◌++◌,
  if◌then◌else◌, any, find, Bool-cases,
}
use mathlib.Core.List.{append-nil}
use hi_wave_tel.Runtime.Exec.{Result, ok, pure, try_else, ◌>>=◌, ◌>>◌, continue_with}
use hi_wave_tel.Runtime.Retry.{with_sqlite_retry-recovers, start}
use hi_wave_tel.Models.{InboundSms, Kind, Status}
use hi_wave_tel.World.{Env, World, atomic, commit, query, sqlite_nap}
use hi_wave_tel.World.Calm.{IsCalm, statement-calm, commit-calm, counted_call}
use hi_wave_tel.InboundFilters.{inbound_ready_for_webhook}
use hi_wave_tel.InboundFilters.Echo.{explains, inbound_should_skip_webhook-explains}
use hi_wave_tel.Outbox.{
  Job, refers, schedule_inbound_webhook, schedule_inbound_once, get_or_create_and_requeue,
  create_job,
}
use hi_wave_tel.Inbound.Signal.{webhook_on_save, on_commit, enqueue_to_outbox}
use hi_wave_tel.Inbound.Persist.{
  Snapshot, new_inbound, with_path, insert_inbound, get_or_create, committed, get_or_create_inbound,
}

-- Is the webhook of a new row due, by what is in the row and in the table of sent messages?
abbrev pub is_due_for : InboundSms → World → Bool
is_due_for obj w = inbound_ready_for_webhook obj && not (any (explains obj w.clock) w.outbound)

-- the job of a new received message
abbrev pub pending_for : ℕ → ℕ → ℕ → Job
pending_for pk inbound now = record {
  pk = pk;
  kind = Kind.inbound;
  inbound_sms = some inbound;
  outbound_sms = none;
  status = Status.pending;
  attempts = 0;
  last_error = [];
  created_at = now;
  updated_at = now;
  delivered_at = none;
}

-- The world with a row stored, and its job where the webhook is due.
abbrev pub with_job : Bool → ℕ → World → World
with_job true inbound w = record w {
  jobs = w.jobs ++ pending_for w.next_pk inbound w.clock ∷ [];
  next_pk = suc w.next_pk;
}
with_job false inbound w = w

module _ (env : Env) (calm : IsCalm env) where
  on_save-is_due :
      (obj : InboundSms) (w : World)
      → (n : ℕ) × (webhook_on_save env true none obj w
          ≡ (ok (is_due_for obj w), record w { db_calls = n }))
  unfolding webhook_on_save ◌>>=◌ pure
  on_save-is_due obj w = elim (Bool-cases (inbound_ready_for_webhook obj)) [
    | inl y ↦
        let (n, e) = inbound_should_skip_webhook-explains env calm obj w in
        (n, rw (y, webhook_on_save, e) (flag (any (explains obj w.clock) w.outbound)))
    | inr x ↦ (w.db_calls, rw (x, webhook_on_save) refl)
  ]
    where
      flag :
          (b : Bool) {n : ℕ}
          → ◌≡◌ {A = Result Bool × World}
              (ok (not b && true), record w { db_calls = n })
              (ok (not b), record w { db_calls = n })
      flag true = refl
      flag false = refl

  schedule_once-new :
      (inbound : ℕ) (w : World)
      → find (λ (j : Job). refers j.inbound_sms inbound) w.jobs ≡ none
      → schedule_inbound_once env inbound w ≡ (
        ok (pending_for w.next_pk inbound w.clock),
        record (with_job true inbound w) { db_calls = suc (suc w.db_calls) },
      )
  unfolding schedule_inbound_once get_or_create_and_requeue query create_job ◌>>=◌
  schedule_once-new inbound w h =
      rw
        (
          schedule_inbound_once,
          statement-calm env calm
              (λ v. (ok (find (λ (j : Job). refers j.inbound_sms inbound) v.jobs), v)) w,
          h,
        )
        (statement-calm env calm _ (counted_call w))

  on_commit-new :
      (b : Bool) (obj : InboundSms) (w : World)
      → find (λ (j : Job). refers j.inbound_sms obj.pk) w.jobs ≡ none
      → (n : ℕ) × (on_commit env b obj w ≡ (ok tt, record (with_job b obj.pk w) { db_calls = n }))
  unfolding on_commit enqueue_to_outbox try_else schedule_inbound_webhook pure
  on_commit-new false obj w h = (w.db_calls, refl)
  on_commit-new true obj w h =
      let once = schedule_once-new obj.pk w h in
      let all =
        with_sqlite_retry-recovers env.sqlite_retries (sqlite_nap env)
          (schedule_inbound_once env obj.pk) {u = w} start calm.some_tries (inl (rw once refl)) in
      (
        suc (suc w.db_calls),
        rw (on_commit, enqueue_to_outbox, schedule_inbound_webhook, all, once) refl,
      )

  -- What a first snapshot of a path leaves: the row, and its job exactly where the webhook is due.
  abbrev pub Announced : World → InboundSms → Result (InboundSms × Bool) × World → Type 0
  Announced w obj r =
      (r.0 ≡ ok (obj, true))
      × ((r.1).inbound ≡ w.inbound ++ obj ∷ [])
      × ((r.1).jobs
          ≡ w.jobs
            ++ (if is_due_for obj w then pending_for (suc w.next_pk) obj.pk w.clock ∷ [] else []))

  module _ (mm_path : Text) (modem_index : ℕ) (d : Snapshot) (w : World) where
    abbrev new_row : InboundSms
    new_row = new_inbound w.next_pk w.clock mm_path modem_index d

    abbrev inserted : World
    inserted = record w {
      inbound = w.inbound ++ new_row ∷ [];
      next_pk = suc w.next_pk;
      db_calls = suc (suc w.db_calls);
    }

    created_new :
        find (with_path mm_path) w.inbound ≡ none
        → (n : ℕ) × (get_or_create env mm_path modem_index d w
            ≡ (ok (new_row, true, is_due_for new_row w), record inserted { db_calls = n }))
    unfolding get_or_create query insert_inbound ◌>>=◌ pure
    created_new h =
        let (n, e) = on_save-is_due new_row inserted in
        (
          n,
          rw
              (
                get_or_create,
                statement-calm env calm (λ v. (ok (find (with_path mm_path) v.inbound), v)) w,
                h,
                insert_inbound,
                statement-calm env calm _ (counted_call w),
                e,
              )
              refl,
        )

    jobs_after :
        (b : Bool)
        → (with_job b new_row.pk inserted).jobs
          ≡ w.jobs ++ (if b then pending_for (suc w.next_pk) new_row.pk w.clock ∷ [] else [])
    jobs_after true = refl
    jobs_after false = sym (append-nil w.jobs)

    inbound_after :
        (b : Bool) → (with_job b new_row.pk inserted).inbound ≡ w.inbound ++ new_row ∷ []
    inbound_after true = refl
    inbound_after false = refl

    committed_new :
        (b : Bool) (n : ℕ)
        → find (λ (j : Job). refers j.inbound_sms w.next_pk) w.jobs ≡ none
        → (m : ℕ) × ((continue_with
              (committed env)
              (commit env w (ok (new_row, true, b), record inserted { db_calls = n })))
            ≡ (ok (new_row, true), record (with_job b new_row.pk inserted) { db_calls = m }))
    unfolding ◌>>◌ ◌>>=◌ pure
    committed_new true n h =
        let (m, e) = on_commit-new true new_row (record inserted { db_calls = suc n }) h in
        (m, rw (commit-calm env calm _ w (record inserted { db_calls = n }), e) refl)
    committed_new false n h =
        let (m, e) = on_commit-new false new_row (record inserted { db_calls = suc n }) h in
        (m, rw (commit-calm env calm _ w (record inserted { db_calls = n }), e) refl)

    -- In a run without database errors, get_or_create_inbound at a path that the table of received
    -- messages does not have, under a key that no job refers to, stores the new row at the table's end
    -- and gives it back. One pending job for it is added exactly where the row has a text or a
    -- sender and no sent message explains it; the other jobs are as they were.
    pub get_or_create-Announced :
        find (with_path mm_path) w.inbound ≡ none
        → find (λ (j : Job). refers j.inbound_sms w.next_pk) w.jobs ≡ none
        → Announced w new_row (get_or_create_inbound env mm_path modem_index d w)
    unfolding get_or_create_inbound atomic ◌>>=◌
    get_or_create-Announced h free =
        let (n, e) = created_new h in
        let b = is_due_for new_row w in
        let (m, c) = committed_new b n free in
        rw (get_or_create_inbound, atomic, e, c) (refl, inbound_after b, jobs_after b)
