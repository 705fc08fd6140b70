-- ===== src/Inbound/Polling.antt =====
-- The loop of _fetch_mmcli_snapshot_with_retries ends: its fuel is never used up.
use hi_wave_tel.Prelude.{
  ℕ, zero, suc, ◌+◌, ◌-◌, ◌*◌, ◌/◌, ◌≤◌, ◌<◌, ◌≡◌, refl, inl, inr, ◌⊎◌, Text, Bool, true, false,
  ◌&&◌, ◌||◌, not, Option, some, if◌then◌else◌, ltb, ltb→lt, is_empty, strip, codes, text_eq, arith,
}
use hi_wave_tel.Runtime.Exn.{Exn, mmcli}
use hi_wave_tel.Runtime.Respects.{Respects}
use hi_wave_tel.Runtime.Exec.{Result, ok, err, pure, modify, gets, ◌>>=◌, ◌>>◌}
use hi_wave_tel.World.{Env, World, Act, sleep, increment, mmcli_show_retries}
use hi_wave_tel.Mmcli.Frame.{Probes, probe_rules, show_sms-Probes}
use hi_wave_tel.Mmcli.Snapshot.{Details, extract_state, extract_text}
use native.Mathlib.Nat.{div-lt_iff_lt-mul}
use hi_wave_tel.Inbound.{
  normalize_mm_state, should_retry_empty_mmcli_snapshot, is_terminal_mm_state, positive_or,
  show_or_empty, show_failed, polls_again, poll_rounds, poll_fuel, nap_between_snapshots,
  empty_backoff, receiving_max_wait, max_snapshot_tries,
}

-- The tests of one round, for any values: another round has a reason.
again_reason :
    (body receiving in_time keep terminal has_tries : Bool)
    → (if body
        then false
        else if (receiving && in_time) || (keep && not (not has_tries))
        then true
        else if terminal
        then false
        else if not keep
        then false
        else not (not has_tries))
      ≡ true
    → (in_time ≡ true) ⊎ (has_tries ≡ true)
again_reason body receiving true keep terminal has_tries h = inl refl
again_reason body receiving false keep terminal true h = inr refl
again_reason body receiving false keep terminal false h = absurd (ground arith)

positive_or-positive : (d n : ℕ) → 0 < positive_or (suc d) n
positive_or-positive d zero = omega arith
positive_or-positive d (suc n) = omega arith

quotient_bound : (a b k : ℕ) → 0 < b → a / b + 1 ≤ k → a ≤ k * b
quotient_bound a b k pos le =
    let below : a < k * b = (div-lt_iff_lt-mul pos).0 (omega arith) in omega arith

module _ (env : Env) where
  polls_again-reason :
      (k elapsed : ℕ) (raw : Details)
      → polls_again env k elapsed raw ≡ true
      → (elapsed < receiving_max_wait env) ⊎ (suc k < max_snapshot_tries env)
  unfolding polls_again
  polls_again-reason k elapsed raw h =
      let state = normalize_mm_state (extract_state raw) in
      elim (again_reason (not (is_empty (strip (extract_text raw))))
        (text_eq state (codes "receiving")) (ltb elapsed (receiving_max_wait env))
        (should_retry_empty_mmcli_snapshot raw state) (is_terminal_mm_state state)
        (ltb (suc k) (max_snapshot_tries env)) h) [
          | inl t ↦ inl (ltb→lt _ _ t)
          | inr t ↦ inr (ltb→lt _ _ t)
        ]

  show_failed-Probes : (mm_path : Text) (x : Exn) → Respects Probes (show_failed env mm_path x)
  show_failed-Probes mm_path (mmcli e) = search probe_rules
  show_failed-Probes mm_path x = search probe_rules

  show_or_empty-Probes : (mm_path : Text) → Respects Probes (show_or_empty env mm_path)
  unfolding show_or_empty
  show_or_empty-Probes mm_path = search (probe_rules, show_sms-Probes, show_failed-Probes)

  -- How a run of the loop ends: with a snapshot at which it does not poll again, or with an exception.
  abbrev pub PollOutcome : ℕ → Result (Option Details) × World → Type 0
  PollOutcome started out =
      ((raw : Details) × (k : ℕ) × (out.0 ≡ ok (some raw))
        × (polls_again env k ((out.1).clock - started) raw ≡ false))
      ⊎ ((x : Exn) × (out.0 ≡ err x))

  -- After that many rounds the time for assembly is over.
  waited_enough :
      (k elapsed : ℕ)
      → max_snapshot_tries env + receiving_max_wait env / empty_backoff env + 1 ≤ k
      → k * empty_backoff env ≤ elapsed
      → receiving_max_wait env ≤ elapsed
  waited_enough k elapsed fuel slept =
      let bound =
        quotient_bound (receiving_max_wait env) (empty_backoff env) k
          (positive_or-positive 1499999 env.empty_text_backoff) (omega arith) in
      omega arith

  -- What follows a round that polls again.
  abbrev Next : ℕ → ℕ → ℕ → Text → Type 0
  Next fuel k started mm_path =
      (w : World) (elapsed : ℕ)
      → k * empty_backoff env ≤ elapsed
      → (elapsed < receiving_max_wait env) ⊎ (suc k < max_snapshot_tries env)
      → started + suc k * empty_backoff env ≤ w.clock
      → PollOutcome started (poll_rounds env fuel mm_path started (suc k) w)

  round-outcome :
      (fuel k started : ℕ) (mm_path : Text) (w : World)
      → started + k * empty_backoff env ≤ w.clock
      → Next fuel k started mm_path
      → PollOutcome started (poll_rounds env (suc fuel) mm_path started k w)
  unfolding poll_rounds ◌>>=◌ ◌>>◌ pure gets modify increment nap_between_snapshots sleep
  round-outcome fuel k started mm_path w slept next =
      after (show_or_empty env mm_path w) refl ((show_or_empty-Probes mm_path).at w).clock
    where
      after :
          (r : Result Details × World)
          → show_or_empty env mm_path w ≡ r
          → w.clock ≤ (r.1).clock
          → PollOutcome started (poll_rounds env (suc fuel) mm_path started k w)
      after (err x, w1) e le = rw e (inr (x, refl))
      after (ok raw, w1) e le = rw e (step _ refl)
        where
          step :
              (b : Bool)
              → polls_again env k (w1.clock - started) raw ≡ b
              → PollOutcome started (
                  (elim b as (λ _. Act (Option Details)) [
                    | false ↦ pure (some raw)
                    | true ↦
                        increment mmcli_show_retries
                        >> (modify (nap_between_snapshots env)
                            >> poll_rounds env fuel mm_path started (suc k))
                  ])
                    w1)
          step false stop = inl (raw, k, refl, stop)
          step true again =
              next _ (w1.clock - started) (omega arith) (polls_again-reason k _ raw again)
                (omega arith)

  poll_rounds-outcome :
      (fuel k started : ℕ) (mm_path : Text) (w : World)
      → poll_fuel env ≤ k + suc fuel
      → started + k * empty_backoff env ≤ w.clock
      → PollOutcome started (poll_rounds env (suc fuel) mm_path started k w)
  poll_rounds-outcome zero k started mm_path w enough slept =
      round-outcome 0 k started mm_path w slept (λ w2 elapsed wait reason later.
        absurd (elim reason [
          | inl early ↦ let over = waited_enough k elapsed (omega arith) wait in omega arith
          | inr tries ↦ omega arith
        ]))
  poll_rounds-outcome (suc fuel) k started mm_path w enough slept =
      round-outcome (suc fuel) k started mm_path w slept (λ w2 elapsed wait reason later.
        poll_rounds-outcome fuel (suc k) started mm_path w2 (omega arith) later)

  -- The polling loop always ends, with an exception or with a snapshot at which its tests tell
  -- it to stop: within `poll_fuel` rounds, however long each call takes.
  pub poll-outcome :
      (mm_path : Text) (w : World)
      → PollOutcome w.clock (poll_rounds env (poll_fuel env) mm_path w.clock 0 w)
  poll-outcome mm_path w =
      let e : poll_fuel env ≡ suc (poll_fuel env - 1) = omega arith in
      rw e (poll_rounds-outcome (poll_fuel env - 1) 0 w.clock mm_path w (omega arith) (omega arith))
