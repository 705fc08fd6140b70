-- ===== src/Mmcli/Retries.antt =====
-- How the retry loop of mmcli_client.py ends.
use hi_wave_tel.Prelude.{
  ℕ, zero, suc, ◌+◌, ◌-◌, ◌≤◌, ◌<◌, ◌≡◌, refl, inl, inr, ◌⊎◌, Text, Bool, true, false, ◌&&◌, not,
  List, leb, if◌then◌else◌, arith, Bool-cases, max, Option, none, some, ◌==◌,
}
use hi_wave_tel.Runtime.Exn.{mmcli, raised, MmcliError}
use hi_wave_tel.Runtime.Exec.{Result, ok, err, ◌>>=◌, ◌>>◌, pure, raise, modify}
use hi_wave_tel.World.{Env, World, Run, completed, timeout_expired, not_run, sleep}
use hi_wave_tel.Mmcli.{
  Completed, run, retry_rounds, retrying_run, default_should_retry, exit_error, timeout_error,
  is_zero,
}

-- What a run of the process means for its caller.
abbrev pub answer : Env → Text → Run → Result Completed
answer env what (completed rc out e) =
    let cp : Completed = record { returncode = rc; stdout = out; stderr = e } in
    if is_zero rc then ok cp else err (mmcli (exit_error what cp))
answer env what timeout_expired = err (mmcli (timeout_error env))
answer env what (not_run m) = err (raised m)

-- It ended with an exit code other than 0, and with an output that asks for another attempt.
unfoldable pub is_transient : Text → Run → Bool
is_transient what (completed rc out e) =
    not (is_zero rc)
    && default_should_retry (exit_error what (record { returncode = rc; stdout = out; stderr = e }))
is_transient what _ = false

module _ (env : Env) (argv : List Text) (what : Text) where
  -- Of `tries` calls from number m on, the n-th is the first that was not transient, or the last.
  abbrev pub StopsAt : ℕ → ℕ → ℕ → Type 0
  StopsAt m tries n =
      (m ≤ n)
      × (n < m + tries)
      × ((j : ℕ) → m ≤ j → j < n → is_transient what (env.mmcli j argv) ≡ true)
      × ((suc n ≡ m + tries) ⊎ (is_transient what (env.mmcli n argv) ≡ false))

  abbrev pub RetryOutcome : ℕ → World → Result Completed × World → Type 0
  RetryOutcome tries w out =
      (n : ℕ) × StopsAt w.mmcli_calls tries n
      × (out.0 ≡ answer env what (env.mmcli n argv))
      × ((out.1).mmcli_calls ≡ suc n)

  stops_now : (m tries : ℕ) → is_transient what (env.mmcli m argv) ≡ false → StopsAt m (suc tries) m
  stops_now m tries h = (omega arith, omega arith, (λ j lo hi. absurd (omega arith)), inr h)

  stops_last : (m : ℕ) → StopsAt m 1 m
  stops_last m = (omega arith, omega arith, (λ j lo hi. absurd (omega arith)), inl (omega arith))

  stops_later :
      (m tries n : ℕ)
      → is_transient what (env.mmcli m argv) ≡ true
      → StopsAt (suc m) tries n
      → StopsAt m (suc tries) n
  stops_later m tries n h (lo, hi, all, end) = (
    omega arith,
    omega arith,
    λ j from upto. elim (Bool-cases (m == j)) [
      | inl q ↦ let same : m ≡ j = ground arith in rw (← same) h
      | inr q ↦ all j (ground arith) upto
    ],
    elim end [ inl e ↦ inl (omega arith) | inr e ↦ inr e ],
  )

  -- One round by the answer of the process: the loop ends with it, or goes on after a sleep.
  abbrev Round : ℕ → ℕ → World → Run → Result Completed × World → Type 0
  Round left attempt w r out =
      (((leb env.mmcli_retries (suc attempt) ≡ true) ⊎ (is_transient what r ≡ false))
        × (out.0 ≡ answer env what r)
        × ((out.1).mmcli_calls ≡ suc w.mmcli_calls))
      ⊎ ((leb env.mmcli_retries (suc attempt) ≡ false)
          × (is_transient what r ≡ true)
          × ((e : MmcliError) × (w' : World) × (w'.mmcli_calls ≡ suc w.mmcli_calls)
              × (out ≡ retry_rounds env argv what left (suc attempt) (some e) w')))

  retry_rounds-Round :
      (left attempt : ℕ) (last : Option MmcliError) (w : World) (r : Run)
      → env.mmcli w.mmcli_calls argv ≡ r
      → Round left attempt w r (retry_rounds env argv what (suc left) attempt last w)
  unfolding retry_rounds run ◌>>=◌ ◌>>◌ pure raise modify is_transient sleep
  retry_rounds-Round left attempt last w (completed rc o e) h = elim (Bool-cases (is_zero rc)) [
    | inl z ↦ rw (h, z) (inl (inr refl, refl, refl))
    | inr nz ↦
        let x = exit_error what (record { returncode = rc; stdout = o; stderr = e }) in
        elim (Bool-cases (leb env.mmcli_retries (suc attempt))) [
          | inl done ↦ rw (h, nz, done) (inl (inl refl, refl, refl))
          | inr more ↦ elim (Bool-cases (default_should_retry x)) [
            | inl again ↦ rw (h, nz, more, again) (inr (refl, refl, (x, _, refl, refl)))
            | inr never ↦ rw (h, nz, more, never) (inl (inr refl, refl, refl))
          ]
        ]
  ]
  retry_rounds-Round left attempt last w timeout_expired h = rw h (inl (inr refl, refl, refl))
  retry_rounds-Round left attempt last w (not_run m) h = rw h (inl (inr refl, refl, refl))

  retry_rounds-outcome :
      (left attempt : ℕ) (last : Option MmcliError) (w : World)
      → suc left + attempt ≡ max 1 env.mmcli_retries
      → RetryOutcome (suc left) w (retry_rounds env argv what (suc left) attempt last w)
  retry_rounds-outcome zero attempt last w count =
      elim (retry_rounds-Round zero attempt last w (env.mmcli w.mmcli_calls argv) refl) [
        | inl (ended_by, same, calls) ↦ (w.mmcli_calls, stops_last _, same, calls)
        | inr (more, again, rest) ↦ absurd (ground arith)
      ]
  retry_rounds-outcome (suc left) attempt last w count =
      elim (retry_rounds-Round (suc left) attempt last w (env.mmcli w.mmcli_calls argv) refl) [
        | inl (inr stop, same, calls) ↦ (w.mmcli_calls, stops_now _ _ stop, same, calls)
        | inl (inl done, same, calls) ↦ absurd (ground arith)
        | inr (more, again, (x, w', calls, e)) ↦
            let (n, stops, same, ended_at) =
              retry_rounds-outcome left (suc attempt) (some x) w' (omega arith) in
            (n, stops_later _ _ n again (rw (← calls) stops), rw e same, rw e ended_at)
      ]

  -- The call to mmcli ends with the answer of one process, at most `max(1, retries)` in all: the
  -- first that is not transient, or the last that is allowed. A process is transient when it ended
  -- with an exit code other than 0 and with an output that `_default_should_retry` knows.
  pub retrying_run-outcome :
      (w : World) → RetryOutcome (max 1 env.mmcli_retries) w (retrying_run env argv what w)
  unfolding retrying_run
  retrying_run-outcome w =
      let e : max 1 env.mmcli_retries ≡ suc (max 1 env.mmcli_retries - 1) = ground arith in
      rw e (retry_rounds-outcome (max 1 env.mmcli_retries - 1) 0 none w (omega arith))

  -- A run that stops late does not time out at once.
  timeout_at_once : (m tries n : ℕ) → env.mmcli m argv ≡ timeout_expired → StopsAt m tries n → n ≡ m
  unfolding is_transient
  timeout_at_once m tries n h (lo, hi, all, end) = elim (Bool-cases (leb n m)) [
    | inl le ↦ ground arith
    | inr gt ↦
        let bad : is_transient what (env.mmcli m argv) ≡ true =
          all m (omega arith) (ground arith) in
        let good : is_transient what (env.mmcli m argv) ≡ false = rw h refl in absurd (ground arith)
  ]

  -- A time-out in the first attempt ends the call with its error after that one process, although
  -- `_default_should_retry` holds of the error and however many attempts are allowed.
  pub retrying_run-timeout :
      (w : World)
      → env.mmcli w.mmcli_calls argv ≡ timeout_expired
      → ((retrying_run env argv what w).0 ≡ err (mmcli (timeout_error env)))
        × (((retrying_run env argv what w).1).mmcli_calls ≡ suc w.mmcli_calls)
        × (default_should_retry (timeout_error env) ≡ true)
  retrying_run-timeout w h =
      let (n, stops, same, calls) = retrying_run-outcome w in
      let first : n ≡ w.mmcli_calls = timeout_at_once _ _ n h stops in
      (rw same (rw (first, h) refl), rw (calls, first) refl, unfold default_should_retry in refl)
