-- ===== src/ModemReady/Recover/Wait.antt =====
-- The wait for a modem ends: its fuel is not used up before the deadline.
use hi_wave_tel.Prelude.{
  ℕ, zero, suc, ◌+◌, ◌*◌, ◌/◌, ◌≤◌, ◌≡◌, refl, Bool, true, false, not, ltb, arith, if◌then◌else◌,
  Option, none, some,
}
use hi_wave_tel.Runtime.Respects.{Respects}
use hi_wave_tel.Runtime.Exec.{Result, ok, err, pure, modify, gets, ◌>>=◌, ◌>>◌, continue_with}
use hi_wave_tel.World.{Env, World, Act, sleep}
use hi_wave_tel.Mmcli.Frame.{Probes, probe_rules}
use hi_wave_tel.ModemReady.{ReadySettings}
use hi_wave_tel.ModemReady.Recover.{
  one_second, check_or_recover, rescan_or_wait, round, wait_rounds, resolve_working_modem_index,
}
use hi_wave_tel.ModemReady.Recover.Frame.{
  working-Probes, recover-Probes, get_modem_state-Probes, messaging-Probes, try_rescan-Probes,
}

-- A second has passed, if the action returned a value that passes the test.
abbrev pub SlowAt : {A : Type 0} → (A → Bool) → World → Result A × World → Type 0
SlowAt q w (ok a, v) = q a ≡ true → w.clock + one_second ≤ v.clock
SlowAt q w (err x, v) = Unit

record Slow {A : Type 0} (q : A → Bool) (m : Act A) : Type 0 where
  pub at : (w : World) → SlowAt q w (m w)

abbrev anything : {A : Type 0} → A → Bool
anything a = true

Slow-true : Slow not (pure true)
unfolding pure
Slow-true = record { at = λ w t. absurd (ground arith) }

Slow-if :
    {A : Type 0} (q : A → Bool) (b : Bool) (m n : Act A)
    → Slow q m
    → Slow q n
    → Slow q (if b then m else n)
Slow-if q true m n km kn = km
Slow-if q false m n km kn = kn

-- after an action that takes any time
Slow-after :
    {A B : Type 0} (q : B → Bool) (m : Act A) (f : A → Act B)
    → Respects Probes m
    → ((a : A) → Slow q (f a))
    → Slow q (m >>= f)
unfolding ◌>>=◌
Slow-after q m f km kf = record { at = λ w. after w (m w) (km.at w) }
  where
    later : (w v : World) (r : Result _ × World) → w.clock ≤ v.clock → SlowAt q v r → SlowAt q w r
    later w v (ok b, u) le s = λ t. omega (arith, s t)
    later w v (err x, u) le s = tt

    after : (w : World) (r : Result _ × World) → Probes w r.1 → SlowAt q w (continue_with f r)
    after w (ok a, v) p = later w v (f a v) p.clock ((kf a).at v)
    after w (err x, v) p = tt

-- a second of sleep, after which a value is given back
Slow-sleep : {A : Type 0} (a : A) → Slow anything (modify (sleep one_second) >> pure a)
unfolding ◌>>◌ ◌>>=◌ modify pure sleep
Slow-sleep a = record { at = λ w t. omega arith }

-- the same after an action that takes any time
Slow-nap :
    {A : Type 0} (m : Act A)
    → Respects Probes m
    → Slow not (m >> modify (sleep one_second) >> pure false)
unfolding ◌>>◌ ◌>>=◌ modify pure sleep
Slow-nap {A} m km = record { at = λ w. after w (m w) (km.at w) }
  where
    after :
        (w : World) (r : Result A × World)
        → Probes w r.1
        → SlowAt not w
            (continue_with (λ _. pure false) (continue_with (λ _. modify (sleep one_second)) r))
    after w (ok a, v) p = λ t. omega (arith, p.clock)
    after w (err x, v) p = tt

-- a value that is given back with others
Slow-map :
    {A B : Type 0} (p : A → Bool) (q : B → Bool) (m : Act A) (g : A → B)
    → Slow p m
    → ((a : A) → q (g a) ≡ true → p a ≡ true)
    → Slow q (m >>= λ a. pure (g a))
unfolding ◌>>=◌ pure
Slow-map p q m g k h = record { at = λ w. after w (m w) (k.at w) }
  where
    after :
        (w : World) (r : Result _ × World)
        → SlowAt p w r
        → SlowAt q w (continue_with (λ a. pure (g a)) r)
    after w (ok a, v) s = λ t. s (h a t)
    after w (err x, v) s = tt

-- What the wait ends with: a modem that is ready, the deadline, or an exception.
abbrev pub WaitOutcome : ℕ → Result Bool × World → Type 0
WaitOutcome deadline (ok true, v) = Unit
WaitOutcome deadline (ok false, v) = deadline ≤ v.clock
WaitOutcome deadline (err x, v) = Unit

wait_after :
    {A : Type 0} (d : ℕ) (m : Act A) (f : A → Act Bool) (w : World)
    → Respects Probes m
    → ((a : A) (v : World) → w.clock ≤ v.clock → WaitOutcome d (f a v))
    → WaitOutcome d ((m >>= f) w)
unfolding ◌>>=◌
wait_after d m f w km next = after (m w) (km.at w)
  where
    after : (r : Result _ × World) → Probes w r.1 → WaitOutcome d (continue_with f r)
    after (ok a, v) p = next a v p.clock
    after (err x, v) p = tt

wait_past_round :
    {A : Type 0} (d : ℕ) (q : A → Bool) (m : Act A) (f : A → Act Bool) (w : World)
    → Slow q m
    → ((a : A) (v : World) → (q a ≡ true → w.clock + one_second ≤ v.clock) → WaitOutcome d (f a v))
    → WaitOutcome d ((m >>= f) w)
unfolding ◌>>=◌
wait_past_round d q m f w km next = after (m w) (km.at w)
  where
    after : (r : Result _ × World) → SlowAt q w r → WaitOutcome d (continue_with f r)
    after (ok a, v) s = next a v s
    after (err x, v) s = tt

module _ (env : Env) (settings : ReadySettings) where
  check-Slow : (b : Bool) (n : ℕ) → Slow not (check_or_recover env settings b n)
  unfolding check_or_recover
  check-Slow b n = Slow-after not _ _ (get_modem_state-Probes env n) (λ state.
      Slow-after not _ _ (search (probe_rules, messaging-Probes))
        (λ found. Slow-if not found _ _ Slow-true (Slow-nap _ (recover-Probes env settings n))))

  rescan-Slow : (n : ℕ) → Slow anything (rescan_or_wait env settings n)
  unfolding rescan_or_wait
  rescan-Slow n = Slow-after anything _ _ (search probe_rules) (λ now.
      Slow-after anything _ _ (search (probe_rules, try_rescan-Probes) depth 7)
        (λ last. Slow-sleep last))

  abbrev unready : Bool × ℕ → Bool
  unready (r, l) = not r

  round-Slow : (b : Bool) (n : ℕ) (o : Option ℕ) → Slow unready (round env settings b n o)
  round-Slow b n none = Slow-map anything unready _ _ (rescan-Slow n) (λ a h. refl)
  round-Slow b n (some idx) = Slow-map not unready _ _ (check-Slow b idx) (λ a h. h)

  -- The rounds, with fuel for each second up to the deadline.
  wait_rounds-outcome :
      (fuel configured deadline last : ℕ) (b : Bool) (w : World)
      → deadline ≤ w.clock + fuel * one_second
      → WaitOutcome deadline (wait_rounds env settings fuel configured deadline last b w)
  unfolding wait_rounds pure ◌>>=◌ gets
  wait_rounds-outcome zero configured deadline last b w h = omega arith
  wait_rounds-outcome (suc fuel) configured deadline last b w h =
      let rest = wait_rounds-outcome fuel configured deadline in go (ltb w.clock deadline) refl rest
    where
      found :
          (ready : Bool) (l : ℕ) (v u : World)
          → (not ready ≡ true → v.clock + one_second ≤ u.clock)
          → w.clock ≤ v.clock
          → ((k : ℕ) (c : Bool) (x : World)
              → deadline ≤ x.clock + fuel * one_second
              → WaitOutcome deadline (wait_rounds env settings fuel configured deadline k c x))
          → WaitOutcome deadline (
              (elim ready as (λ _. Act Bool) [
                | true ↦ pure true
                | false ↦ wait_rounds env settings fuel configured deadline l b
              ])
                u)
      found true l v u slow le rest = tt
      found false l v u slow le rest = rest l b u (omega (arith, slow refl))

      go :
          (early : Bool)
          → ltb w.clock deadline ≡ early
          → ((k : ℕ) (c : Bool) (x : World)
              → deadline ≤ x.clock + fuel * one_second
              → WaitOutcome deadline (wait_rounds env settings fuel configured deadline k c x))
          → WaitOutcome deadline (
              (elim early as (λ _. Act Bool) [
                | false ↦ pure false
                | true ↦ resolve_working_modem_index env configured >>= λ active.
                    round env settings b last active >>= λ (ready, l).
                    elim ready as (λ _. Act Bool) [
                      | true ↦ pure true
                      | false ↦ wait_rounds env settings fuel configured deadline l b
                    ]
              ])
                w)
      go false e rest = ground arith
      go true e rest = wait_after deadline _ _ w (working-Probes env configured) (λ active v le.
          wait_past_round deadline unready _ _ v (round-Slow b last active)
            (λ (ready, l) u slow. found ready l v u slow le rest))

  -- The wait for a modem returns true, or returns false no earlier than its deadline, or raises: the fuel
  -- that its loop is given, one round for each second, is not used up before.
  pub wait-outcome :
      (configured wait_sec : ℕ) (require_messaging : Bool) (w : World)
      → WaitOutcome (w.clock + wait_sec) (
          wait_rounds env settings
            (wait_sec / one_second + 1)
            configured
            (w.clock + wait_sec)
            0
            require_messaging
            w)
  wait-outcome configured wait_sec require_messaging w =
      wait_rounds-outcome (wait_sec / one_second + 1) configured (w.clock + wait_sec) 0
        require_messaging w (omega arith)
