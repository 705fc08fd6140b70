-- ===== src/Runtime/Retry.antt =====
-- The loop `for attempt in range(retries): try: return fn()` that retries SQLite's busy errors. It
-- stands in webhook_outbox._with_sqlite_retry, outbound_processor._fetch_with_sqlite_retry,
-- inbound_processor._fetch_inbound_sms and services.persist_inbound_sms.
use hi_wave_tel.Prelude.{
  ℕ, zero, suc, ◌+◌, ◌-◌, ◌<◌, ◌≡◌, refl, ◌⊎◌, inl, inr, Option, none, some, Bool, true, false,
  ◌||◌, not, leb, arith, ap, codes, or_else, Bool-cases,
}
use hi_wave_tel.Runtime.Exn.{Exn, runtime_error, is_busy}
use hi_wave_tel.Runtime.Exec.{Exec, Result, ok, err, handle_with}

-- Is the outcome of a call final, whatever attempts are left?
abbrev pub is_settled : {A : Type 0} → Result A → Bool
is_settled (ok a) = true
is_settled (err x) = not (is_busy x)

module _ {S A : Type 0} (retries : ℕ) (nap : ℕ → S → S) (fn : Exec S A) where
  -- `left` rounds of the range are left, and `last` is `last_exc`.
  unfoldable pub retry_loop : (left attempt : ℕ) → Option Exn → Exec S A
  retry_loop zero attempt last s =
      (err (or_else last (runtime_error (codes "SQLite retry exhausted"))), s)
  retry_loop (suc left) attempt last s =
      handle_with
        (λ x s'. elim (not (is_busy x) || leb (retries - 1) attempt) [
          | true ↦ (err x, s')
          | false ↦ retry_loop left (suc attempt) (some x) (nap attempt s')
        ])
        (λ a s'. (ok a, s')) (fn s)

  -- `nap attempt` is the pause after a busy attempt.
  unfoldable pub with_sqlite_retry : Exec S A
  unfolding retry_loop
  with_sqlite_retry = retry_loop retries 0 none

  -- `n` busy attempts, numbered from `k`, each followed by its pause, lead from `s` to `u`.
  pub data BusyRun : ℕ → ℕ → S → S → Type 0 where
    start : {k : ℕ} {s : S} → BusyRun k zero s s
    again :
        {k n : ℕ} {s t u : S} (x : Exn)
        → fn s ≡ (err x, t)
        → is_busy x ≡ true
        → BusyRun (suc k) n (nap k t) u
        → BusyRun k (suc n) s u

  -- `fn u` decides: it is final, or it is the last attempt of all.
  pub record Decides (k left : ℕ) (s : S) : Type 0 where
    pub tries : ℕ
    pub at : S
    pub run : BusyRun k tries s at
    pub within : tries < left
    pub final : (is_settled (fn at).0 ≡ true) ⊎ (suc tries ≡ left)
    pub result : (o : Option Exn) → retry_loop left k o s ≡ fn at

  after_outcome :
      (l k : ℕ) (s : S) (r : Result A × S)
      → fn s ≡ r
      → l + k + 1 ≡ retries
      → ((t : S) → 0 < l → Decides (suc k) l t)
      → Decides k (suc l) s
  unfolding retry_loop
  after_outcome l k s (ok a, t) e fits later = record {
    tries = 0;
    at = s;
    run = start;
    within = omega arith;
    final = inl (rw e);
    result = λ o. rw (e, retry_loop) refl;
  }
  after_outcome l k s (err x, t) e fits later = elim (Bool-cases (is_busy x)) [
    | inl busy ↦ elim (Bool-cases (leb (retries - 1) k)) [
      | inl end ↦ record {
        tries = 0;
        at = s;
        run = start;
        within = omega arith;
        final = inr (ground arith);
        result = λ o. rw (e, retry_loop, handle_with) (rw (busy, end) refl);
      }
      | inr more ↦
          let rest = later (nap k t) (ground arith) in
          record {
            tries = suc rest.tries;
            at = rest.at;
            run = again x e busy rest.run;
            within = omega (arith, rest.within);
            final = elim rest.final [ inl f ↦ inl f | inr f ↦ inr (ap suc f) ];
            result = λ o. rw (e, retry_loop, handle_with) (rw (busy, more) (rest.result (some x)));
          }
    ]
    | inr calm ↦ record {
      tries = 0;
      at = s;
      run = start;
      within = omega arith;
      final = inl (rw (e, calm) refl);
      result = λ o. rw (e, retry_loop, handle_with) (rw calm refl);
    }
  ]

  loop-Decides : (left k : ℕ) (s : S) → left + k ≡ retries → 0 < left → Decides k left s
  loop-Decides zero k s fits h = elim h [ ]
  loop-Decides (suc l) k s fits h =
      after_outcome l k s (fn s) refl (omega arith)
        (λ t pos. loop-Decides l (suc k) t (omega arith) pos)

  -- The loop ends with the outcome of the first attempt that is not busy, or of the last one, after
  -- at most `retries` attempts and with the pauses in between.
  pub with_sqlite_retry-decides :
      0 < retries
      → (s : S)
      → (n : ℕ) × (u : S) × BusyRun 0 n s u
        × (n < retries)
        × ((is_settled (fn u).0 ≡ true) ⊎ (suc n ≡ retries))
        × (with_sqlite_retry s ≡ fn u)
  unfolding with_sqlite_retry
  with_sqlite_retry-decides h s =
      let d = loop-Decides retries 0 s (omega arith) h in
      (d.tries, d.at, d.run, d.within, d.final, d.result none)

  stop_at :
      (l k : ℕ) (o : Option Exn) (s : S) (r : Result A × S)
      → fn s ≡ r
      → l + k + 1 ≡ retries
      → (is_settled r.0 ≡ true) ⊎ (1 ≡ suc l)
      → retry_loop (suc l) k o s ≡ r
  unfolding retry_loop
  stop_at l k o s (ok a, t) e fits f = rw (e, retry_loop) refl
  stop_at l k o s (err x, t) e fits (inl f) = rw (e, retry_loop, handle_with) (rw f refl)
  stop_at l k o s (err x, t) e fits (inr f) =
      rw (e, retry_loop, handle_with)
        (let last : leb (retries - 1) k ≡ true = ground arith in
          elim (Bool-cases (is_busy x)) [ inl b ↦ rw (b, last) refl | inr b ↦ rw b refl ])

  loop-recovers :
      (left : ℕ) (o : Option Exn) {k n : ℕ} {s u : S}
      → BusyRun k n s u
      → n < left
      → left + k ≡ retries
      → (is_settled (fn u).0 ≡ true) ⊎ (suc n ≡ left)
      → retry_loop left k o s ≡ fn u
  unfolding retry_loop
  loop-recovers zero o {k} {n} {s} {u} run h fits f = absurd (omega arith)
  loop-recovers (suc l) o {k} {n} {s} {u} start h fits f =
      stop_at l k o s (fn s) refl (omega arith) f
  loop-recovers (suc l) o {k} {n} {s} {u} (again {n = m} x e b run) h fits f =
      let early : leb (retries - 1) k ≡ false = ground arith in
      rw (e, retry_loop, handle_with)
        (rw (b, early)
          (loop-recovers l (some x) {k = suc k} run (omega arith) (omega arith)
            (elim f [ inl g ↦ inl g | inr g ↦ inr (omega arith) ])))

  -- After `n < retries` busy attempts, one whose outcome is final, or the last one, gives the result.
  pub with_sqlite_retry-recovers :
      {n : ℕ} {s u : S}
      → BusyRun 0 n s u
      → n < retries
      → (is_settled (fn u).0 ≡ true) ⊎ (suc n ≡ retries)
      → with_sqlite_retry s ≡ fn u
  unfolding with_sqlite_retry
  with_sqlite_retry-recovers run h f = loop-recovers retries none run h (omega arith) f

  -- An invariant `P` of the states between attempts, and what each attempt ensures of its outcome.
  module _ (P : S → Type 0) (W : Result A × S → Type 0) where
    after_attempt :
        (b : Bool) (x : Exn) (t u : S) (m : Exec S A)
        → W (err x, t)
        → W (m u)
        → W (elim b as (λ _. Result A × S) [ true ↦ (err x, t) | false ↦ m u ])
    after_attempt true x t u m h g = h
    after_attempt false x t u m h g = g

    loop-ensures :
        (left k : ℕ) (o : Option Exn)
        → ((s : S) → P s → W (fn s))
        → ((x : Exn) (t : S) → W (err x, t) → P t)
        → ((x : Exn) (t : S) → P t → W (err x, t))
        → ((j : ℕ) (s : S) → P s → P (nap j s))
        → (s : S) → P s
        → W (retry_loop left k o s)
    unfolding retry_loop
    loop-ensures zero k o call fails raises naps s h = raises _ s h
    loop-ensures (suc left) k o call fails raises naps s h =
        after (λ x t p. loop-ensures left (suc k) (some x) call fails raises naps t p) (fn s)
          (call s h)
      where
        after :
            ((x : Exn) (t : S) → P t → W (retry_loop left (suc k) (some x) t))
            → (r : Result A × S) → W r
            → W (
                handle_with
                  (λ x s'. elim (not (is_busy x) || leb (retries - 1) k) [
                    | true ↦ (err x, s')
                    | false ↦ retry_loop left (suc k) (some x) (nap k s')
                  ])
                  (λ a s'. (ok a, s'))
                  r)
        after ih (ok a, t) g = g
        after ih (err x, t) g =
            after_attempt (not (is_busy x) || leb (retries - 1) k) x t (nap k t)
              (retry_loop left (suc k) (some x)) g (ih x (nap k t) (naps k t (fails x t g)))

    pub with_sqlite_retry-ensures :
        ((s : S) → P s → W (fn s))
        → ((x : Exn) (t : S) → W (err x, t) → P t)
        → ((x : Exn) (t : S) → P t → W (err x, t))
        → ((j : ℕ) (s : S) → P s → P (nap j s))
        → (s : S) → P s
        → W (with_sqlite_retry s)
    unfolding with_sqlite_retry
    with_sqlite_retry-ensures call fails raises naps s h =
        loop-ensures retries 0 none call fails raises naps s h
