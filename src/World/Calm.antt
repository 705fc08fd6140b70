-- ===== src/World/Calm.antt =====
-- Runs in which the database raises no error: a statement is made once, and takes effect.
use hi_wave_tel.Prelude.{ℕ, suc, ◌<◌, ◌≡◌, refl, ◌∙◌, inl, true, Option, none, some, Text}
use hi_wave_tel.Runtime.Exn.{operational}
use hi_wave_tel.Runtime.Exec.{Result, ok, err}
use hi_wave_tel.Runtime.Retry.{is_settled, with_sqlite_retry, with_sqlite_retry-recovers, start}
use hi_wave_tel.World.{Env, World, statement, sqlite_nap, commit, rolled_back}

-- No database error, and at least one attempt at each statement.
pub record IsCalm (env : Env) : Type 0 where
  pub no_error : (n : ℕ) → env.db_error n ≡ none
  pub some_tries : 0 < env.sqlite_retries

-- The state after the statement is counted.
abbrev pub counted_call : World → World
counted_call w = record w { db_calls = suc w.db_calls }

module _ (env : Env) {A : Type 0} (run : World → Result A × World) (w : World) where
  pub statement-free : env.db_error w.db_calls ≡ none → statement env run w ≡ run (counted_call w)
  unfolding statement
  statement-free h = rw (h, statement) refl

  pub statement-raises :
      (m : Text)
      → env.db_error w.db_calls ≡ some m
      → statement env run w ≡ (err (operational m), counted_call w)
  unfolding statement
  statement-raises m h = rw (h, statement) refl

module _ (env : Env) (calm : IsCalm env) where
  pub statement-calm :
      {A : Type 0} (run : World → Result A × World) (w : World)
      → statement env run w ≡ run (counted_call w)
  statement-calm run w = statement-free env run w (calm.no_error w.db_calls)

  pub retry-statement :
      {A : Type 0} (run : World → Result A × World) (w : World)
      → is_settled (run (counted_call w)).0 ≡ true
      → with_sqlite_retry env.sqlite_retries (sqlite_nap env) (statement env run) w
        ≡ run (counted_call w)
  retry-statement run w h =
      with_sqlite_retry-recovers env.sqlite_retries (sqlite_nap env) (statement env run) start
        calm.some_tries (inl (rw (statement-calm run w) h))
      ∙ statement-calm run w

  -- COMMIT of a block that returned
  pub commit-calm :
      {A : Type 0} (a : A) (w v : World) → commit env w (ok a, v) ≡ (ok a, counted_call v)
  commit-calm {A} a w v = by_error (env.db_error v.db_calls) (calm.no_error v.db_calls)
    where
      by_error :
          (o : Option Text)
          → o ≡ none
          → (elim o as (λ _. Result A × World) [
            | none ↦ (ok a, counted_call v)
            | some m ↦ (err (operational m), rolled_back w (counted_call v))
          ])
            ≡ (ok a, counted_call v)
      by_error none e = refl
      by_error (some m) e = cc
