-- ===== src/Runtime/Ensures.antt =====
-- What an action ensures of the value that it returns, with a rule for each way to build an action.
use hi_wave_tel.Runtime.Exn.{Exn}
use hi_wave_tel.Runtime.Exec.{
  Exec, Result, ok, err, pure, raise, try_else, ◌>>=◌, continue_with, handle_with,
}

abbrev pub Holds : {A : Type 0} → (A → Type 0) → Result A → Type 0
Holds P (ok a) = P a
Holds P (err x) = Unit

pub record Ensures {S A : Type 0} (P : A → Type 0) (m : Exec S A) : Type 0 where
  pub at : (s : S) → Holds P (m s).0

module _ {S A : Type 0} (P : A → Type 0) where
  pub Ensures-pure : (a : A) → P a → Ensures {S = S} P (pure a)
  unfolding pure
  Ensures-pure a h = record { at = λ s. h }

  pub Ensures-raise : (x : Exn) → Ensures {S = S} P (raise x)
  unfolding raise
  Ensures-raise x = record { at = λ s. tt }

  pub Ensures-bind :
      {B : Type 0} (m : Exec S B) (f : B → Exec S A)
      → ((b : B) → Ensures P (f b))
      → Ensures P (m >>= f)
  unfolding ◌>>=◌
  Ensures-bind {B} m f h = record { at = λ s. after (m s) }
    where
      after : (r : Result B × S) → Holds P (continue_with f r).0
      after (ok b, t) = (h b).at t
      after (err x, t) = tt

  pub Ensures-handle :
      {B : Type 0} (m : Exec S B) (h : Exn → Exec S A) (f : B → Exec S A)
      → ((x : Exn) → Ensures P (h x))
      → ((b : B) → Ensures P (f b))
      → Ensures P (try_else m h f)
  unfolding try_else
  Ensures-handle {B} m h f kh kf = record { at = λ s. after (m s) }
    where
      after : (r : Result B × S) → Holds P (handle_with h f r).0
      after (ok b, t) = (kf b).at t
      after (err x, t) = (kh x).at t

  -- what the first part ensures is there for the second
  pub Ensures-after :
      {B : Type 0} (Q : B → Type 0) (m : Exec S B) (f : B → Exec S A)
      → Ensures Q m
      → ((b : B) → Q b → Ensures P (f b))
      → Ensures P (m >>= f)
  unfolding ◌>>=◌
  Ensures-after {B} Q m f k h = record { at = λ s. after (m s) (k.at s) }
    where
      after : (r : Result B × S) → Holds Q r.0 → Holds P (continue_with f r).0
      after (ok b, t) q = (h b q).at t
      after (err x, t) q = tt

pub Ensures-weaken :
    {S A : Type 0} (P Q : A → Type 0) (m : Exec S A)
    → ((a : A) → P a → Q a)
    → Ensures P m
    → Ensures Q m
Ensures-weaken {A = A} P Q m h k = record { at = λ s. weaker (m s).0 (k.at s) }
  where
    weaker : (r : Result A) → Holds P r → Holds Q r
    weaker (ok a) p = h a p
    weaker (err x) p = tt
