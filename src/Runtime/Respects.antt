-- ===== src/Runtime/Respects.antt =====
-- What an action keeps, whether it returns or raises: a preorder on states that holds between the
-- state before and the state after, with one rule for each way to build an action.
use hi_wave_tel.Prelude.{
  ℕ, zero, suc, Bool, true, false, ◌||◌, not, ◌-◌, leb, Option, none, some, List, [], ◌∷◌,
  if◌then◌else◌,
}
use hi_wave_tel.Runtime.Exn.{Exn, is_busy}
use hi_wave_tel.Runtime.Exec.{
  Exec, Result, ok, err, pure, raise, gets, continue_with, handle_with, try_else, ◌>>=◌, ◌>>◌,
  modify, for_each,
}
use hi_wave_tel.Runtime.Retry.{retry_loop, with_sqlite_retry}

pub record IsPreorder {S : Type 0} (R : S → S → Type 0) : Type 0 where
  pub refl : (s : S) → R s s
  pub trans : (s t u : S) → R s t → R t u → R s u

pub record Respects {S A : Type 0} (R : S → S → Type 0) (m : Exec S A) : Type 0 where
  pub at : (s : S) → R s (m s).1

module _ {S : Type 0} {R : S → S → Type 0} (o : IsPreorder R) where
  pub Respects-pure : {A : Type 0} (a : A) → Respects R (pure a)
  unfolding pure
  Respects-pure a = record { at = λ s. o.refl s }

  pub Respects-raise : {A : Type 0} (x : Exn) → Respects R (raise {A = A} x)
  unfolding raise
  Respects-raise x = record { at = λ s. o.refl s }

  pub Respects-gets : {A : Type 0} (f : S → A) → Respects R (gets f)
  unfolding gets
  Respects-gets f = record { at = λ s. o.refl s }

  pub Respects-handle :
      {A B : Type 0} (m : Exec S A) (h : Exn → Exec S B) (f : A → Exec S B)
      → Respects R m
      → ((x : Exn) → Respects R (h x))
      → ((a : A) → Respects R (f a))
      → Respects R (try_else m h f)
  unfolding try_else
  Respects-handle m h f km kh kf = record { at = λ s. o.trans s _ _ (km.at s) (after (m s)) }
    where
      after : (r : Result _ × S) → R r.1 (handle_with h f r).1
      after (ok a, t) = (kf a).at t
      after (err x, t) = (kh x).at t

  pub Respects-bind :
      {A B : Type 0} (m : Exec S A) (f : A → Exec S B)
      → Respects R m
      → ((a : A) → Respects R (f a))
      → Respects R (m >>= f)
  unfolding ◌>>=◌
  Respects-bind m f km kf = record { at = λ s. o.trans s _ _ (km.at s) (after (m s)) }
    where
      after : (r : Result _ × S) → R r.1 (continue_with f r).1
      after (ok a, t) = (kf a).at t
      after (err x, t) = o.refl t

  pub Respects-then :
      {A B : Type 0} (m : Exec S A) (n : Exec S B)
      → Respects R m
      → Respects R n
      → Respects R (m >> n)
  unfolding ◌>>◌
  Respects-then m n km kn = Respects-bind m (λ _. n) km (λ _. kn)

  pub Respects-modify : (f : S → S) → ((s : S) → R s (f s)) → Respects R (modify f)
  unfolding modify
  Respects-modify f h = record { at = h }

  pub Respects-if :
      {A : Type 0} (b : Bool) (m n : Exec S A)
      → Respects R m
      → Respects R n
      → Respects R (if b then m else n)
  Respects-if true m n km kn = km
  Respects-if false m n km kn = kn

  pub Respects-for_each :
      {A : Type 0} (xs : List A) (body : A → Exec S (Unit {0}))
      → ((a : A) → Respects R (body a))
      → Respects R (for_each xs body)
  unfolding for_each
  Respects-for_each [] body k = Respects-pure tt
  Respects-for_each (x ∷ xs) body k =
      Respects-then (body x) (for_each xs body) (k x) (Respects-for_each xs body k)

module _ {S A : Type 0} {R : S → S → Type 0} (o : IsPreorder R) (retries : ℕ) (nap : ℕ → S → S)
    (fn : Exec S A) where
  after_busy :
      (b : Bool) (x : Exn) (t : S) (m : Exec S A) (k : ℕ)
      → ((s : S) → R s (nap k s))
      → ((s : S) → R s (m s).1)
      → R t (elim b as (λ _. Result A × S) [ true ↦ (err x, t) | false ↦ m (nap k t) ]).1
  after_busy true x t m k hn hm = o.refl t
  after_busy false x t m k hn hm = o.trans t _ _ (hn t) (hm (nap k t))

  loop-Respects :
      (left k : ℕ) (last : Option Exn)
      → Respects R fn
      → ((j : ℕ) (s : S) → R s (nap j s))
      → Respects R (retry_loop retries nap fn left k last)
  unfolding retry_loop
  loop-Respects zero k last h hn = record { at = λ s. o.refl s }
  loop-Respects (suc left) k last h hn =
      let ih = λ (x : Exn). (loop-Respects left (suc k) (some x) h hn) in
      record { at = λ s. o.trans s _ _ (h.at s) (after (λ x. (ih x).at) (fn s)) }
    where
      after :
          ((x : Exn) (s : S) → R s (retry_loop retries nap fn left (suc k) (some x) s).1)
          → (r : Result A × S)
          → R r.1
              (handle_with
                (λ x s'. elim (not (is_busy x) || leb (retries - 1) k) [
                  | true ↦ (err x, s')
                  | false ↦ retry_loop retries nap fn left (suc k) (some x) (nap k s')
                ])
                (λ a s'. (ok a, s'))
                r).1
      after ih (ok a, t) = o.refl t
      after ih (err x, t) =
          after_busy (not (is_busy x) || leb (retries - 1) k) x t
            (retry_loop retries nap fn left (suc k) (some x)) k (hn k) (ih x)

  pub with_sqlite_retry-Respects :
      Respects R fn
      → ((j : ℕ) (s : S) → R s (nap j s))
      → Respects R (with_sqlite_retry retries nap fn)
  unfolding with_sqlite_retry
  with_sqlite_retry-Respects h hn = loop-Respects retries 0 none h hn

pub ruleset respects_rules = (
  Respects-pure, Respects-raise, Respects-gets, Respects-handle, Respects-bind, Respects-then,
  Respects-modify, Respects-if, Respects-for_each, with_sqlite_retry-Respects,
)
