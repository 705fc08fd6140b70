-- ===== src/Runtime/Exec.antt =====
-- Actions (shut, so that `search` sees how they are built): a state is passed on, also past a raised exception.
use hi_wave_tel.Prelude.{List, [], ◌∷◌}
use hi_wave_tel.Runtime.Exn.{Exn}

pub data Result {ℓ} (A : Type ℓ) : Type ℓ where
  ok : A → Result A
  err : Exn → Result A

abbrev pub Exec : Type 0 → Type 0 → Type 0
Exec S A = S → Result A × S

module _ {S : Type 0} where
  infixl 5 ◌>>=◌ ◌>>◌
  unfoldable pub pure : {A : Type 0} → A → Exec S A
  pure a s = (ok a, s)

  unfoldable pub raise : {A : Type 0} → Exn → Exec S A
  raise x s = (err x, s)

  abbrev pub continue_with : {A B : Type 0} → (A → Exec S B) → Result A × S → Result B × S
  continue_with f (ok a, s) = f a s
  continue_with f (err x, s) = (err x, s)

  unfoldable pub ◌>>=◌ : {A B : Type 0} → Exec S A → (A → Exec S B) → Exec S B
  ◌>>=◌ m f s = continue_with f (m s)

  unfoldable pub ◌>>◌ : {A B : Type 0} → Exec S A → Exec S B → Exec S B
  m >> n = m >>= λ _. n

  abbrev pub handle_with :
      {A B : Type 0} → (Exn → Exec S B) → (A → Exec S B) → Result A × S → Result B × S
  handle_with h f (ok a, s) = f a s
  handle_with h f (err x, s) = h x s

  -- try: a = m; except: handler; else: f(a)
  unfoldable pub try_else : {A B : Type 0} → Exec S A → (Exn → Exec S B) → (A → Exec S B) → Exec S B
  try_else m handler f s = handle_with handler f (m s)

  unfoldable pub gets : {A : Type 0} → (S → A) → Exec S A
  gets f s = (ok (f s), s)

  unfoldable pub modify : (S → S) → Exec S (Unit {0})
  modify f s = (ok tt, f s)

  -- for x in xs: body(x)
  unfoldable pub for_each : {A : Type 0} → List A → (A → Exec S (Unit {0})) → Exec S (Unit {0})
  for_each [] body = pure tt
  for_each (x ∷ xs) body = body x >> for_each xs body
