-- ===== src/OutboundQueue/Pool/Count.antt =====
-- How many items of a list pass a test.
use hi_wave_tel.Prelude.{
  ℕ, ◌+◌, ◌≡◌, refl, inl, inr, Text, Bool, true, false, List, [], ◌∷◌, ◌++◌, if◌then◌else◌, text_eq,
  text_eq_iff, text_in, Bool-cases, arith,
}
use hi_wave_tel.OutboundQueue.{OutboundJob, precedes, insert_job, discard}

abbrev pub one_if : Bool → ℕ
one_if true = 1
one_if false = 0

abbrev pub count : {A : Type 0} → (A → Bool) → List A → ℕ
count p [] = 0
count p (x ∷ xs) = one_if (p x) + count p xs

pub count-middle :
    {A : Type 0} (p : A → Bool) (xs : List A) (a : A) (ys : List A)
    → count p (xs ++ a ∷ ys) ≡ one_if (p a) + count p (xs ++ ys)
count-middle p [] a ys = refl
count-middle p (x ∷ xs) a ys = omega (arith, count-middle p xs a ys)

pub count-insert_job :
    (p : OutboundJob → Bool) (j : OutboundJob) (js : List OutboundJob)
    → count p (insert_job j js) ≡ one_if (p j) + count p js
unfolding insert_job
count-insert_job p j [] = refl
count-insert_job p j (k ∷ ks) = elim (Bool-cases (precedes k j)) [
  | inl y ↦ rw y (omega (arith, count-insert_job p j ks))
  | inr n ↦ rw n refl
]

-- How often a text stands in a list.
abbrev pub times : Text → List Text → ℕ
times k = count (λ x. text_eq x k)

pub times-discard :
    (key k : Text) (xs : List Text)
    → times k (discard key xs) ≡ (if text_eq key k then 0 else times k xs)
times-discard key k [] = ground arith
times-discard key k (x ∷ xs) =
    ground (arith, text_eq_iff x key, text_eq_iff x k, text_eq_iff key k, times-discard key k xs)

pub times-absent : (k : Text) (xs : List Text) → text_in k xs ≡ false → times k xs ≡ 0
unfolding text_in
times-absent k [] h = refl
times-absent k (x ∷ xs) h = ground (arith, text_eq_iff x k, text_eq_iff k x, times-absent k xs)
