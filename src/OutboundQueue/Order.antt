-- ===== src/OutboundQueue/Order.antt =====
-- The order in which the workers are given the jobs.
use hi_wave_tel.Prelude.{
  ℕ, suc, ◌≡◌, refl, inl, inr, true, false, List, [], ◌∷◌, length, All, Bool-cases, arith,
}
use hi_wave_tel.OutboundQueue.{OutboundJob, precedes, insert_job}

-- Every job goes before all that stand behind it.
abbrev pub IsOrdered : List OutboundJob → Type 0
IsOrdered [] = Unit
IsOrdered (j ∷ js) = All (λ k. precedes j k ≡ true) js × IsOrdered js

-- No two jobs have the same number.
abbrev pub HasSeq : ℕ → OutboundJob → Type 0
HasSeq n j = j.seq ≡ n → ⊥

precedes_trans :
    (a b c : OutboundJob) → precedes a b ≡ true → precedes b c ≡ true → precedes a c ≡ true
precedes_trans a b c h k = ground arith

precedes_total : (a b : OutboundJob) → HasSeq a.seq b → precedes b a ≡ false → precedes a b ≡ true
precedes_total a b ne h = ground (arith, ne)

behind :
    (a b : OutboundJob) (js : List OutboundJob)
    → precedes a b ≡ true
    → All (λ k. precedes b k ≡ true) js
    → All (λ k. precedes a k ≡ true) js
behind a b [] h all = tt
behind a b (j ∷ js) h (p, all) = (precedes_trans a b j h p, behind a b js h all)

pub All-insert_job {κ} :
    (P : OutboundJob → Type κ) (j : OutboundJob) (js : List OutboundJob)
    → P j
    → All P js
    → All P (insert_job j js)
unfolding insert_job
All-insert_job P j [] p all = (p, tt)
All-insert_job P j (k ∷ ks) p (q, all) = elim (Bool-cases (precedes k j)) [
  | inl y ↦ rw y (q, All-insert_job P j ks p all)
  | inr n ↦ rw n (p, (q, all))
]

pub length-insert_job :
    (j : OutboundJob) (js : List OutboundJob) → length (insert_job j js) ≡ suc (length js)
unfolding insert_job
length-insert_job j [] = refl
length-insert_job j (k ∷ ks) = ground (arith, length-insert_job j ks)

pub insert_job-IsOrdered :
    (j : OutboundJob) (js : List OutboundJob)
    → All (HasSeq j.seq) js
    → IsOrdered js
    → IsOrdered (insert_job j js)
unfolding insert_job
insert_job-IsOrdered j [] new o = (tt, tt)
insert_job-IsOrdered j (k ∷ ks) (ne, new) (all, o) = elim (Bool-cases (precedes k j)) [
  | inl y ↦
      rw y (All-insert_job (λ x. precedes k x ≡ true) j ks y all, insert_job-IsOrdered j ks new o)
  | inr n ↦ let first = precedes_total j k ne n in rw n ((first, behind j k ks first all), (all, o))
]
