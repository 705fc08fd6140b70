-- ===== src/Inbound/Stale/Order.antt =====
-- order_by('pk') gives each row of a query once, the least key first.
use mathlib.Core.List.Perm
use mathlib.Core.List.{Perm}
use hi_wave_tel.Prelude.{ℕ, ◌≤◌, inl, inr, List, [], ◌∷◌, All, ltb, Bool-cases, arith}
use hi_wave_tel.Models.{InboundSms}
use hi_wave_tel.Inbound.Stale.{insert_by_pk, by_pk}

abbrev pub IsSortedByPk : List InboundSms → Type 0
IsSortedByPk [] = Unit
IsSortedByPk (r ∷ rs) = All (λ (q : InboundSms). r.pk ≤ q.pk) rs × IsSortedByPk rs

All-le :
    (a b : ℕ) (rs : List InboundSms)
    → a ≤ b
    → All (λ (q : InboundSms). b ≤ q.pk) rs
    → All (λ (q : InboundSms). a ≤ q.pk) rs
All-le a b [] le h = tt
All-le a b (r ∷ rs) le (x, h) = (omega arith, All-le a b rs le h)

All-insert_by_pk :
    (a : ℕ) (r : InboundSms) (rs : List InboundSms)
    → a ≤ r.pk
    → All (λ (q : InboundSms). a ≤ q.pk) rs
    → All (λ (q : InboundSms). a ≤ q.pk) (insert_by_pk r rs)
unfolding insert_by_pk
All-insert_by_pk a r [] le h = (le, tt)
All-insert_by_pk a r (q ∷ qs) le (x, h) = elim (Bool-cases (ltb q.pk r.pk)) [
  | inl y ↦ rw y (x, All-insert_by_pk a r qs le h)
  | inr n ↦ rw n (le, (x, h))
]

insert_by_pk-IsSortedByPk :
    (r : InboundSms) (rs : List InboundSms) → IsSortedByPk rs → IsSortedByPk (insert_by_pk r rs)
unfolding insert_by_pk
insert_by_pk-IsSortedByPk r [] s = (tt, tt)
insert_by_pk-IsSortedByPk r (q ∷ qs) (first, s) = elim (Bool-cases (ltb q.pk r.pk)) [
  | inl y ↦ rw y (All-insert_by_pk q.pk r qs (ground arith) first, insert_by_pk-IsSortedByPk r qs s)
  | inr n ↦
      let le : r.pk ≤ q.pk = ground arith in rw n ((le, All-le r.pk q.pk qs le first), (first, s))
]

pub by_pk-IsSortedByPk : (rs : List InboundSms) → IsSortedByPk (by_pk rs)
unfolding by_pk
by_pk-IsSortedByPk [] = tt
by_pk-IsSortedByPk (r ∷ rs) = insert_by_pk-IsSortedByPk r (by_pk rs) (by_pk-IsSortedByPk rs)

insert_by_pk-Perm : (r : InboundSms) (rs : List InboundSms) → Perm (insert_by_pk r rs) (r ∷ rs)
unfolding insert_by_pk
insert_by_pk-Perm r [] = Perm.rfl
insert_by_pk-Perm r (q ∷ qs) = elim (Bool-cases (ltb q.pk r.pk)) [
  | inl y ↦ rw y (Perm.trans (Perm.cons q (insert_by_pk-Perm r qs)) (Perm.swap r q qs))
  | inr n ↦ rw n Perm.rfl
]

pub by_pk-Perm : (rs : List InboundSms) → Perm (by_pk rs) rs
unfolding by_pk
by_pk-Perm [] = Perm.rfl
by_pk-Perm (r ∷ rs) = Perm.trans (insert_by_pk-Perm r (by_pk rs)) (Perm.cons r (by_pk-Perm rs))
