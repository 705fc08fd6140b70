-- ===== src/Mmcli/Snapshot/Merge.antt =====
-- What _merge_mmcli_sources puts under each key.
use hi_wave_tel.Prelude.{
  ℕ, ◌≤◌, ◌≡◌, refl, sym, ap, subst, or_else, ◌∙◌, inl, inr, ◌⊎◌, Text, true, false, ◌||◌, Option,
  none, some, List, [], ◌∷◌, ltb, length, is_empty, strip, arith, Bool-cases, All, Some,
}
use hi_wave_tel.Mmcli.Snapshot.{
  Details, get, is_blank_mmcli_value, better, best_value, merge_mmcli_sources,
}
use hi_wave_tel.Mmcli.Snapshot.Keys.{target, get-merge}

-- `v` is the stripped value of the key in the part.
abbrev pub Has : Text → Text → Details → Type 0
Has k v p = (raw : Text) × (get k p ≡ some raw) × (strip raw ≡ v)

-- Every value of the key in the part that is not blank has at most `n` characters.
abbrev pub AtMost : Text → ℕ → Details → Type 0
AtMost k n p =
    (raw : Text)
    → get k p ≡ some raw
    → is_blank_mmcli_value (strip raw) ≡ false
    → length (strip raw) ≤ n

-- The result of the rounds over the parts, from a value that is known.
Chosen : Text → Text → List Details → Text → Type 0
Chosen k best parts v =
    ((v ≡ best) ⊎ (Some (Has k v) parts × (is_blank_mmcli_value v ≡ false)))
    × (length best ≤ length v)
    × All (AtMost k (length v)) parts

longer_length :
    (a b : Text) → (is_empty a || ltb (length a) (length b)) ≡ true → length a ≤ length b
longer_length [] b h = omega arith
longer_length (c ∷ cs) b h = ground arith

better-cases :
    (best raw : Text)
    → ((better best (some raw) ≡ best)
        × ((is_blank_mmcli_value (strip raw) ≡ true) ⊎ (length (strip raw) ≤ length best)))
      ⊎ ((better best (some raw) ≡ strip raw)
          × (is_blank_mmcli_value (strip raw) ≡ false)
          × (length best ≤ length (strip raw)))
unfolding better
better-cases best raw = elim (Bool-cases (is_blank_mmcli_value (strip raw))) [
  | inl blank ↦ rw blank (inl (refl, inl refl))
  | inr full ↦ elim (Bool-cases (is_empty best || ltb (length best) (length (strip raw)))) [
    | inl y ↦ rw (full, y) (inr (refl, refl, longer_length best (strip raw) y))
    | inr n ↦ rw (full, n) (inl (refl, inr ground arith))
  ]
]

AtMost-wider : (k : Text) (m n : ℕ) (p : Details) → m ≤ n → AtMost k m p → AtMost k n p
AtMost-wider k m n p le h raw e full = omega (arith, h raw e full)

none_not_some : (r : Text) → none ≡ some r → ⊥
none_not_some r h = absurd (ground arith)

AtMost-known :
    (k raw : Text) (n : ℕ) (p : Details)
    → get k p ≡ some raw
    → (is_blank_mmcli_value (strip raw) ≡ false → length (strip raw) ≤ n)
    → AtMost k n p
AtMost-known k raw n p e h raw' q =
    subst (λ r. is_blank_mmcli_value (strip r) ≡ false → length (strip r) ≤ n)
      (ap (λ o. or_else o raw) (sym e ∙ q)) h

-- What one part adds.
with_first_part :
    (k best v : Text) (p : Details) (ps : List Details) (o : Option Text)
    → get k p ≡ o
    → Chosen k (better best o) ps v
    → Chosen k best (p ∷ ps) v
unfolding Chosen
with_first_part k best v p ps none e (from, le, all) =
    unfold better in
    (
      elim from [ inl a ↦ inl a | inr (a, b) ↦ inr (inr a, b) ],
      le,
      ((λ raw q full. absurd (none_not_some raw (sym e ∙ q))), all),
    )
with_first_part k best v p ps (some raw) e (from, le, all) = elim (better-cases best raw) [
  | inl (same, worse) ↦
      let above : length best ≤ length v = subst (λ x. length x ≤ length v) same le in
      (
        elim from [ inl a ↦ inl (a ∙ same) | inr (a, b) ↦ inr (inr a, b) ],
        above,
        (
          AtMost-known k raw (length v) p e
              (λ full. elim worse [ inl blank ↦ absurd (ground arith) | inr short ↦ omega arith ]),
          all,
        ),
      )
  | inr (same, full, grows) ↦
      let above : length (strip raw) ≤ length v = subst (λ x. length x ≤ length v) same le in
      (
        elim from [
          | inl a ↦ inr (
            inl (raw, e, sym (a ∙ same)),
            subst (λ x. is_blank_mmcli_value x ≡ false) (sym (a ∙ same)) full,
          )
          | inr (a, b) ↦ inr (inr a, b)
        ],
        omega arith,
        (AtMost-known k raw (length v) p e (λ f. above), all),
      )
]

best_value-Chosen :
    (k best : Text) (parts : List Details) → Chosen k best parts (best_value k best parts)
unfolding Chosen best_value
best_value-Chosen k best [] = (inl refl, omega arith, tt)
best_value-Chosen k best (p ∷ ps) =
    with_first_part k best _ p ps (get k p) refl (best_value-Chosen k (better best (get k p)) ps)

-- A value that is not blank is not empty.
full_not_empty : (v : Text) → is_blank_mmcli_value v ≡ false → is_empty v ≡ false
unfolding is_blank_mmcli_value strip
full_not_empty [] h = absurd (ground arith)
full_not_empty (c ∷ cs) h = refl

-- The value of the key in the part is blank, if there is one.
abbrev pub IsBlankIn : Text → Details → Type 0
IsBlankIn k p = (raw : Text) → get k p ≡ some raw → is_blank_mmcli_value (strip raw) ≡ true

length_full : (v : Text) → is_empty v ≡ false → length v ≤ 0 → ⊥
length_full [] h le = absurd (ground arith)
length_full (c ∷ cs) h le = absurd (omega arith)

AtMost-IsBlankIn : (k : Text) (p : Details) → AtMost k 0 p → IsBlankIn k p
AtMost-IsBlankIn k p h raw e = elim (Bool-cases (is_blank_mmcli_value (strip raw))) [
  | inl y ↦ y
  | inr n ↦ absurd (length_full (strip raw) (full_not_empty (strip raw) n) (h raw e n))
]

All-IsBlankIn : (k : Text) (parts : List Details) → All (AtMost k 0) parts → All (IsBlankIn k) parts
All-IsBlankIn k [] h = tt
All-IsBlankIn k (p ∷ ps) (a, b) = (AtMost-IsBlankIn k p a, All-IsBlankIn k ps b)

empty_value : (v : Text) → is_empty v ≡ true → v ≡ []
empty_value [] h = refl
empty_value (c ∷ cs) h = absurd (ground arith)

-- What stands under a key after the merge.
abbrev pub Longest : List Details → Text → Option Text → Type 0
Longest parts k none = All (IsBlankIn k) parts
Longest parts k (some v) =
    Some (Has k v) parts × (is_blank_mmcli_value v ≡ false) × All (AtMost k (length v)) parts

true_not_false : true ≡ false → ⊥
true_not_false h = absurd (ground arith)

target-Longest : (parts : List Details) (k : Text) → Longest parts k (target parts k)
unfolding Chosen
target-Longest parts k =
    let (from, le, all) = best_value-Chosen k [] parts in
    elim (Bool-cases (is_empty (best_value k [] parts))) [
      | inl e ↦
          let nil = empty_value (best_value k [] parts) e in
          rw e (All-IsBlankIn k parts (subst (λ v. All (AtMost k (length v)) parts) nil all))
      | inr n ↦ rw n (elim from [
        | inl a ↦ absurd (true_not_false (sym (ap is_empty a) ∙ n))
        | inr (a, b) ↦ (a, b, all)
      ])
    ]

-- The merge of snapshots has under a key the longest of the values that the snapshots have for it and
-- that are not blank, stripped; it has no value for a key only if none of them has such a value.
pub merge-Longest :
    (parts : List Details) (k : Text) → Longest parts k (get k (merge_mmcli_sources parts))
merge-Longest parts k = rw (get-merge parts k) (target-Longest parts k)
