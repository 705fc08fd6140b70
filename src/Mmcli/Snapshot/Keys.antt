-- ===== src/Mmcli/Snapshot/Keys.antt =====
-- Looking up a key in the result of _merge_mmcli_sources.
use hi_wave_tel.Prelude.{
  ◌≡◌, refl, sym, ◌∙◌, inl, inr, ◌⊎◌, Text, Bool, true, false, ◌&&◌, not, Option, none, some, List,
  [], ◌∷◌, ◌++◌, if◌then◌else◌, is_empty, is_some, text_eq, text_eq_iff, arith, Bool-cases,
  Option-cases,
}
use hi_wave_tel.Mmcli.Snapshot.{
  Details, get, put, better, best_value, merge_key, merge_keys, all_pairs, merge_mmcli_sources,
}

get-put :
    (k j v : Text) (d : Details) → get k (put j v d) ≡ (if text_eq j k then some v else get k d)
unfolding get put
get-put k j v [] = refl
get-put k j v ((i, u) ∷ d) = elim (Bool-cases (text_eq i j)) [
  | inl y ↦ let e : i ≡ j = (text_eq_iff i j).0 y in rw (y, e) (same_test (text_eq j k))
  | inr n ↦ elim (Bool-cases (text_eq i k)) [
    | inl ik ↦
        let e : i ≡ k = (text_eq_iff i k).0 ik in
        let ne : text_eq j k ≡ false = elim (Bool-cases (text_eq j k)) [
          | inl jk ↦
              let same = (text_eq_iff i j).1 (e ∙ sym ((text_eq_iff j k).0 jk)) in
              absurd (ground arith)
          | inr nk ↦ nk
        ] in
        rw (n, ik, ne) refl
    | inr nik ↦ rw (n, nik) (get-put k j v d)
  ]
]
  where
    same_test :
        (b : Bool)
        → (if b then some v else get k d) ≡ (if b then some v else if b then some u else get k d)
    same_test true = refl
    same_test false = refl

-- The best value of a key, if it is not empty.
abbrev pub target : List Details → Text → Option Text
target parts k = let best = best_value k [] parts in if is_empty best then none else some best

get-merge_key :
    (parts : List Details) (j k : Text) (out : Details)
    → get k (merge_key parts j out) ≡ (
        if text_eq j k && not (is_empty (best_value j [] parts))
        then some (best_value j [] parts)
        else get k out)
get-merge_key parts j k out = elim (Bool-cases (is_empty (best_value j [] parts))) [
  | inl e ↦ rw e (ground arith)
  | inr n ↦ rw n (rw (get-put k j (best_value j [] parts) out) (ground arith))
]

module _ (parts : List Details) (k : Text) where
  merge_key-target :
      (j : Text) (out : Details)
      → text_eq j k ≡ true
      → (get k out ≡ none) ⊎ (get k out ≡ target parts k)
      → get k (merge_key parts j out) ≡ target parts k
  merge_key-target j out h o =
      let e : j ≡ k = (text_eq_iff j k).0 h in
      elim (Bool-cases (is_empty (best_value k [] parts))) [
        | inl empty ↦ rw (e, empty) (unset o empty)
        | inr full ↦ rw (get-merge_key parts j k out, h, e, full) refl
      ]
    where
      unset :
          (get k out ≡ none) ⊎ (get k out ≡ target parts k)
          → is_empty (best_value k [] parts) ≡ true
          → get k out ≡ none
      unset (inl a) empty = a
      unset (inr a) empty = a ∙ rw empty refl

  merge_key-other :
      (j : Text) (out : Details) → text_eq j k ≡ false → get k (merge_key parts j out) ≡ get k out
  merge_key-other j out h = rw (get-merge_key parts j k out, h) refl

  -- A key that is right stays right.
  merge_keys-right :
      (d out : Details)
      → get k out ≡ target parts k
      → get k (merge_keys parts d out) ≡ target parts k
  merge_keys-right [] out h = h
  merge_keys-right ((j, v) ∷ d) out h = elim (Bool-cases (text_eq j k)) [
    | inl y ↦ merge_keys-right d (merge_key parts j out) (merge_key-target j out y (inr h))
    | inr n ↦ merge_keys-right d (merge_key parts j out) (merge_key-other j out n ∙ h)
  ]

  -- A key of the list gets its value, and no other key gets one.
  merge_keys-get :
      (d out : Details)
      → get k out ≡ none
      → get k (merge_keys parts d out) ≡ (if is_some (get k d) then target parts k else none)
  unfolding get
  merge_keys-get [] out h = h
  merge_keys-get ((j, v) ∷ d) out h = elim (Bool-cases (text_eq j k)) [
    | inl y ↦ rw y (merge_keys-right d (merge_key parts j out) (merge_key-target j out y (inl h)))
    | inr n ↦ rw n (merge_keys-get d (merge_key parts j out) (merge_key-other j out n ∙ h))
  ]

get-append : (k : Text) (d e : Details) → get k d ≡ none → get k (d ++ e) ≡ get k e
unfolding get
get-append k [] e h = refl
get-append k ((j, v) ∷ d) e h = ground (arith, get-append k d e)

get-append_left : (k : Text) (d e : Details) (v : Text) → get k d ≡ some v → get k (d ++ e) ≡ some v
unfolding get
get-append_left k [] e v h = ground arith
get-append_left k ((j, u) ∷ d) e v h = ground (arith, get-append_left k d e v)

-- A key that no part has gets no value.
best_value-absent :
    (k best : Text) (parts : List Details)
    → get k (all_pairs parts) ≡ none
    → best_value k best parts ≡ best
unfolding best_value better
best_value-absent k best [] h = refl
best_value-absent k best (p ∷ ps) h = elim (Option-cases (get k p)) [
  | inl e ↦ rw e (best_value-absent k best ps (sym (get-append k p (all_pairs ps) e) ∙ h))
  | inr (v, e) ↦ let found = get-append_left k p (all_pairs ps) v e in absurd (ground arith)
]

pub get-merge :
    (parts : List Details) (k : Text) → get k (merge_mmcli_sources parts) ≡ target parts k
unfolding merge_mmcli_sources
get-merge parts k =
    merge_keys-get parts k (all_pairs parts) [] (unfold get in refl)
    ∙ elim (Option-cases (get k (all_pairs parts))) [
      | inl e ↦ rw (e, best_value-absent k [] parts e) refl
      | inr (v, e) ↦ rw e refl
    ]
