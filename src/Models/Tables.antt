-- ===== src/Models/Tables.antt =====
-- Laws of the table functions, for every type of row.
use hi_wave_tel.Prelude.{
  ℕ, suc, ◌≤◌, ◌<◌, ◌≡◌, ◌≢◌, refl, inl, inr, Bool, Option, none, some, List, [], ◌∷◌, ◌++◌,
  if◌then◌else◌, ◌==◌, arith, Bool-cases, Some, find,
}
use hi_wave_tel.Models.{Keyed, row, update_row, delete_row, update_where}

module _ {A : Type 0} ⦃k : Keyed A⦄ where
  abbrev pub on_some : (A → A) → Option A → Option A
  on_some f none = none
  on_some f (some a) = some (f a)

  -- Every row that an update writes keeps its key.
  abbrev pub KeepsKey : (A → A) → Type 0
  KeepsKey f = (a : A) → k.key (f a) ≡ k.key a

  -- An update of one key shows at that key only.
  pub row-update_row :
      (f : A → A) (m n : ℕ) (rs : List A)
      → KeepsKey f
      → row n (update_row m f rs) ≡ (if m == n then on_some f (row n rs) else row n rs)
  unfolding row update_row
  row-update_row f m n [] h = ground arith
  row-update_row f m n (r ∷ rs) h = ground (arith, h r, row-update_row f m n rs h)

  pub row-update_row_self :
      (f : A → A) (n : ℕ) (rs : List A) (a : A)
      → KeepsKey f
      → row n rs ≡ some a
      → row n (update_row n f rs) ≡ some (f a)
  row-update_row_self f n rs a h e = ground (arith, row-update_row f n n rs h)

  pub row-update_row_at :
      (f : A → A) (m n : ℕ) (rs : List A) (a : A)
      → m ≡ n
      → KeepsKey f
      → row n rs ≡ some a
      → row n (update_row m f rs) ≡ some (f a)
  row-update_row_at f m n rs a q h e = ground (arith, row-update_row f m n rs h)

  pub row-update_row_ne :
      (f : A → A) (m n : ℕ) (rs : List A)
      → KeepsKey f
      → n ≢ m
      → row n (update_row m f rs) ≡ row n rs
  row-update_row_ne f m n rs h ne = ground (arith, row-update_row f m n rs h)

  pub row-key : (n : ℕ) (rs : List A) (a : A) → row n rs ≡ some a → k.key a ≡ n
  unfolding row
  row-key n [] a h = ground arith
  row-key n (r ∷ rs) a h = ground (arith, row-key n rs a)

  pub row-append : (n : ℕ) (rs ts : List A) (a : A) → row n rs ≡ some a → row n (rs ++ ts) ≡ some a
  unfolding row
  row-append n [] ts a h = ground arith
  row-append n (r ∷ rs) ts a h = ground (arith, row-append n rs ts a)

  -- Keys are distinct, and below the next one to be given.
  abbrev pub IsTable : ℕ → List A → Type 0
  IsTable next [] = Unit
  IsTable next (r ∷ rs) = (k.key r < next) × (row (k.key r) rs ≡ none) × IsTable next rs

  pub row-update_where :
      (p : A → Bool) (f : A → A) (n : ℕ) (rs : List A)
      → KeepsKey f
      → row n (update_where p f rs) ≡ on_some (λ r. if p r then f r else r) (row n rs)
  unfolding row update_where
  row-update_where p f n [] h = refl
  row-update_where p f n (r ∷ rs) h = ground (arith, h r, row-update_where p f n rs h)

  pub update_row-IsTable :
      (f : A → A) (m next : ℕ) (rs : List A)
      → KeepsKey f
      → IsTable next rs
      → IsTable next (update_row m f rs)
  unfolding update_row
  update_row-IsTable f m next [] h t = tt
  update_row-IsTable f m next (r ∷ rs) h (below, fresh, t) = (
    ground (arith, h r),
    ground (arith, h r, row-update_row f m (k.key r) rs h),
    update_row-IsTable f m next rs h t,
  )

  pub update_where-IsTable :
      (p : A → Bool) (f : A → A) (next : ℕ) (rs : List A)
      → KeepsKey f
      → IsTable next rs
      → IsTable next (update_where p f rs)
  unfolding update_where
  update_where-IsTable p f next [] h t = tt
  update_where-IsTable p f next (r ∷ rs) h (below, fresh, t) = (
    ground (arith, h r),
    ground (arith, h r, row-update_where p f (k.key r) rs h),
    update_where-IsTable p f next rs h t,
  )

  row-above : (n next : ℕ) (rs : List A) → next ≤ n → IsTable next rs → row n rs ≡ none
  unfolding row
  row-above n next [] le t = refl
  row-above n next (r ∷ rs) le (below, fresh, t) = ground (arith, row-above n next rs le t)

  row-append_none :
      (n : ℕ) (rs : List A) (a : A) → row n rs ≡ none → k.key a ≢ n → row n (rs ++ a ∷ []) ≡ none
  unfolding row
  row-append_none n [] a h ne = ground arith
  row-append_none n (r ∷ rs) a h ne = ground (arith, row-append_none n rs a)

  -- A new row under the next key.
  pub append-IsTable :
      (next : ℕ) (rs : List A) (a : A)
      → k.key a ≡ next
      → IsTable next rs
      → IsTable (suc next) (rs ++ a ∷ [])
  unfolding row
  append-IsTable next [] a e t = (omega arith, refl, tt)
  append-IsTable next (r ∷ rs) a e (below, fresh, t) = (
    omega arith,
    row-append_none (k.key r) rs a fresh (λ q. absurd (omega arith)),
    append-IsTable next rs a e t,
  )

  pub row-append_new :
      (next : ℕ) (rs : List A) (a : A)
      → k.key a ≡ next
      → IsTable next rs
      → row next (rs ++ a ∷ []) ≡ some a
  unfolding row
  row-append_new next [] a e t = ground arith
  row-append_new next (r ∷ rs) a e (below, fresh, t) = ground (arith, row-append_new next rs a e t)

  -- A row that stands in the table is the one of its key.
  pub row_of_mem :
      (next : ℕ) (rs : List A) (a : A)
      → IsTable next rs
      → Some (λ r. r ≡ a) rs
      → row (k.key a) rs ≡ some a
  unfolding row
  row_of_mem next [] a t h = absurd h
  row_of_mem next (r ∷ rs) a (below, fresh, t) (inl e) = rw (← e) (ground arith)
  row_of_mem next (r ∷ rs) a (below, fresh, t) (inr h) = ground (arith, row_of_mem next rs a t h)

  pub find-mem : (p : A → Bool) (rs : List A) (a : A) → find p rs ≡ some a → Some (λ r. r ≡ a) rs
  find-mem p [] a h = absurd (ground arith)
  find-mem p (r ∷ rs) a h = elim (Bool-cases (p r)) [
    | inl y ↦ inl (ground arith)
    | inr n ↦ inr (find-mem p rs a (ground arith))
  ]

  pub row-update_row-none :
      (f : A → A) (n : ℕ) (rs : List A)
      → KeepsKey f
      → row n rs ≡ none
      → row n (update_row n f rs) ≡ none
  row-update_row-none f n rs h e = ground (arith, row-update_row f n n rs h)

  pub row-delete_row : (n : ℕ) (rs : List A) → row n (delete_row n rs) ≡ none
  unfolding row delete_row
  row-delete_row n [] = refl
  row-delete_row n (r ∷ rs) = ground (arith, row-delete_row n rs)

  pub row-delete_row_ne : (n m : ℕ) (rs : List A) → m ≢ n → row m (delete_row n rs) ≡ row m rs
  unfolding row delete_row
  row-delete_row_ne n m [] ne = refl
  row-delete_row_ne n m (r ∷ rs) ne = ground (arith, ne, row-delete_row_ne n m rs ne)
