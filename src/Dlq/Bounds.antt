-- ===== src/Dlq/Bounds.antt =====
-- The size of the dead-letter queue, and the paths in it, over any history of its operations.
use hi_wave_tel.Prelude.{
  ℕ, suc, ◌≤◌, ◌≡◌, refl, inl, inr, Text, Bool, false, List, [], ◌∷◌, ◌++◌, leb, ◌==◌, length,
  filter, any, arith, text_eq, text_eq_iff, Bool-cases, Option-cases, length-append,
  length-filter-le, sym,
}
use hi_wave_tel.Models.{DlqRow, dlq_keyed, update_row, update_where, delete_row}
use hi_wave_tel.World.{Env, World}
use hi_wave_tel.Dlq.{
  has_path, refreshed, new_row, upsert, retried, dlq_statement, enqueue, dequeue_batch,
  mark_recovered, remove_by_path, mark_retry_failed,
}

-- No two rows have the same path.
abbrev pub DistinctPaths : List DlqRow → Type 0
DistinctPaths [] = Unit
DistinctPaths (r ∷ rs) = (any (has_path r.sms_path) rs ≡ false) × DistinctPaths rs

-- A function of rows that keeps each path.
abbrev KeepsPath : (DlqRow → DlqRow) → Type 0
KeepsPath f = (r : DlqRow) → (f r).sms_path ≡ r.sms_path

text_eq-sym : (s t : Text) → text_eq s t ≡ false → text_eq t s ≡ false
text_eq-sym s t h = elim (Bool-cases (text_eq t s)) [
  | inl y ↦ let e = (text_eq_iff s t).1 (sym ((text_eq_iff t s).0 y)) in absurd (ground arith)
  | inr n ↦ n
]

any-filter :
    (q : Text) (p : DlqRow → Bool) (rs : List DlqRow)
    → any (has_path q) rs ≡ false
    → any (has_path q) (filter p rs) ≡ false
any-filter q p [] h = refl
any-filter q p (r ∷ rs) h = ground (arith, any-filter q p rs)

filter-DistinctPaths :
    (p : DlqRow → Bool) (rs : List DlqRow) → DistinctPaths rs → DistinctPaths (filter p rs)
filter-DistinctPaths p [] d = tt
filter-DistinctPaths p (r ∷ rs) (new, d) = elim (Bool-cases (p r)) [
  | inl y ↦ rw y (any-filter r.sms_path p rs new, filter-DistinctPaths p rs d)
  | inr n ↦ rw n (filter-DistinctPaths p rs d)
]

module _ (p : DlqRow → Bool) (f : DlqRow → DlqRow) (keeps : KeepsPath f) where
  length-update_where : (rs : List DlqRow) → length (update_where p f rs) ≡ length rs
  unfolding update_where
  length-update_where [] = refl
  length-update_where (r ∷ rs) = omega (arith, length-update_where rs)

  any-update_where :
      (q : Text) (rs : List DlqRow) → any (has_path q) (update_where p f rs) ≡ any (has_path q) rs
  unfolding update_where
  any-update_where q [] = refl
  any-update_where q (r ∷ rs) = elim (Bool-cases (p r)) [
    | inl y ↦ rw (y, keeps r, any-update_where q rs) refl
    | inr n ↦ rw (n, any-update_where q rs) refl
  ]

  update_where-DistinctPaths :
      (rs : List DlqRow) → DistinctPaths rs → DistinctPaths (update_where p f rs)
  unfolding update_where
  update_where-DistinctPaths [] d = tt
  update_where-DistinctPaths (r ∷ rs) (new, d) = elim (Bool-cases (p r)) [
    | inl y ↦
        rw (y, keeps r) (rw (any-update_where r.sms_path rs) new, update_where-DistinctPaths rs d)
    | inr n ↦ rw n (rw (any-update_where r.sms_path rs) new, update_where-DistinctPaths rs d)
  ]

-- An update of one key is an update of the rows that have it.
update_row-as_where :
    (n : ℕ) (f : DlqRow → DlqRow) (rs : List DlqRow)
    → update_row n f rs ≡ update_where (λ r. r.id == n) f rs
unfolding update_row update_where
update_row-as_where n f [] = refl
update_row-as_where n f (r ∷ rs) = rw (update_row-as_where n f rs) refl

any-append_one :
    (q : Text) (rs : List DlqRow) (a : DlqRow)
    → any (has_path q) rs ≡ false
    → has_path q a ≡ false
    → any (has_path q) (rs ++ a ∷ []) ≡ false
any-append_one q [] a h e = rw e refl
any-append_one q (r ∷ rs) a h e = ground (arith, any-append_one q rs a)

append-DistinctPaths :
    (rs : List DlqRow) (a : DlqRow)
    → any (has_path a.sms_path) rs ≡ false
    → DistinctPaths rs
    → DistinctPaths (rs ++ a ∷ [])
append-DistinctPaths [] a h d = (refl, tt)
append-DistinctPaths (r ∷ rs) a h (new, d) = (
  any-append_one r.sms_path rs a new (text_eq-sym r.sms_path a.sms_path (ground arith)),
  append-DistinctPaths rs a (ground arith) d,
)

-- One operation of the queue.
pub data Operation : Type 0 where
  enqueue_op : Text → ℕ → Text → Operation
  dequeue_op recovered_op : ℕ → Operation
  remove_op : Text → Operation
  failed_op : ℕ → Text → Operation

module _ (env : Env) where
  -- The state after an operation, whether it returns or raises.
  abbrev pub perform : Operation → World → World
  perform (enqueue_op sms_path modem_index error) w = (enqueue env sms_path modem_index error w).1
  perform (dequeue_op limit) w = (dequeue_batch env limit w).1
  perform (recovered_op row_id) w = (mark_recovered env row_id w).1
  perform (remove_op sms_path) w = (remove_by_path env sms_path w).1
  perform (failed_op row_id error) w = (mark_retry_failed env row_id error w).1

  abbrev pub performed : List Operation → World → World
  performed [] w = w
  performed (op ∷ ops) w = performed ops (perform op w)

  abbrev pub IsBounded : List DlqRow → Type 0
  IsBounded rows = (length rows ≤ env.dlq_max_size) × DistinctPaths rows

  update_where-IsBounded :
      (p : DlqRow → Bool) (f : DlqRow → DlqRow) (rs : List DlqRow)
      → KeepsPath f
      → IsBounded rs
      → IsBounded (update_where p f rs)
  update_where-IsBounded p f rs k (le, d) =
      (omega (arith, length-update_where p f k rs), update_where-DistinctPaths p f k rs d)

  filter-IsBounded : (p : DlqRow → Bool) (rs : List DlqRow) → IsBounded rs → IsBounded (filter p rs)
  filter-IsBounded p rs (le, d) =
      (omega (arith, length-filter-le p rs), filter-DistinctPaths p rs d)

  upsert-IsBounded :
      (id : ℕ) (sms_path : Text) (modem_index : ℕ) (error : Text) (now : ℕ) (rs : List DlqRow)
      → leb env.dlq_max_size (length rs) ≡ false
      → IsBounded rs
      → IsBounded (upsert id sms_path modem_index error now rs)
  unfolding upsert
  upsert-IsBounded id sms_path modem_index error now rs room (le, d) =
      elim (Bool-cases (any (has_path sms_path) rs)) [
        | inl y ↦ rw y (
            update_where-IsBounded (has_path sms_path) (refreshed error now) rs (λ r. refl) (le, d))
        | inr n ↦
            let new = new_row id sms_path modem_index error now in
            let count = length-append rs (new ∷ []) in
            rw n (ground arith, append-DistinctPaths rs new n d)
      ]

  -- A statement of the queue that keeps the invariant when it runs.
  dlq_statement-IsBounded :
      {A : Type 0} (f : World → A × World) (w : World)
      → ((u : World) → u.dlq ≡ w.dlq → IsBounded (f u).1.dlq)
      → IsBounded w.dlq
      → IsBounded (dlq_statement env f w).1.dlq
  unfolding dlq_statement
  dlq_statement-IsBounded f w h b = elim (Option-cases (env.db_error w.db_calls)) [
    | inl e ↦ rw (dlq_statement, e) (h (record w { db_calls = suc w.db_calls }) refl)
    | inr (m, e) ↦ rw (dlq_statement, e) b
  ]

  perform-IsBounded : (op : Operation) (w : World) → IsBounded w.dlq → IsBounded (perform op w).dlq
  unfolding enqueue dequeue_batch mark_recovered remove_by_path mark_retry_failed delete_row
  perform-IsBounded (enqueue_op sms_path modem_index error) w b =
      dlq_statement-IsBounded _ w
        (λ u e. elim (Bool-cases (leb env.dlq_max_size (length u.dlq))) [
          | inl full ↦ rw (full, e) b
          | inr room ↦ rw room (upsert-IsBounded _ _ _ _ _ u.dlq room (rw e b))
        ])
        b
  perform-IsBounded (dequeue_op limit) w b = dlq_statement-IsBounded _ w (λ u e. rw e b) b
  perform-IsBounded (recovered_op row_id) w b =
      dlq_statement-IsBounded _ w (λ u e. rw e (filter-IsBounded _ w.dlq b)) b
  perform-IsBounded (remove_op sms_path) w b =
      dlq_statement-IsBounded _ w (λ u e. rw e (filter-IsBounded _ w.dlq b)) b
  perform-IsBounded (failed_op row_id error) w b =
      dlq_statement-IsBounded _ w
        (λ u e.
          rw (e, update_row-as_where row_id (retried env.dlq_retry_interval error u.clock) w.dlq)
            (update_where-IsBounded (λ r. r.id == row_id)
              (retried env.dlq_retry_interval error u.clock) w.dlq (λ r. refl) b))
        b

  -- Over any history of its operations, under any errors of its database, the dead-letter queue has
  -- at most `max_size` rows and no path in two of them, if that is so at the start.
  pub performed-IsBounded :
      (ops : List Operation) (w : World) → IsBounded w.dlq → IsBounded (performed ops w).dlq
  performed-IsBounded [] w b = b
  performed-IsBounded (op ∷ ops) w b =
      performed-IsBounded ops (perform op w) (perform-IsBounded op w b)
