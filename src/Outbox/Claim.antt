-- ===== src/Outbox/Claim.antt =====
-- Which job is claimed: the oldest pending one, and each job by one worker.
use hi_wave_tel.Prelude.{
  ℕ, suc, ◌≡◌, ◌≢◌, refl, ◌∙◌, ◌⊎◌, inl, inr, true, false, Option, none, some, List, [], ◌∷◌, arith,
  All, Some, Bool-cases, subst, sym,
}
use hi_wave_tel.Runtime.Exec.{Result, ok}
use hi_wave_tel.World.Calm.{IsCalm, counted_call, retry-statement}
use hi_wave_tel.Models.{Status, job_keyed, row, update_row}
use hi_wave_tel.Models.Tables.{
  IsTable, row_of_mem, row-update_row_self, row-update_row_ne, update_row-IsTable,
}
use hi_wave_tel.World.{Env, World}
use hi_wave_tel.Outbox.{Job, claim_next_job_once, claim_next_job}
use hi_wave_tel.Outbox.Order.{oldest_pending, earlier, precedes, is_pending}

-- No pending job stands before `m` in the order of ('created_at', 'pk').
abbrev pub NoneBefore : Job → List Job → Type 0
NoneBefore m = All (λ j. is_pending j.status ≡ true → precedes j m ≡ false)

abbrev pub NonePending : List Job → Type 0
NonePending = All (λ j. is_pending j.status ≡ false)

precedes_trans : (a b c : Job) → precedes b a ≡ false → precedes c b ≡ false → precedes c a ≡ false
unfolding precedes
precedes_trans a b c h g = ground arith

precedes_asym : (a b : Job) → precedes a b ≡ true → precedes b a ≡ false
unfolding precedes
precedes_asym a b h = ground arith

NoneBefore-le :
    (a b : Job) (js : List Job) → precedes b a ≡ false → NoneBefore b js → NoneBefore a js
NoneBefore-le a b [] h n = tt
NoneBefore-le a b (j ∷ js) h n = ((λ p. precedes_trans a b j h (n.0 p)), NoneBefore-le a b js h n.1)

-- What `order_by('created_at', 'pk').first()` over the pending rows gives.
abbrev pub IsOldest : List Job → Option Job → Type 0
IsOldest js none = NonePending js
IsOldest js (some m) = Some (λ j. j ≡ m) js × (is_pending m.status ≡ true) × NoneBefore m js

NonePending-before : (m : Job) (js : List Job) → NonePending js → NoneBefore m js
NonePending-before m [] h = tt
NonePending-before m (j ∷ js) h = ((λ p. absurd (ground arith)), NonePending-before m js h.1)

precedes_irrefl : (a : Job) → precedes a a ≡ false
unfolding precedes
precedes_irrefl a = ground arith

earlier-lt : (j m : Job) → precedes m j ≡ true → earlier j (some m) ≡ m
unfolding earlier
earlier-lt j m h = rw h refl

earlier-ge : (j m : Job) → precedes m j ≡ false → earlier j (some m) ≡ j
unfolding earlier
earlier-ge j m h = rw h refl

pub oldest_pending-IsOldest : (js : List Job) → IsOldest js (oldest_pending js)
unfolding oldest_pending
oldest_pending-IsOldest [] = tt
oldest_pending-IsOldest (j ∷ js) = elim (Bool-cases (is_pending j.status)) [
  | inl y ↦ rw y (first (oldest_pending js) (oldest_pending-IsOldest js) y)
  | inr n ↦ rw n (skip (oldest_pending js) (oldest_pending-IsOldest js) n)
]
  where
    first :
        (o : Option Job)
        → IsOldest js o
        → is_pending j.status ≡ true
        → IsOldest (j ∷ js) (some (earlier j o))
    first none h y = (inl refl, y, ((λ _. precedes_irrefl j), NonePending-before j js h))
    first (some m) (mem, p, before) y = elim (Bool-cases (precedes m j)) [
      | inl lt ↦
          subst (λ z. IsOldest (j ∷ js) (some z)) (sym (earlier-lt j m lt))
            (inr mem, p, ((λ _. precedes_asym m j lt), before))
      | inr ge ↦
          subst (λ z. IsOldest (j ∷ js) (some z)) (sym (earlier-ge j m ge))
            (inl refl, y, ((λ _. precedes_irrefl j), NoneBefore-le j m js ge before))
    ]

    skip : (o : Option Job) → IsOldest js o → is_pending j.status ≡ false → IsOldest (j ∷ js) o
    skip none h n = (n, h)
    skip (some m) (mem, p, before) n = (inr mem, p, ((λ q. absurd (ground arith)), before))

module _ (env : Env) (calm : IsCalm env) where
  abbrev pub claimed : Job → World → Job
  claimed job w = record job { status = Status.processing; updated_at = w.clock }

  abbrev to_processing : ℕ → Job → Job
  to_processing now r = record r { status = Status.processing; updated_at = now }

  abbrev claim_result : World → Option Job → Result (Option Job) × World
  claim_result w none = (ok none, counted_call w)
  claim_result w (some m) = (
    ok (some (claimed m w)),
    record w { db_calls = suc w.db_calls; jobs = update_row m.pk (to_processing w.clock) w.jobs },
  )

  pub claim-result : (w : World) → claim_next_job env w ≡ claim_result w (oldest_pending w.jobs)
  claim-result w = by_oldest (oldest_pending w.jobs) refl
    where
      by_oldest :
          (o : Option Job) → oldest_pending w.jobs ≡ o → claim_next_job env w ≡ claim_result w o
      by_oldest none e =
          unfold claim_next_job claim_next_job_once in
          retry-statement env calm _ w (rw e refl) ∙ rw e refl
      by_oldest (some m) e =
          unfold claim_next_job claim_next_job_once in
          retry-statement env calm _ w (rw e refl) ∙ rw e refl

  -- What a claim ends with: no pending job, or the oldest one in hand.
  abbrev pub ClaimOutcome : World → Result (Option Job) × World → Type 0
  ClaimOutcome w out =
      (NonePending w.jobs × (out.0 ≡ ok none) × (out.1.jobs ≡ w.jobs))
      ⊎ ((m : Job) × Some (λ j. j ≡ m) w.jobs
          × (is_pending m.status ≡ true)
          × NoneBefore m w.jobs
          × (out.0 ≡ ok (some (claimed m w)))
          × (row m.pk out.1.jobs ≡ some (claimed m w))
          × ((n : ℕ) → n ≢ m.pk → row n out.1.jobs ≡ row n w.jobs))

  -- The claim gives `none` and changes no job exactly when no job is pending. Otherwise it gives the
  -- first pending job by ('created_at', 'pk'), now marked as being processed, in memory and in its
  -- row, and leaves all other rows as they were.
  pub claim-oldest : (w : World) → IsTable w.next_pk w.jobs → ClaimOutcome w (claim_next_job env w)
  claim-oldest w table =
      rw claim-result (by_oldest (oldest_pending w.jobs) (oldest_pending-IsOldest w.jobs))
    where
      by_oldest : (o : Option Job) → IsOldest w.jobs o → ClaimOutcome w (claim_result w o)
      by_oldest none h = inl (h, refl, refl)
      by_oldest (some m) (mem, p, before) = inr (
        m,
        mem,
        p,
        before,
        refl,
        row-update_row_self (to_processing w.clock) m.pk w.jobs m (λ a. refl)
            (row_of_mem w.next_pk w.jobs m table mem),
        λ n ne. row-update_row_ne (to_processing w.clock) m.pk n w.jobs (λ a. refl) ne,
      )

  claim-IsTable :
      (w : World)
      → IsTable w.next_pk w.jobs
      → IsTable (claim_next_job env w).1.next_pk (claim_next_job env w).1.jobs
  claim-IsTable w table = rw claim-result (by_oldest (oldest_pending w.jobs))
    where
      by_oldest : (o : Option Job) → IsTable (claim_result w o).1.next_pk (claim_result w o).1.jobs
      by_oldest none = table
      by_oldest (some m) =
          update_row-IsTable (to_processing w.clock) m.pk w.next_pk w.jobs (λ a. refl) table

  -- A job that one worker has claimed is not claimed again by the next: the second claim gives none
  -- or another job.
  pub claim-claim_distinct :
      (w : World) (a b : Job)
      → IsTable w.next_pk w.jobs
      → (claim_next_job env w).0 ≡ ok (some a)
      → (claim_next_job env (claim_next_job env w).1).0 ≡ ok (some b)
      → a.pk ≢ b.pk
  claim-claim_distinct w a b table first second same = elim (claim-oldest w table) [
    | inl (idle, result, kept) ↦ cc
    | inr (m, mem, p, before, result, now, kept) ↦
        elim (claim-oldest (claim_next_job env w).1 (claim-IsTable w table)) [
          | inl (idle, result', kept') ↦ cc
          | inr (m', mem', p', before', result', now', kept') ↦
              let mine : row m'.pk (claim_next_job env w).1.jobs ≡ some m' =
                row_of_mem _ _ m' (claim-IsTable w table) mem' in
              let a_pk : a.pk ≡ m.pk = ground arith in
              let b_pk : b.pk ≡ m'.pk = ground arith in
              let same_pk : m.pk ≡ m'.pk = omega arith in
              let both : some m' ≡ some (claimed m w) = sym mine ∙ rw (← same_pk) now in
              absurd (ground arith)
        ]
  ]
