-- ===== src/Rotation.antt =====
-- apps/sms/services.py: rotate_modem_sms_storage. The oldest rows of a modem beyond a limit are deleted
-- in batches; the deletion of an SMS deletes its webhook jobs (on_delete=CASCADE).
use hi_wave_tel.Prelude.{
  ℕ, zero, suc, ◌+◌, ◌-◌, ◌/◌, min, max, Bool, true, false, ◌&&◌, ◌||◌, not, Option, none, some,
  List, [], ◌∷◌, if◌then◌else◌, ltb, ◌==◌, length, filter, any, map, take, is_empty,
}
use hi_wave_tel.Runtime.Exec.{ok, pure, ◌>>=◌, ◌>>◌}
use hi_wave_tel.Models.{InboundSms, OutboundSms, WebhookDeliveryJob}
use hi_wave_tel.World.{Env, World, Act, statement, query}

-- The columns that rotation reads, and the table with its writer.
pub record Rotated (A : Type 0) : Type 0 where
  pub pk_of : A → ℕ
  pub modem_of : A → ℕ
  pub created_of : A → ℕ
  pub rows_of : World → List A
  -- filter(pk__in=ids).delete()
  pub delete_pks : List ℕ → World → World

abbrev pub among : List ℕ → ℕ → Bool
among ns n = any (λ m. m == n) ns

abbrev pub in_option : List ℕ → Option ℕ → Bool
in_option ns none = false
in_option ns (some n) = among ns n

abbrev pub inbound_model : Rotated InboundSms
inbound_model = record {
  pk_of = λ r. r.pk;
  modem_of = λ r. r.modem_index;
  created_of = λ r. r.created_at;
  rows_of = λ w. w.inbound;
  delete_pks = λ ids w. record w {
    inbound = filter (λ (r : InboundSms). not (among ids r.pk)) w.inbound;
    jobs = filter (λ (j : WebhookDeliveryJob). not (in_option ids j.inbound_sms)) w.jobs;
  };
}

abbrev pub outbound_model : Rotated OutboundSms
outbound_model = record {
  pk_of = λ r. r.pk;
  modem_of = λ r. r.modem_index;
  created_of = λ r. r.created_at;
  rows_of = λ w. w.outbound;
  delete_pks = λ ids w. record w {
    outbound = filter (λ (r : OutboundSms). not (among ids r.pk)) w.outbound;
    jobs = filter (λ (j : WebhookDeliveryJob). not (in_option ids j.outbound_sms)) w.jobs;
  };
}

module _ {A : Type 0} (rot : Rotated A) where
  abbrev pub of_modem : ℕ → List A → List A
  of_modem modem_index rows = filter (λ r. rot.modem_of r == modem_index) rows

  -- order_by('created_at', 'pk')
  unfoldable pub is_older : A → A → Bool
  is_older a b =
      ltb (rot.created_of a) (rot.created_of b)
      || (rot.created_of a == rot.created_of b && ltb (rot.pk_of a) (rot.pk_of b))

  unfoldable pub insert_by_age : A → List A → List A
  insert_by_age r [] = r ∷ []
  insert_by_age r (q ∷ qs) = if is_older q r then q ∷ insert_by_age r qs else r ∷ q ∷ qs

  unfoldable pub by_age : List A → List A
  unfolding insert_by_age
  by_age [] = []
  by_age (r ∷ rs) = insert_by_age r (by_age rs)

  -- values_list('pk', flat=True)[:chunk]
  unfoldable pub oldest_pks : ℕ → ℕ → List A → List ℕ
  unfolding by_age
  oldest_pks modem_index chunk rows =
      map (λ r. rot.pk_of r) (take chunk (by_age (of_modem modem_index rows)))

  module _ (env : Env) (modem_index batch_size : ℕ) (dry_run : Bool) where
    unfoldable pub delete_batch : List ℕ → Act (Unit {0})
    delete_batch ids =
        if dry_run then pure tt else statement env (λ w. (ok tt, rot.delete_pks ids w))

    -- the loop; `fuel` bounds its rounds
    unfoldable pub deletion_rounds : (fuel remaining deleted : ℕ) → Act ℕ
    unfolding oldest_pks
    deletion_rounds zero remaining deleted = pure deleted
    deletion_rounds (suc fuel) zero deleted = pure deleted
    deletion_rounds (suc fuel) (suc r) deleted = do
      ids ← query env (λ w. oldest_pks modem_index (min batch_size (suc r)) (rot.rows_of w))
      elim (is_empty ids) [
        | true ↦ pure deleted
        | false ↦
            delete_batch ids >> deletion_rounds fuel (suc r - length ids) (deleted + length ids)
      ]

    unfoldable pub delete_oldest_modem_rows : ℕ → Act ℕ
    delete_oldest_modem_rows limit = do
      count ← query env (λ w. length (of_modem modem_index (rot.rows_of w)))
      deletion_rounds (count - limit) (count - limit) 0

pub record RotationStats : Type 0 where
  pub inbound_deleted : ℕ
  pub outbound_deleted : ℕ
  pub inbound_count_before : ℕ
  pub outbound_count_before : ℕ
  pub per_type_limit : ℕ

module _ (env : Env) where
  unfoldable pub rotate_modem_sms_storage : ℕ → (limit batch_size : ℕ) → Bool → Act RotationStats
  rotate_modem_sms_storage modem_index limit batch_size dry_run = do
    let per_type = max 1 (limit / 2)
    inbound_before ← query env (λ w. length (of_modem inbound_model modem_index w.inbound))
    outbound_before ← query env (λ w. length (of_modem outbound_model modem_index w.outbound))
    inbound ← delete_oldest_modem_rows inbound_model env modem_index batch_size dry_run per_type
    outbound ← delete_oldest_modem_rows outbound_model env modem_index batch_size dry_run per_type
    pure record {
      inbound_deleted = inbound;
      outbound_deleted = outbound;
      inbound_count_before = inbound_before;
      outbound_count_before = outbound_before;
      per_type_limit = per_type;
    }

  unfoldable pub modem_sms_storage_counts : ℕ → Act (ℕ × ℕ)
  modem_sms_storage_counts modem_index = do
    inbound ← query env (λ w. length (of_modem inbound_model modem_index w.inbound))
    outbound ← query env (λ w. length (of_modem outbound_model modem_index w.outbound))
    pure (inbound, outbound)
