-- ===== src/Outbox/Order.antt =====
-- The statuses of a job, and order_by('created_at', 'pk').first() over the pending ones.
use hi_wave_tel.Prelude.{
  Bool, true, false, ◌&&◌, ◌||◌, Option, none, some, List, [], ◌∷◌, if◌then◌else◌, ltb, ◌==◌,
}
use hi_wave_tel.Models.{WebhookDeliveryJob, Status}

abbrev pub is_pending : Status → Bool
is_pending Status.pending = true
is_pending _ = false

abbrev pub is_processing : Status → Bool
is_processing Status.processing = true
is_processing _ = false

abbrev pub is_finished : Status → Bool
is_finished Status.delivered = true
is_finished _ = false

-- the order of ('created_at', 'pk')
unfoldable pub precedes : WebhookDeliveryJob → WebhookDeliveryJob → Bool
precedes a b = ltb a.created_at b.created_at || (a.created_at == b.created_at && ltb a.pk b.pk)

unfoldable pub earlier : WebhookDeliveryJob → Option WebhookDeliveryJob → WebhookDeliveryJob
earlier j none = j
earlier j (some m) = if precedes m j then m else j

unfoldable pub oldest_pending : List WebhookDeliveryJob → Option WebhookDeliveryJob
unfolding earlier
oldest_pending [] = none
oldest_pending (j ∷ js) =
    let rest = oldest_pending js in if is_pending j.status then some (earlier j rest) else rest
