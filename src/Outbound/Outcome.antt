-- ===== src/Outbound/Outcome.antt =====
-- How the dispatch of an outbound message ends.
use hi_wave_tel.Prelude.{
  ℕ, ◌≡◌, refl, ◌∙◌, inl, inr, ◌⊎◌, Text, codes, List, [], ◌∷◌, Bool, true, false, Option, none,
  some, ◌==◌, is_some, Bool-cases,
}
use hi_wave_tel.Runtime.Exn.{Exn, mmcli}
use hi_wave_tel.Runtime.Exec.{Result, ok, err, pure, raise, try_else, handle_with, ◌>>=◌, ◌>>◌}
use hi_wave_tel.Runtime.Respects.{Respects, respects_rules, with_sqlite_retry-Respects}
use hi_wave_tel.Models.{
  OutboundSms, SmsState, outbound_keyed, job_keyed, row, update_row, WebhookDeliveryJob, Kind,
}
use hi_wave_tel.Models.Tables.{row-update_row_self}
use hi_wave_tel.World.{Env, World, Act, sqlite_nap, sleep}
use hi_wave_tel.World.Calm.{IsCalm, statement-calm, counted_call}
use hi_wave_tel.World.Frames.{statement-Respects}
use hi_wave_tel.Mmcli.Frame.{Probes, create_sms-Probes, send_sms-Probes, ensure_modem_index-Probes}
use hi_wave_tel.ModemReady.{ReadySettings}
use hi_wave_tel.ModemReady.Recover.Frame.{resolve-Probes, prepare-Probes}
use hi_wave_tel.Readiness.{ReadinessIssue, issue, refresh_readiness_safe}
use hi_wave_tel.Readiness.Frame.{
  SameOutbound, SameOutbound-IsPreorder, query-SameOutbound, refresh-SameOutbound, refresh-returns,
}
use hi_wave_tel.Outbox.{
  Columns, schedule_outbound_webhook, schedule_outbound_once, save_job, create_job, requeue,
  get_or_create_and_requeue,
}
use hi_wave_tel.Outbound.{
  save_outbound, dispatch_failed, use_modem, queue_webhook, mark_sent, send_created,
  create_and_send, prepare_and_send, dispatch_outbound_mmcli, format_public_mmcli_error, set_failed,
  set_sent, set_sending, set_modem, or_failed,
}

-- The row of the message is there, with this state.
abbrev pub RowState : ℕ → SmsState → World → Type 0
RowState pk s w = (r : OutboundSms) × (row pk w.outbound ≡ some r) × (r.state ≡ s)

abbrev pub HasRow : ℕ → World → Type 0
HasRow pk w = (r : OutboundSms) × (row pk w.outbound ≡ some r)

abbrev pub is_mmcli : Exn → Bool
is_mmcli (mmcli e) = true
is_mmcli _ = false

abbrev pub is_over : SmsState → Bool
is_over SmsState.sent = true
is_over SmsState.failed = true
is_over _ = false

-- The message is sent or has failed, in the object and in its row alike, or an exception that is no
-- MmcliError goes on to the caller.
abbrev pub DispatchOutcome : ℕ → Result OutboundSms × World → Type 0
DispatchOutcome pk out =
    ((o : OutboundSms) × (out.0 ≡ ok o) × (is_over o.state ≡ true) × RowState pk o.state out.1)
    ⊎ ((x : Exn) × (out.0 ≡ err x) × (is_mmcli x ≡ false))

module _ (env : Env) (calm : IsCalm env) where
  -- A save of a row that is there.
  saved :
      (change : OutboundSms → OutboundSms) (obj r : OutboundSms) (w : World)
      → row obj.pk w.outbound ≡ some r
      → ((s : OutboundSms) → (change s).pk ≡ s.pk)
      → (w' : World) × (save_outbound env change obj w ≡ (ok (change obj), w'))
        × (row obj.pk w'.outbound ≡ some (change r))
  unfolding save_outbound
  saved change obj r w e k = (
    record (counted_call w) { outbound = update_row obj.pk change w.outbound },
    statement-calm env calm _ w ∙ rw e refl,
    row-update_row_self change obj.pk w.outbound r k e,
  )

  abbrev recent_failure : OutboundSms → List ReadinessIssue
  recent_failure o = issue (codes "outbound_failed_recently") (or_failed o.error_message) ∷ []

  -- The refresh of the readiness report neither raises nor touches a message.
  refresh-result :
      (o : OutboundSms) (w : World)
      → (w' : World) × (refresh_readiness_safe env (some o.modem_index) (recent_failure o) w
          ≡ (ok tt, w'))
        × (w'.outbound ≡ w.outbound)
  refresh-result o w = (
    _,
    refresh-returns env _ _ w,
    (refresh-SameOutbound env (some o.modem_index) (recent_failure o)).at w,
  )

  failed-Outcome :
      (obj : OutboundSms) (x : Exn) (w : World)
      → HasRow obj.pk w
      → DispatchOutcome obj.pk (dispatch_failed env obj x w)
  unfolding dispatch_failed raise pure ◌>>=◌ ◌>>◌
  failed-Outcome obj (mmcli e) w (r, h) =
      let change = set_failed (format_public_mmcli_error e) in
      let (w', runs, there) = saved change obj r w h (λ s. refl) in
      let (w'', refreshed, same) = refresh-result (change obj) w' in
      rw (dispatch_failed, runs, refreshed)
        (inl (change obj, refl, refl, (change r, rw same there, refl)))
  failed-Outcome obj x w (r, h) = inr (x, refl, refl)

  probed : (pk : ℕ) (v w : World) → Probes v w → HasRow pk v → HasRow pk w
  probed pk v w p (r, h) = (r, rw p.tables.outbound h)

  -- `try m except MmcliError … else f`, where `m` is a call that changes no table.
  try-Outcome :
      {A : Type 0} (m : Act A) (obj : OutboundSms) (f : A → Act OutboundSms) (w : World)
      → Respects Probes m
      → HasRow obj.pk w
      → ((a : A) (v : World) → HasRow obj.pk v → DispatchOutcome obj.pk (f a v))
      → DispatchOutcome obj.pk (try_else m (dispatch_failed env obj) f w)
  unfolding try_else
  try-Outcome m obj f w keeps h next = after (m w) (keeps.at w)
    where
      after :
          (r : Result _ × World)
          → Probes w r.1
          → DispatchOutcome obj.pk (handle_with (dispatch_failed env obj) f r)
      after (ok a, v) p = next a v (probed obj.pk w v p h)
      after (err x, v) p = failed-Outcome obj x v (probed obj.pk w v p h)

  -- Scheduling a webhook leaves the messages as they are.
  ruleset schedule_rules = (respects_rules, SameOutbound-IsPreorder)

  create-SameOutbound : (n : ℕ) → Respects SameOutbound (create_job env Kind.outbound none (some n))
  unfolding create_job
  create-SameOutbound n = statement-Respects SameOutbound env _ (λ w. refl) (λ w. refl)

  save-SameOutbound :
      (c : Columns) (j : WebhookDeliveryJob) → Respects SameOutbound (save_job env c j)
  unfolding save_job
  save-SameOutbound c j =
      statement-Respects SameOutbound env _ (λ w. refl)
        (λ w. elim (Bool-cases (is_some (row j.pk w.jobs))) [
          | inl e ↦ rw e refl
          | inr e ↦ rw e refl
        ])

  requeued-SameOutbound :
      (n : ℕ) (o : Option WebhookDeliveryJob)
      → Respects SameOutbound
          (get_or_create_and_requeue env o (create_job env Kind.outbound none (some n)))
  unfolding get_or_create_and_requeue requeue
  requeued-SameOutbound n none = create-SameOutbound n
  requeued-SameOutbound n (some j) = search (schedule_rules, save-SameOutbound)

  once-SameOutbound : (n : ℕ) → Respects SameOutbound (schedule_outbound_once env n)
  unfolding schedule_outbound_once
  once-SameOutbound n = search (schedule_rules, query-SameOutbound, requeued-SameOutbound)

  schedule-SameOutbound : (n : ℕ) → Respects SameOutbound (schedule_outbound_webhook env n)
  unfolding schedule_outbound_webhook
  schedule-SameOutbound n =
      with_sqlite_retry-Respects SameOutbound-IsPreorder _ _ _ (once-SameOutbound n)
        (λ j w. unfold sqlite_nap sleep in refl)

  queue-result :
      (obj : OutboundSms) (w : World)
      → (w' : World) × (queue_webhook env obj w ≡ (ok obj, w')) × (w'.outbound ≡ w.outbound)
  unfolding queue_webhook try_else pure
  queue-result obj w =
      after (schedule_outbound_webhook env obj.pk w) ((schedule-SameOutbound obj.pk).at w)
    where
      after :
          (r : Result WebhookDeliveryJob × World)
          → (r.1).outbound ≡ w.outbound
          → (w' : World) × (handle_with (λ x. pure obj) (λ job. pure obj) r ≡ (ok obj, w'))
            × (w'.outbound ≡ w.outbound)
      after (ok j, v) e = (v, refl, e)
      after (err x, v) e = (v, refl, e)

  sent-Outcome :
      (obj : OutboundSms) (w : World)
      → HasRow obj.pk w
      → DispatchOutcome obj.pk (mark_sent env obj w)
  unfolding mark_sent ◌>>=◌
  sent-Outcome obj w (r, h) =
      let (w1, runs, there) = saved set_sent obj r w h (λ s. refl) in
      let (w2, queued, same) = queue-result (set_sent obj) w1 in
      rw runs (rw queued (inl (_, refl, refl, (set_sent r, rw same there, refl))))

  send_created-Outcome :
      (obj : OutboundSms) (path : Text) (w : World)
      → HasRow obj.pk w
      → DispatchOutcome obj.pk (send_created env obj path w)
  unfolding send_created ◌>>=◌
  send_created-Outcome obj path w (r, h) =
      let (w1, runs, there) = saved (set_sending path) obj r w h (λ s. refl) in
      let o = set_sending path obj in
      rw runs
        (try-Outcome _ o _ w1 (send_sms-Probes env path) (_, there) (λ u v k. sent-Outcome o v k))

  create_and_send-Outcome :
      (obj : OutboundSms) (w : World)
      → HasRow obj.pk w
      → DispatchOutcome obj.pk (create_and_send env obj w)
  unfolding create_and_send
  create_and_send-Outcome obj w h =
      try-Outcome _ obj _ w (create_sms-Probes env _ _ _) h
        (λ path v k. send_created-Outcome obj path v k)

  module _ (ready : ReadySettings) where
    prepared-Outcome :
        (ix : ℕ) (obj : OutboundSms) (w : World)
        → HasRow obj.pk w
        → DispatchOutcome obj.pk (prepare_and_send env ready ix obj w)
    unfolding prepare_and_send
    prepared-Outcome ix obj w h =
        try-Outcome _ obj _ w (prepare-Probes env ready ix) h
          (λ u v k. create_and_send-Outcome obj v k)

    on_modem-Outcome :
        (ix : ℕ) (obj : OutboundSms) (w : World)
        → HasRow obj.pk w
        → DispatchOutcome obj.pk ((use_modem env obj ix >>= prepare_and_send env ready ix) w)
    unfolding use_modem ◌>>=◌ pure
    on_modem-Outcome ix obj w (r, h) = elim (Bool-cases (ix == obj.modem_index)) [
      | inl same ↦ rw same (prepared-Outcome ix obj w (r, h))
      | inr moved ↦
          let (w1, runs, there) = saved (set_modem ix) obj r w h (λ s. refl) in
          rw (moved, runs) (prepared-Outcome ix (set_modem ix obj) w1 (_, there))
    ]

    -- While the database raises no error, dispatching a message whose row is in the table ends with it
    -- sent or failed, in the object that is returned and in the row alike, or with an exception that is
    -- no MmcliError: every error of mmcli is handled, and none leaves the message in between.
    pub dispatch-Outcome :
        (client_given : Bool) (obj : OutboundSms) (w : World)
        → HasRow obj.pk w
        → DispatchOutcome obj.pk (dispatch_outbound_mmcli env ready client_given obj w)
    unfolding dispatch_outbound_mmcli
    dispatch-Outcome true obj w h =
        try-Outcome _ obj _ w (ensure_modem_index-Probes env _) h
          (λ u v k. create_and_send-Outcome obj v k)
    dispatch-Outcome false obj w h =
        try-Outcome _ obj _ w (resolve-Probes env _) h (λ ix v k. on_modem-Outcome ix obj v k)
