-- ===== src/Views/Send/Answers.antt =====
-- How a request to send a message is answered, and what it leaves.
use hi_wave_tel.Prelude.{
  ℕ, suc, ◌≡◌, refl, ap, inl, inr, ◌⊎◌, codes, Bool, true, false, Option, some, [], ◌∷◌, ◌++◌,
  if◌then◌else◌, text_in, Bool-cases, arith,
}
use hi_wave_tel.Runtime.Exn.{Exn}
use hi_wave_tel.Runtime.Exec.{Result, ok, err, pure, ◌>>=◌, continue_with}
use hi_wave_tel.Models.{OutboundSms, outbound_keyed}
use hi_wave_tel.Models.Tables.{IsTable, row-append_new}
use hi_wave_tel.World.{Env, World, end}
use hi_wave_tel.World.Calm.{IsCalm, statement-calm}
use hi_wave_tel.Scan.{decimal}
use hi_wave_tel.ModemReady.{ReadySettings}
use hi_wave_tel.Outbound.Outcome.{DispatchOutcome, RowState, is_over, is_mmcli, dispatch-Outcome}
use hi_wave_tel.OutboundQueue.{Shared, is_full}
use hi_wave_tel.OutboundQueue.Pool.{Request, request_key}
use hi_wave_tel.OutboundQueue.Pool.Calls.{enqueue_of, enqueue-CallOutcome}
use hi_wave_tel.OutboundQueue.Worker.{
  enqueue_outbound_job, enqueue_or_dispatch, get_outbound_processor,
}
use hi_wave_tel.Views.{Response, refused, answered}
use hi_wave_tel.Views.Send.{
  SendRequest, is_valid_send, new_outbound, create_outbound, submit_by, submit, post,
}

abbrev pub Reply : Type 0
Reply = Result (Response OutboundSms × Option Shared) × World

third :
    (P Q R : Type 0) (a b : Bool) → a ≡ false → b ≡ true → (if a then P else if b then Q else R) → Q
third P Q R true b h k x = absurd (ground arith)
third P Q R false true h k x = x
third P Q R false false h k x = absurd (ground arith)

module _ (env : Env) (calm : IsCalm env) (ready : ReadySettings) where
  -- the world with the row of the request
  abbrev pub with_request : SendRequest → World → World
  with_request r w = record w {
    db_calls = suc w.db_calls;
    outbound = w.outbound ++ new_outbound w.next_pk w.clock env.mmcli_index r ∷ [];
    next_pk = suc w.next_pk;
  }

  create_outbound_lem :
      (r : SendRequest) (w : World)
      → create_outbound env r w
        ≡ (ok (new_outbound w.next_pk w.clock env.mmcli_index r), with_request r w)
  unfolding create_outbound
  create_outbound_lem r w = statement-calm env calm _ w

  -- A message that went to the modem has ended; what is not valid leaves nothing.
  abbrev pub PostOutcome : SendRequest → Option Shared → World → Reply → Type 0
  PostOutcome r processor w out =
      if is_valid_send env r
      then ((o : OutboundSms) × (out.0 ≡ ok (answered 202 o, processor))
          × (is_over o.state ≡ true)
          × RowState w.next_pk o.state out.1)
        ⊎ ((x : Exn) × (out.0 ≡ err x) × (is_mmcli x ≡ false))
      else out ≡ (ok (refused 400, processor), w)

  abbrev reply_of : Option Shared → Result OutboundSms × World → Reply
  reply_of processor d =
      continue_with (λ (s : OutboundSms × Option Shared). pure (answered 202 s.0, s.1))
        (continue_with (λ (o : OutboundSms). pure (o, processor)) d)

  answered_with :
      (pk : ℕ) (processor : Option Shared) (d : Result OutboundSms × World)
      → DispatchOutcome pk d
      → ((o : OutboundSms) × ((reply_of processor d).0 ≡ ok (answered 202 o, processor))
          × (is_over o.state ≡ true)
          × RowState pk o.state (reply_of processor d).1)
        ⊎ ((x : Exn) × ((reply_of processor d).0 ≡ err x) × (is_mmcli x ≡ false))
  unfolding pure
  answered_with pk processor (ok o, v) (inl (o', e, over, there)) =
      inl (o', ap (λ x. (reply_of processor (x, v)).0) e, over, there)
  answered_with pk processor (ok o, v) (inr (x, e, n)) = absurd (ground arith)
  answered_with pk processor (err x, v) (inl (o, e, h, there)) = absurd (ground arith)
  answered_with pk processor (err x, v) (inr (y, e, n)) =
      inr (y, ap (λ z. (reply_of processor (z, v)).0) e, n)

  submit_lem :
      (b : Bool) (processor : Option Shared) (obj : OutboundSms) (w : World)
      → env.outbound_async_enabled ≡ b
      → submit env ready processor obj w ≡ submit_by env ready b processor obj w
  unfolding submit
  submit_lem b processor obj w h = ap (λ c. submit_by env ready c processor obj w) h

  -- In a run without database errors, a process that sends at once, on a table of messages whose keys
  -- are distinct and below the next one, refuses a request that is not valid with 400 and changes
  -- nothing. A valid one it answers with 202 and a message that is sent or failed, as its row is
  -- then, or it passes an exception on that is no MmcliError.
  pub post-Outcome :
      (processor : Option Shared) (r : SendRequest) (w : World)
      → env.outbound_async_enabled ≡ false
      → IsTable w.next_pk w.outbound
      → PostOutcome r processor w (post env ready processor r w)
  unfolding post ◌>>=◌ pure
  post-Outcome processor r w sync t = elim (Bool-cases (is_valid_send env r)) [
    | inl y ↦
        let obj = new_outbound w.next_pk w.clock env.mmcli_index r in
        rw (y, create_outbound_lem r w, submit_lem false processor obj (with_request r w) sync)
          (answered_with w.next_pk processor _ (
            dispatch-Outcome env calm ready false obj (with_request r w)
              (obj, row-append_new w.next_pk w.outbound obj refl t)))
    | inr n ↦ rw n refl
  ]

  abbrev pub request_for : ℕ → Request
  request_for pk = record {
    job_type = codes "outbound";
    reference = decimal pk;
    priority = codes "normal";
    payload = end;
  }

  -- In a run without database errors, where messages are queued and the queue is full, a valid request
  -- under a key that is not in flight is answered with 202 and its row is stored as created, although
  -- the queue does not take the message: only a number of the queue is used up.
  pub post_when_full :
      (q : Shared) (r : SendRequest) (w : World)
      → env.outbound_async_enabled ≡ true
      → is_valid_send env r ≡ true
      → text_in (request_key (request_for w.next_pk)) q.in_flight ≡ false
      → is_full q.max_queue_size q.queued ≡ true
      → post env ready (some q) r w ≡ (
        ok (
          answered 202 (new_outbound w.next_pk w.clock env.mmcli_index r),
          some (record q { seq = suc q.seq }),
        ),
        with_request r w,
      )
  unfolding post enqueue_outbound_job enqueue_or_dispatch get_outbound_processor ◌>>=◌ pure
  post_when_full q r w async valid new full =
      let called : enqueue_of (request_for w.next_pk) q ≡ (false, record q { seq = suc q.seq }) =
        third _ _ _ (text_in (request_key (request_for w.next_pk)) q.in_flight)
          (is_full q.max_queue_size q.queued) new full
          (enqueue-CallOutcome (request_for w.next_pk) q) in
      rw
        (
          valid,
          create_outbound_lem r w,
          submit_lem true (some q) (new_outbound w.next_pk w.clock env.mmcli_index r)
              (with_request r w) async,
          called,
        )
        refl
