-- ===== src/Views/Webhooks/Stored.antt =====
-- What the requests on a webhook leave, seen by the requests that follow.
use hi_wave_tel.Prelude.{
  ℕ, suc, ◌≡◌, ◌≢◌, refl, ◌∙◌, inl, inr, ◌⊎◌, if◌then◌else◌, Bool, true, false, Option, none, some,
  List, [], ◌∷◌, ◌++◌, ◌==◌, Bool-cases, arith,
}
use hi_wave_tel.Runtime.Exec.{Result, ok, err, pure, try_else, ◌>>=◌}
use hi_wave_tel.Models.{InboundWebhook, webhook_keyed, row, update_row, delete_row}
use hi_wave_tel.Models.Tables.{
  IsTable, row-append_new, row-update_row_at, row-update_row_ne, row-delete_row,
}
use hi_wave_tel.World.{Env, World, query}
use hi_wave_tel.World.Calm.{IsCalm, statement-calm, counted_call}
use hi_wave_tel.ModemRegistry.{assert_modem_enumerated}
use hi_wave_tel.Views.{Response, refused, answered}
use hi_wave_tel.Views.Webhooks.{
  WebhookData, WebhookChange, is_empty_change, with_change, stored_as, is_taken, unique_failed,
  new_webhook, owned, insert_webhook_row, create_webhook, get_modem_webhook, found_or_404,
  get_webhook, save_webhook, put_webhook, remove_row, delete_webhook,
}

row_key : (n : ℕ) (rs : List InboundWebhook) (r : InboundWebhook) → row n rs ≡ some r → r.pk ≡ n
unfolding row
row_key n [] r h = absurd (ground arith)
row_key n (q ∷ rs) r h = ground (arith, row_key n rs r)

-- a row that the modem owns is the row of its key
owned-row :
    (modem_index : ℕ) (o : Option InboundWebhook) (r : InboundWebhook)
    → owned modem_index o ≡ some r
    → (o ≡ some r) × ((r.modem_index == modem_index) ≡ true)
owned-row modem_index none r h = absurd (ground arith)
owned-row modem_index (some q) r h = elim (Bool-cases (q.modem_index == modem_index)) [
  | inl y ↦ ground arith
  | inr n ↦ absurd (ground arith)
]

-- The row of the key is one of another modem.
abbrev pub OfAnother : ℕ → ℕ → World → Type 0
OfAnother modem_index webhook_id w =
    (r : InboundWebhook) × (row webhook_id w.webhooks ≡ some r) × (r.modem_index ≢ modem_index)

not_owned :
    (modem_index webhook_id : ℕ) (w : World)
    → (row webhook_id w.webhooks ≡ none) ⊎ OfAnother modem_index webhook_id w
    → owned modem_index (row webhook_id w.webhooks) ≡ none
not_owned modem_index webhook_id w (inl e) = rw e refl
not_owned modem_index webhook_id w (inr (r, e, ne)) =
    rw e (elim (Bool-cases (r.modem_index == modem_index)) [
      | inl y ↦ absurd (ne (ground arith))
      | inr n ↦ rw n refl
    ])

module _ (env : Env) (calm : IsCalm env) (accepts : WebhookData → Bool)
    (accepts_change : WebhookChange → Bool) where
  find_lem :
      (modem_index webhook_id : ℕ) (w : World)
      → get_modem_webhook env accepts accepts_change modem_index webhook_id w
        ≡ (ok (owned modem_index (row webhook_id w.webhooks)), counted_call w)
  unfolding get_modem_webhook query ◌>>=◌ pure
  find_lem modem_index webhook_id w =
      rw
        (
          get_modem_webhook,
          query,
          statement-calm env calm (λ v. (ok (row webhook_id v.webhooks), v)) w,
        )
        refl

  get_lem :
      (modem_index webhook_id : ℕ) (w : World)
      → get_webhook env accepts accepts_change modem_index webhook_id w
        ≡ (ok (found_or_404 (owned modem_index (row webhook_id w.webhooks))), counted_call w)
  unfolding get_webhook ◌>>=◌ pure
  get_lem modem_index webhook_id w = rw (get_webhook, find_lem modem_index webhook_id w) refl

  -- In a run without database errors, for a key without a row, or whose row is one of another modem, the
  -- requests to read, to change and to delete the webhook under this modem are all answered with 404,
  -- and change nothing but the count of queries.
  pub webhook_guarded :
      (modem_index webhook_id : ℕ) (c : WebhookChange) (w : World)
      → (row webhook_id w.webhooks ≡ none) ⊎ OfAnother modem_index webhook_id w
      → (get_webhook env accepts accepts_change modem_index webhook_id w
          ≡ (ok (refused 404), counted_call w))
        × (put_webhook env accepts accepts_change modem_index webhook_id c w
            ≡ (ok (refused 404), counted_call w))
        × (delete_webhook env accepts accepts_change modem_index webhook_id w
            ≡ (ok (refused 404), counted_call w))
  unfolding put_webhook delete_webhook ◌>>=◌ pure
  webhook_guarded modem_index webhook_id c w foreign =
      let h = not_owned modem_index webhook_id w foreign in
      (
        rw (get_lem modem_index webhook_id w, h) refl,
        rw (put_webhook, find_lem modem_index webhook_id w, h) refl,
        rw (delete_webhook, find_lem modem_index webhook_id w, h) refl,
      )

  -- How a new webhook is stored, if the modem was listed in the world `v`.
  abbrev pub Created : ℕ → WebhookData → World → Result (Response InboundWebhook) × World → Type 0
  Created modem_index d v out =
      let obj = new_webhook v.next_pk v.clock modem_index d in
      if is_taken obj v.webhooks
      then out ≡ (err unique_failed, counted_call v)
      else (u : World) × (out ≡ (ok (answered 201 obj), u))
        × ((get_webhook env accepts accepts_change modem_index v.next_pk u).0
            ≡ ok (answered 200 obj))

  -- In a run without database errors, where the modem is listed and the fields are accepted, and the
  -- keys of the table are distinct and below the next one: if another webhook of the modem has the URL,
  -- the request raises IntegrityError and stores nothing; if not, it is answered with 201, and to read
  -- the webhook then gives it with 200.
  pub create-get :
      (modem_index : ℕ) (d : WebhookData) (w v : World)
      → assert_modem_enumerated env modem_index w ≡ (ok tt, v)
      → accepts d ≡ true
      → IsTable v.next_pk v.webhooks
      → Created modem_index d v (create_webhook env accepts accepts_change modem_index d w)
  unfolding create_webhook insert_webhook_row try_else ◌>>=◌ pure
  create-get modem_index d w v h a t =
      let obj = new_webhook v.next_pk v.clock modem_index d in
      let u : World = record v {
        db_calls = suc v.db_calls;
        webhooks = v.webhooks ++ obj ∷ [];
        next_pk = suc v.next_pk;
      } in
      elim (Bool-cases (is_taken obj v.webhooks)) [
        | inl y ↦
            rw (y, create_webhook, h, a, insert_webhook_row, statement-calm env calm _ v, y) refl
        | inr n ↦ rw n (
          u,
          rw (create_webhook, h, a, insert_webhook_row, statement-calm env calm _ v, n) refl,
          rw (get_lem modem_index v.next_pk u, row-append_new v.next_pk v.webhooks obj refl t)
              (ground arith),
        )
      ]

  -- How a change of the row `r` is stored.
  abbrev pub Changed :
      ℕ
      → ℕ
      → WebhookChange
      → InboundWebhook
      → World
      → Result (Response InboundWebhook) × World
      → Type 0
  Changed modem_index webhook_id c r w out =
      if is_taken (with_change c r) w.webhooks
      then out ≡ (err unique_failed, counted_call (counted_call w))
      else (u : World) × (out ≡ (ok (answered 200 (with_change c r)), u))
        × ((get_webhook env accepts accepts_change modem_index webhook_id u).0
            ≡ ok (answered 200 (with_change c r)))
        × ((m : ℕ) → m ≢ webhook_id → row m u.webhooks ≡ row m w.webhooks)

  -- In a run without database errors, for a change of a webhook that its modem owns, with at least one
  -- field and all of them accepted: if another webhook of the modem has the URL that it then has, the
  -- request raises IntegrityError and stores nothing; if not, it is answered with 200 and the row with
  -- those fields, which is what a read then gives, and the rows of all other keys are as they were.
  pub put-get :
      (modem_index webhook_id : ℕ) (c : WebhookChange) (r : InboundWebhook) (w : World)
      → owned modem_index (row webhook_id w.webhooks) ≡ some r
      → accepts_change c ≡ true
      → is_empty_change c ≡ false
      → Changed modem_index webhook_id c r w
          (put_webhook env accepts accepts_change modem_index webhook_id c w)
  unfolding put_webhook save_webhook with_change ◌>>=◌ pure
  put-get modem_index webhook_id c r w h a some_field =
      let (e, mine) = owned-row modem_index (row webhook_id w.webhooks) r h in
      let key = row_key webhook_id w.webhooks r e in
      let u : World = record w {
        db_calls = suc (suc w.db_calls);
        webhooks = update_row r.pk (stored_as (with_change c r)) w.webhooks;
      } in
      elim (Bool-cases (is_taken (with_change c r) w.webhooks)) [
        | inl y ↦
            rw
              (
                y,
                put_webhook,
                find_lem modem_index webhook_id w,
                h,
                a,
                some_field,
                save_webhook,
                statement-calm env calm _ (counted_call w),
                y,
              )
              refl
        | inr n ↦ rw n (
          u,
          rw
              (
                put_webhook,
                find_lem modem_index webhook_id w,
                h,
                a,
                some_field,
                save_webhook,
                statement-calm env calm _ (counted_call w),
                n,
              )
              refl,
          rw
              (
                get_lem modem_index webhook_id u,
                row-update_row_at (stored_as (with_change c r)) r.pk webhook_id w.webhooks r key
                    (λ q. refl) e,
              )
              (rw mine refl),
          λ m ne.
              row-update_row_ne (stored_as (with_change c r)) r.pk m w.webhooks (λ q. refl)
                (λ x. ne (x ∙ key)),
        )
      ]

  -- In a run without database errors, a webhook that its modem owns is deleted with 204, and to read it
  -- then is answered with 404.
  pub delete-get :
      (modem_index webhook_id : ℕ) (r : InboundWebhook) (w : World)
      → owned modem_index (row webhook_id w.webhooks) ≡ some r
      → (u : World) × (delete_webhook env accepts accepts_change modem_index webhook_id w
          ≡ (ok (answered 204 tt), u))
        × ((get_webhook env accepts accepts_change modem_index webhook_id u).0 ≡ ok (refused 404))
  unfolding delete_webhook remove_row ◌>>=◌ pure
  delete-get modem_index webhook_id r w h =
      let (e, mine) = owned-row modem_index (row webhook_id w.webhooks) r h in
      let key = row_key webhook_id w.webhooks r e in
      let u : World = record w {
        db_calls = suc (suc w.db_calls);
        webhooks = delete_row r.pk w.webhooks;
      } in
      (
        u,
        rw
            (
              delete_webhook,
              find_lem modem_index webhook_id w,
              h,
              remove_row,
              statement-calm env calm _ (counted_call w),
            )
            refl,
        rw (get_lem modem_index webhook_id u, key, row-delete_row webhook_id w.webhooks) refl,
      )
