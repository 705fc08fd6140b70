-- ===== src/InboundFilters/Echo.antt =====
-- What an echo is, told without the order of the queries: a row of the table of sent messages that
-- matches by its path, or else by its text.
use hi_wave_tel.Prelude.{
  ℕ, suc, ◌-◌, ◌≡◌, refl, sym, ◌∙◌, inl, inr, Bool, true, false, ◌&&◌, ◌||◌, not, Option, none,
  some, List, [], ◌∷◌, ltb, is_empty, is_some, any, strip, lower, text_eq, text_in, arith,
  Bool-cases,
}
use hi_wave_tel.Runtime.Exec.{Result, ok, pure, ◌>>=◌, continue_with}
use hi_wave_tel.Models.{InboundSms, OutboundSms}
use hi_wave_tel.World.{Env, World, query}
use hi_wave_tel.World.Calm.{IsCalm, statement-calm}
use hi_wave_tel.InboundFilters.{
  or_by_body, newest, newer_of, is_sent_sms, outbound_mm_states, same_path, same_body, echo_window,
  find_by_body, find_matching_outbound, inbound_should_skip_webhook,
}

-- Does the row of a sent message, at the instant `now`, explain the received one?
abbrev pub explains : InboundSms → ℕ → OutboundSms → Bool
explains r now q =
    (not (is_empty (strip r.mm_path)) && same_path (strip r.mm_path) q)
    || (not (is_empty (strip r.text))
        && same_body r.modem_index (strip r.text) (now - echo_window) q
        && (text_in (lower (strip r.mm_state)) outbound_mm_states
            || (not (is_empty (strip r.from_number))
                && text_eq q.to_number (strip r.from_number)
                && is_sent_sms q.state)))

any-cong :
    (p q : OutboundSms → Bool) (rs : List OutboundSms)
    → ((r : OutboundSms) → p r ≡ q r)
    → any p rs ≡ any q rs
any-cong p q [] h = refl
any-cong p q (r ∷ rs) h = ground (arith, h r, any-cong p q rs h)

any-false :
    (p : OutboundSms → Bool) (rs : List OutboundSms)
    → ((r : OutboundSms) → p r ≡ false)
    → any p rs ≡ false
any-false p [] h = refl
any-false p (r ∷ rs) h = ground (arith, h r, any-false p rs h)

any-or :
    (p q : OutboundSms → Bool) (rs : List OutboundSms)
    → any (λ r. p r || q r) rs ≡ (any p rs || any q rs)
any-or p q [] = refl
any-or p q (r ∷ rs) = ground (arith, any-or p q rs)

newest-any : (p : OutboundSms → Bool) (rs : List OutboundSms) → is_some (newest p rs) ≡ any p rs
unfolding newest
newest-any p [] = refl
newest-any p (r ∷ rs) = newer (p r) (newest p rs) (newest-any p rs)
  where
    newer :
        (b : Bool) (o : Option OutboundSms)
        → is_some o ≡ any p rs
        → is_some (newer_of b r o) ≡ (b || any p rs)
    newer false o h = h
    newer true none h = refl
    newer true (some q) h = elim (Bool-cases (ltb q.pk r.pk)) [
      | inl y ↦ rw y refl
      | inr n ↦ rw n refl
    ]

-- What a read finds, where only queries are counted.
abbrev Finds : World → Bool → Result (Option OutboundSms) × World → Type 0
Finds w b r =
    (o : Option OutboundSms) × (n : ℕ) × (r ≡ (ok o, record w { db_calls = n })) × (is_some o ≡ b)

module _ (env : Env) (calm : IsCalm env) (r : InboundSms) (w : World) where
  abbrev body_explains : OutboundSms → Bool
  body_explains q =
      not (is_empty (strip r.text))
      && same_body r.modem_index (strip r.text) (w.clock - echo_window) q
      && (text_in (lower (strip r.mm_state)) outbound_mm_states
          || (not (is_empty (strip r.from_number))
              && text_eq q.to_number (strip r.from_number)
              && is_sent_sms q.state))

  query-Finds :
      (p : World → OutboundSms → Bool) (n : ℕ) (b : Bool)
      → any (p (record w { db_calls = suc n })) w.outbound ≡ b
      → Finds w b (query env (λ v. newest (p v) v.outbound) (record w { db_calls = n }))
  unfolding query
  query-Finds p n b h = (
    newest (p (record w { db_calls = suc n })) w.outbound,
    suc n,
    statement-calm env calm _ (record w { db_calls = n }),
    newest-any _ w.outbound ∙ h,
  )

  find_by_body-Finds :
      (n : ℕ)
      → Finds w (any body_explains w.outbound) (find_by_body env r (record w { db_calls = n }))
  unfolding find_by_body pure
  find_by_body-Finds n = elim (Bool-cases (is_empty (strip r.text))) [
    | inl e ↦
        rw (e, find_by_body, pure)
          (none, n, refl, sym (any-false body_explains w.outbound (λ q. rw e refl)))
    | inr e ↦ elim (Bool-cases (text_in (lower (strip r.mm_state)) outbound_mm_states)) [
      | inl s ↦
          rw (e, s, find_by_body)
            (query-Finds _ n _
              (any-cong _ body_explains w.outbound (λ q. rw (e, s) (ground arith))))
      | inr s ↦ elim (Bool-cases (is_empty (strip r.from_number))) [
        | inl f ↦
            rw (e, s, f, find_by_body, pure)
              (
                none,
                n,
                refl,
                sym (any-false body_explains w.outbound (λ q. rw (e, s, f) (ground arith))),
              )
        | inr f ↦
            rw (e, s, f, find_by_body)
              (query-Finds _ n _
                (any-cong _ body_explains w.outbound (λ q. rw (e, s, f) (ground arith))))
      ]
    ]
  ]

  explained : any (explains r w.clock) w.outbound ≡ (
      any (λ q. not (is_empty (strip r.mm_path)) && same_path (strip r.mm_path) q) w.outbound
      || any body_explains w.outbound)
  explained = any-or _ body_explains w.outbound

  -- the look-up by path, and then by the text
  then_by_body :
      (m : Result (Option OutboundSms) × World) (b : Bool)
      → Finds w b m
      → Finds w (b || any body_explains w.outbound) (continue_with (or_by_body env r) m)
  unfolding pure
  then_by_body m b (some q, n, e, h) = rw e (some q, n, refl, ground arith)
  then_by_body m b (none, n, e, h) = rw (e, ← h) (find_by_body-Finds n)

  find_matching-Finds :
      Finds w (any (explains r w.clock) w.outbound) (find_matching_outbound env r w)
  unfolding find_matching_outbound ◌>>=◌ pure
  find_matching-Finds = rw explained (
      then_by_body _ _ (elim (Bool-cases (is_empty (strip r.mm_path))) [
        | inl e ↦ rw (e, pure) (none, w.db_calls, refl, sym (any-false _ w.outbound (λ q. refl)))
        | inr e ↦ rw e (query-Finds (λ v. same_path (strip r.mm_path)) w.db_calls _ refl)
      ]))

  -- In a run without database errors, a received message is kept from the webhooks exactly when a row
  -- of the sent messages explains it: one that did not fail and has its path, or one that did not
  -- fail, is not older than fifteen minutes and has its modem and its stripped text, where the modem
  -- says that the message goes out or the row was sent to the number that it came from. Only the
  -- count of queries changes.
  pub inbound_should_skip_webhook-explains :
      (n : ℕ) × (inbound_should_skip_webhook env r w
        ≡ (ok (any (explains r w.clock) w.outbound), record w { db_calls = n }))
  unfolding inbound_should_skip_webhook ◌>>=◌ pure
  inbound_should_skip_webhook-explains =
      let (o, n, e, h) = find_matching-Finds in (n, rw (inbound_should_skip_webhook, e, h) refl)
