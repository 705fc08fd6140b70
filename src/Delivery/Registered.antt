-- ===== src/Delivery/Registered.antt =====
-- get_active_webhook_urls: which URLs a modem's messages go to.
use hi_wave_tel.Prelude.{
  ℕ, ◌≡◌, refl, inl, inr, Text, Bool, false, ◌&&◌, ◌||◌, not, List, [], ◌∷◌, arith, any, is_empty,
  filter, text_in, text_eq, text_eq_iff, strip, Bool-cases, ◌==◌,
}
use hi_wave_tel.Runtime.Exec.{ok}
use hi_wave_tel.Models.{InboundWebhook}
use hi_wave_tel.World.{Env, World, query, statement}
use hi_wave_tel.Delivery.{collect_urls, get_active_webhook_urls}
use hi_wave_tel.Delivery.Url.{normalize_webhook_url}

abbrev target : InboundWebhook → Text
target r = normalize_webhook_url (strip r.url)

-- No text stands twice in the list.
abbrev pub Distinct : List Text → Type 0
Distinct [] = Unit
Distinct (u ∷ us) = (text_in u us ≡ false) × Distinct us

text_in-cons : (u v : Text) (vs : List Text) → text_in u (v ∷ vs) ≡ (text_eq u v || text_in u vs)
unfolding text_in
text_in-cons u v vs = refl

text_in-nil : (u : Text) → text_in u [] ≡ false
unfolding text_in
text_in-nil u = refl

collect-mem :
    (u : Text) (rows : List InboundWebhook) (seen : List Text)
    → text_in u (collect_urls rows seen)
      ≡ (not (text_in u seen) && (not (is_empty u) && any (λ r. text_eq u (target r)) rows))
unfolding collect_urls
collect-mem u [] seen = ground (arith, text_in-nil u)
collect-mem u (r ∷ rows) seen = ground (
  arith,
  text_in-cons u (target r) (collect_urls rows (target r ∷ seen)),
  text_in-cons u (target r) seen,
  collect-mem u rows seen,
  collect-mem u rows (target r ∷ seen),
  text_eq_iff u (target r),
)

collect-Distinct :
    (rows : List InboundWebhook) (seen : List Text) → Distinct (collect_urls rows seen)
unfolding collect_urls
collect-Distinct [] seen = tt
collect-Distinct (r ∷ rows) seen =
    elim (Bool-cases (not (is_empty (target r)) && not (text_in (target r) seen))) [
      | inl e ↦ rw e (
        ground (
          arith,
          collect-mem (target r) rows (target r ∷ seen),
          text_in-cons (target r) (target r) seen,
          text_eq_iff (target r) (target r),
        ),
        collect-Distinct rows (target r ∷ seen),
      )
      | inr e ↦ rw e (collect-Distinct rows seen)
    ]

-- The rows that may be notified for a modem.
abbrev pub is_active : ℕ → InboundWebhook → Bool
is_active modem_index r = r.enabled && (r.modem_index == modem_index)

any-filter :
    (p q : InboundWebhook → Bool) (rows : List InboundWebhook)
    → any q (filter p rows) ≡ any (λ r. p r && q r) rows
any-filter p q [] = refl
any-filter p q (r ∷ rows) = ground (arith, any-filter p q rows)

-- The URLs of a modem's active rows, each once, and the state that reading them leaves.
abbrev pub Active : ℕ → World → World → List Text → Type 0
Active modem_index w w' urls =
    Distinct urls
    × ((u : Text)
        → text_in u urls ≡ (
            not (is_empty u)
            && any (λ r. is_active modem_index r && text_eq u (target r)) w.webhooks))
    × (w'.webhooks ≡ w.webhooks)
    × (w'.jobs ≡ w.jobs)

-- The URLs that a modem's messages go to are distinct, and a text is one of them exactly when it is
-- not empty and an enabled row of that modem has it as its normalized URL. Reading them changes no
-- table.
pub get_active_webhook_urls-Active :
    (env : Env) (modem_index : ℕ) (w w' : World) (urls : List Text)
    → get_active_webhook_urls env modem_index w ≡ (ok urls, w')
    → Active modem_index w w' urls
unfolding get_active_webhook_urls query statement
get_active_webhook_urls-Active env modem_index w w' urls h =
    let rows : List InboundWebhook = filter (is_active modem_index) w.webhooks in
    let urls_eq : collect_urls rows [] ≡ urls = ground arith in
    (
      rw (← urls_eq) (collect-Distinct rows []),
      (λ u.
          rw (← urls_eq, collect-mem u rows [], text_in-nil u)
            (rw (any-filter (is_active modem_index) (λ r. text_eq u (target r)) w.webhooks) refl)),
      ground arith,
      ground arith,
    )
