-- ===== src/Delivery/Retries.antt =====
-- How the loops of webhook_delivery.py end: every URL that was not reached within `retry_max`
-- attempts makes the delivery fail, and one for which no request can be built makes it raise.
use hi_wave_tel.Prelude.{
  ℕ, zero, suc, ◌+◌, ◌-◌, ◌*◌, ◌≤◌, ◌<◌, ◌≡◌, refl, inl, inr, Text, Bool, true, false, ◌&&◌, List,
  [], ◌∷◌, ltb, arith, All, Some, length, Bool-cases, Option-cases, ◌==◌, ◌++◌, ◌⊎◌, none, some, ap,
}
use hi_wave_tel.Runtime.Exn.{value_error}
use hi_wave_tel.Runtime.Exec.{Result, ok, err, ◌>>=◌, ◌>>◌, pure, modify, continue_with}
use hi_wave_tel.World.{Env, World, Payload}
use hi_wave_tel.Delivery.{is_delivered, post_json, pause_before_retry, post_attempts, post_to_urls}

module _ (env : Env) (payload : Payload) where
  -- The n-th POST of the run is answered with a status in 200..299.
  abbrev pub Reached : Text → ℕ → Type 0
  Reached url n = is_delivered (env.post n url payload) ≡ true

  -- Of the POSTs with numbers m..n-1 one reached the URL.
  abbrev pub ReachedBetween : ℕ → ℕ → Text → Type 0
  ReachedBetween m n url = (i : ℕ) × (m ≤ i) × (i < n) × Reached url i

  -- All of `tries` consecutive POSTs, numbered within m..n-1, failed.
  abbrev pub MissedBetween : ℕ → ℕ → ℕ → Text → Type 0
  MissedBetween tries m n url =
      (i : ℕ) × (m ≤ i)
      × (i + tries ≤ n)
      × ((j : ℕ) → i ≤ j → j < i + tries → is_delivered (env.post j url payload) ≡ false)

  -- What a loop over `tries` attempts at a URL ends with.
  abbrev Attempted : Text → ℕ → World → Bool → World → Type 0
  Attempted url tries w b w' =
      (w.post_calls ≤ w'.post_calls)
      × (w'.post_calls ≤ w.post_calls + tries)
      × (b ≡ true → ReachedBetween w.post_calls w'.post_calls url)
      × (b ≡ false → MissedBetween tries w.post_calls w'.post_calls url)

  pause-post_calls :
      (k : ℕ) (w : World)
      → (w' : World) × (pause_before_retry env k w ≡ (ok tt, w')) × (w'.post_calls ≡ w.post_calls)
  unfolding pause_before_retry modify pure
  pause-post_calls k w = elim (Bool-cases (ltb k (env.webhook_retry_max - 1))) [
    | inl e ↦ rw e (_, refl, refl)
    | inr e ↦ rw e (w, refl, refl)
  ]

  missed_more :
      (url : Text) (left m n n' : ℕ)
      → is_delivered (env.post m url payload) ≡ false
      → n ≡ suc m
      → n' ≤ n + left
      → MissedBetween left n n' url
      → MissedBetween (suc left) m n' url
  missed_more url left m n n' h e le (i, from, upto, all) = (
    m,
    omega arith,
    omega arith,
    λ j lo hi. elim (Bool-cases (m == j)) [
      | inl q ↦ let same : m ≡ j = ground arith in rw (← same) h
      | inr q ↦ all j (ground arith) (ground arith)
    ],
  )

  post_json-sends :
      (url : Text) (w : World)
      → env.request_error url payload ≡ none
      → post_json env url payload w ≡ (
        ok (is_delivered (env.post w.post_calls url payload)),
        record w { post_calls = suc w.post_calls; posts = (url, payload) ∷ w.posts },
      )
  unfolding post_json
  post_json-sends url w h = rw (post_json, h) refl

  post_json-raises :
      (url m : Text) (w : World)
      → env.request_error url payload ≡ some m
      → post_json env url payload w ≡ (err (value_error m), w)
  unfolding post_json
  post_json-raises url m w h = rw (post_json, h) refl

  -- The attempts at a URL for which a request can be built.
  post_attempts-outcome :
      (url : Text) (left k : ℕ) (w : World)
      → env.request_error url payload ≡ none
      → (b : Bool) × (w' : World) × (post_attempts env url payload left k w ≡ (ok b, w'))
        × Attempted url left w b w'
  unfolding post_attempts ◌>>=◌ ◌>>◌ pure
  post_attempts-outcome url zero k w h = (
    false,
    w,
    refl,
    (
      omega arith,
      omega arith,
      (λ e. cc),
      (λ e. (w.post_calls, omega arith, omega arith, λ j lo hi. absurd (omega arith))),
    ),
  )
  post_attempts-outcome url (suc left) k w h =
      elim (Bool-cases (is_delivered (env.post w.post_calls url payload))) [
        | inl e ↦ (
          true,
          record w { post_calls = suc w.post_calls; posts = (url, payload) ∷ w.posts },
          rw (post_json-sends url w h, e) refl,
          (omega arith, omega arith, (λ q. (w.post_calls, omega arith, omega arith, e)), (λ q. cc)),
        )
        | inr e ↦
            let w1 : World = record w {
              post_calls = suc w.post_calls;
              posts = (url, payload) ∷ w.posts;
            } in
            let (w2, paused, same) = pause-post_calls k w1 in
            let (b, w3, runs, (from, upto, good, bad)) =
              post_attempts-outcome url left (suc k) w2 h in
            (
              b,
              w3,
              rw (post_json-sends url w h, e) (rw paused runs),
              (
                omega arith,
                omega arith,
                (λ q. let (i, lo, hi, r) = good q in (i, omega arith, hi, r)),
                (λ q.
                    missed_more url left w.post_calls w2.post_calls w3.post_calls e same upto
                      (bad q)),
              ),
            )
      ]

  -- All attempts at a URL: the first raises where the request cannot be built.
  AttemptsEnd : Text → ℕ → World → Result Bool × World → Type 0
  AttemptsEnd url left w out =
      ((b : Bool) × (w' : World) × (out ≡ (ok b, w')) × Attempted url left w b w')
      ⊎ ((m : Text) × (env.request_error url payload ≡ some m) × (out ≡ (err (value_error m), w)))

  post_attempts-AttemptsEnd :
      (url : Text) (left k : ℕ) (w : World)
      → AttemptsEnd url left w (post_attempts env url payload left k w)
  unfolding AttemptsEnd post_attempts ◌>>=◌ ◌>>◌ pure
  post_attempts-AttemptsEnd url zero k w = inl (
    false,
    w,
    refl,
    (
      omega arith,
      omega arith,
      (λ e. cc),
      (λ e. (w.post_calls, omega arith, omega arith, λ j lo hi. absurd (omega arith))),
    ),
  )
  post_attempts-AttemptsEnd url (suc left) k w =
      elim (Option-cases (env.request_error url payload)) [
        | inl h ↦ inl (post_attempts-outcome url (suc left) k w h)
        | inr (m, h) ↦ inr (m, h, rw (post_json-raises url m w h) refl)
      ]

  reached_wider :
      (m m' n n' : ℕ) (url : Text)
      → m' ≤ m
      → n ≤ n'
      → ReachedBetween m n url
      → ReachedBetween m' n' url
  reached_wider m m' n n' url lo hi (i, from, upto, r) = (i, omega arith, omega arith, r)

  All-wider :
      (m m' n : ℕ) (urls : List Text)
      → m' ≤ m
      → All (ReachedBetween m n) urls
      → All (ReachedBetween m' n) urls
  All-wider m m' n [] lo h = tt
  All-wider m m' n (u ∷ us) lo h =
      (reached_wider m m' n n u lo (omega arith) h.0, All-wider m m' n us lo h.1)

  Some-wider :
      (t m m' n : ℕ) (urls : List Text)
      → m' ≤ m
      → Some (MissedBetween t m n) urls
      → Some (MissedBetween t m' n) urls
  Some-wider t m m' n (u ∷ us) lo (inl (i, from, upto, r)) = inl (i, omega arith, upto, r)
  Some-wider t m m' n (u ∷ us) lo (inr h) = inr (Some-wider t m m' n us lo h)
  Some-wider t m m' n [] lo h = h

  -- The delivery came to its end, with each URL reached or one that never was.
  abbrev pub Finished : List Text → World → Result Bool × World → Type 0
  Finished urls w out =
      (b : Bool) × (w' : World) × (out ≡ (ok b, w'))
      × (w.post_calls ≤ w'.post_calls)
      × (w'.post_calls ≤ w.post_calls + env.webhook_retry_max * length urls)
      × (b ≡ true → All (ReachedBetween w.post_calls w'.post_calls) urls)
      × (b ≡ false → Some (MissedBetween env.webhook_retry_max w.post_calls w'.post_calls) urls)

  -- No request could be built for one of the URLs, and no URL from there on was tried.
  abbrev pub Refused : List Text → World → Result Bool × World → Type 0
  Refused urls w out =
      (before : List Text) × (url : Text) × (after : List Text) × (m : Text) × (w' : World) × (urls
        ≡ before ++ url ∷ after)
      × (env.request_error url payload ≡ some m)
      × (out ≡ (err (value_error m), w'))
      × (w.post_calls ≤ w'.post_calls)
      × (w'.post_calls ≤ w.post_calls + env.webhook_retry_max * length before)

  abbrev pub DeliveryOutcome : List Text → World → Result Bool × World → Type 0
  DeliveryOutcome urls w out = Finished urls w out ⊎ Refused urls w out

  Refused-later :
      (url : Text) (urls : List Text) (b : Bool) (w w1 : World) (out : Result Bool × World)
      → w.post_calls ≤ w1.post_calls
      → w1.post_calls ≤ w.post_calls + env.webhook_retry_max
      → Refused urls w1 out
      → Refused (url ∷ urls) w (continue_with (λ c. pure (b && c)) out)
  unfolding pure
  Refused-later url urls b w w1 out from upto (before, u, after, m, w2, e, h, raised, lo, hi) = (
    url ∷ before,
    u,
    after,
    m,
    w2,
    ap (λ us. url ∷ us) e,
    h,
    rw raised refl,
    omega arith,
    grind arith,
  )

  Finished-later :
      (url : Text) (urls : List Text) (b : Bool) (w w1 : World) (out : Result Bool × World)
      → Attempted url env.webhook_retry_max w b w1
      → Finished urls w1 out
      → Finished (url ∷ urls) w (continue_with (λ c. pure (b && c)) out)
  unfolding pure
  Finished-later url urls b w w1 out (from, upto, good, bad)
        (c, w2, then_runs, from', upto', good', bad') =
      (
        b && c,
        w2,
        rw then_runs refl,
        omega arith,
        grind arith,
        (λ e. (
          reached_wider _ _ _ _ url (omega arith) from' (good (ground arith)),
          All-wider _ _ _ urls from (good' (ground arith)),
        )),
        (λ e. elim (Bool-cases b) [
          | inl y ↦ inr (Some-wider _ _ _ _ urls from (bad' (ground arith)))
          | inr n ↦ let (i, lo, hi, r) = bad n in inl (i, lo, omega arith, r)
        ]),
      )

  -- The delivery to a list of URLs returns, after at most retry_max POSTs for each URL: true with each
  -- URL reached by one of its POSTs, or false with some URL for which retry_max POSTs in a row all
  -- failed. Or it raises a ValueError at a URL for which no request can be built, and then neither that
  -- URL nor one behind it is tried: there were at most retry_max POSTs for each URL before it.
  pub post_to_urls-outcome :
      (urls : List Text) (w : World) → DeliveryOutcome urls w (post_to_urls env urls payload w)
  unfolding post_to_urls AttemptsEnd ◌>>=◌ pure
  post_to_urls-outcome [] w = inl (true, w, refl, omega arith, omega arith, (λ e. tt), (λ e. cc))
  post_to_urls-outcome (url ∷ urls) w =
      elim (post_attempts-AttemptsEnd url env.webhook_retry_max 0 w) [
        | inr (m, h, raised) ↦
            inr ([], url, urls, m, w, refl, h, rw raised refl, omega arith, omega arith)
        | inl (b, w1, runs, (from, upto, good, bad)) ↦ elim (post_to_urls-outcome urls w1) [
          | inl f ↦ inl (rw runs (Finished-later url urls b w w1 _ (from, upto, good, bad) f))
          | inr r ↦ inr (rw runs (Refused-later url urls b w w1 _ from upto r))
        ]
      ]
