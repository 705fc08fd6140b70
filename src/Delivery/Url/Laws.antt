-- ===== src/Delivery/Url/Laws.antt =====
-- normalize_webhook_url keeps a URL that it has normalized.
use hi_wave_tel.Prelude.{
  ℕ, zero, suc, ◌≡◌, refl, ap, inl, inr, Text, codes, true, false, Option, none, some, [], ◌∷◌,
  ◌++◌, arith, strip, lstrip, rstrip, is_space, is_empty, All, Bool-cases, strip-strip,
  Option-cases, length, ◌==◌,
}
use hi_wave_tel.Delivery.Url.{
  fold_char, behind_prefix, is_token_char, read_token, token_of, match_site, edit_prefix,
  view_prefix, site_url, normalize_webhook_url, slash_at_end, first_match,
}

abbrev IsToken : Text → Type 0
IsToken = All (λ c. is_token_char c ≡ true)

token_char-not_space : (c : ℕ) → is_token_char c ≡ true → is_space c ≡ false
unfolding is_token_char is_space
token_char-not_space c h = ground arith

token_char-not_hash : (c : ℕ) → is_token_char c ≡ true → (fold_char c == 35) ≡ false
unfolding is_token_char
token_char-not_hash c h = ground arith

-- What the pattern's group holds.
abbrev Group : ℕ → Option (Text × Text) → Type 0
Group n none = Unit
Group n (some (t, r)) = IsToken t × (length t ≡ n)

read_token-Group : (n : ℕ) (s : Text) → Group n (read_token n s)
unfolding read_token
read_token-Group zero s = (tt, refl)
read_token-Group (suc n) [] = tt
read_token-Group (suc n) (c ∷ cs) = elim (Bool-cases (is_token_char c)) [
  | inl e ↦ rw e (extend (read_token n cs) (read_token-Group n cs) e)
  | inr e ↦ rw e tt
]
  where
    extend :
        (o : Option (Text × Text))
        → Group n o
        → is_token_char c ≡ true
        → Group
            (suc n)
            (elim o as (λ _. Option (Text × Text)) [ none ↦ none | some (t, r) ↦ some (c ∷ t, r) ])
    extend none g e = tt
    extend (some (t, r)) g e = ((e, g.0), ap suc g.1)

match_site-IsToken :
    (prefix u token : Text) → match_site prefix u ≡ some token → IsToken token × (length token ≡ 36)
unfolding match_site
match_site-IsToken prefix u token h = elim (Option-cases (behind_prefix prefix u)) [
  | inl e ↦ let no_match : ◌≡◌ {A = Option Text} none (some token) = rw (e, match_site) at h in cc
  | inr (rest, e) ↦ found (read_token 36 rest) (read_token-Group 36 rest) (rw (e, match_site) at h)
]
  where
    found :
        (o : Option (Text × Text))
        → Group 36 o
        → token_of o ≡ some token
        → IsToken token × (length token ≡ 36)
    found none g e = cc
    found (some (t, r)) g e = elim (Bool-cases (slash_at_end r)) [
      | inl y ↦ let same : t ≡ token = ground arith in rw (← same) g
      | inr n ↦ absurd (ground arith)
    ]

rstrip-append : (p t : Text) → rstrip t ≡ t → is_empty t ≡ false → rstrip (p ++ t) ≡ p ++ t
unfolding rstrip
rstrip-append [] t h e = h
rstrip-append (c ∷ p) [] h e = cc
rstrip-append (c ∷ []) (d ∷ t) h e = rw h (ground arith)
rstrip-append (c ∷ q ∷ p) (d ∷ t) h e = rw (rstrip-append (q ∷ p) (d ∷ t) h e) (ground arith)

rstrip-token : (t : Text) → IsToken t → rstrip t ≡ t
unfolding rstrip
rstrip-token [] h = refl
rstrip-token (c ∷ cs) h = rw (rstrip-token cs h.1, token_char-not_space c h.0) refl

lstrip-site_url : (t : Text) → lstrip (site_url t) ≡ site_url t
unfolding lstrip
lstrip-site_url t = refl

strip-site_url : (t : Text) → IsToken t → is_empty t ≡ false → strip (site_url t) ≡ site_url t
unfolding strip
strip-site_url t h e =
    rw (lstrip-site_url t) (rstrip-append (codes "https://webhook.site/") t (rstrip-token t h) e)

-- The URL to POST to matches neither pattern: a token has no `#`.
edit-site_url :
    (c : ℕ) (cs : Text) → is_token_char c ≡ true → match_site edit_prefix (site_url (c ∷ cs)) ≡ none
unfolding match_site
edit-site_url c cs h = rw (token_char-not_hash c h, match_site) refl

view-site_url :
    (c : ℕ) (cs : Text) → is_token_char c ≡ true → match_site view_prefix (site_url (c ∷ cs)) ≡ none
unfolding match_site
view-site_url c cs h = rw (token_char-not_hash c h, match_site) refl

normalize-of :
    (url u : Text) (m n : Option Text)
    → strip url ≡ u
    → match_site edit_prefix u ≡ m
    → match_site view_prefix u ≡ n
    → normalize_webhook_url url ≡ first_match m n u
unfolding normalize_webhook_url
normalize-of url u m n p e f = rw (p, e, f) refl

normalize-site_url :
    (t : Text) → IsToken t × (length t ≡ 36) → normalize_webhook_url (site_url t) ≡ site_url t
unfolding normalize_webhook_url
normalize-site_url [] (h, n) = absurd (omega arith)
normalize-site_url (c ∷ cs) (h, n) =
    normalize-of (site_url (c ∷ cs)) (site_url (c ∷ cs)) none none (strip-site_url (c ∷ cs) h refl)
      (edit-site_url c cs h.0) (view-site_url c cs h.0)

-- A URL that was normalized once is not changed again.
pub normalize-normalize :
    (url : Text) → normalize_webhook_url (normalize_webhook_url url) ≡ normalize_webhook_url url
normalize-normalize url =
    by_match (match_site edit_prefix (strip url)) (match_site view_prefix (strip url)) refl refl
  where
    by_match :
        (m n : Option Text)
        → match_site edit_prefix (strip url) ≡ m
        → match_site view_prefix (strip url) ≡ n
        → normalize_webhook_url (normalize_webhook_url url) ≡ normalize_webhook_url url
    by_match (some token) n e f =
        rw (normalize-of url (strip url) (some token) n refl e f)
          (normalize-site_url token (match_site-IsToken edit_prefix (strip url) token e))
    by_match none (some token) e f =
        rw (normalize-of url (strip url) none (some token) refl e f)
          (normalize-site_url token (match_site-IsToken view_prefix (strip url) token f))
    by_match none none e f =
        rw (normalize-of url (strip url) none none refl e f)
          (normalize-of (strip url) (strip url) none none (strip-strip url) e f)
