-- ===== src/Delivery/Url.antt =====
-- normalize_webhook_url: the URLs of the webhook.site editor and viewer become the one to POST to.
pub mod Laws
use hi_wave_tel.Prelude.{
  ℕ, zero, suc, ◌+◌, ◌≤◌, ◌≡◌, refl, sym, ap, ◌∙◌, ◌⊎◌, inl, inr, Text, codes, Bool, true, false,
  ◌&&◌, ◌||◌, Option, none, some, List, [], ◌∷◌, ◌++◌, if◌then◌else◌, leb, ◌==◌, arith, strip,
  lstrip, rstrip, is_space, is_empty, lower_char, take, drop, All, Bool-cases, strip-strip, not,
}
use hi_wave_tel.Scan.{fold_char, behind_prefix}

-- [a-f0-9-], ignoring case
unfoldable pub is_token_char : ℕ → Bool
unfolding fold_char
is_token_char c =
    (leb 97 (fold_char c) && leb (fold_char c) 102) || (leb 48 c && leb c 57) || c == 45

-- [a-f0-9-]{n}, and what follows
unfoldable pub read_token : ℕ → Text → Option (Text × Text)
unfolding is_token_char
read_token zero s = some ([], s)
read_token (suc n) [] = none
read_token (suc n) (c ∷ cs) =
    if is_token_char c
    then elim (read_token n cs) [ none ↦ none | some (t, r) ↦ some (c ∷ t, r) ]
    else none

-- `$`: the end, or the end but for a line feed
abbrev at_end : Text → Bool
at_end [] = true
at_end (c ∷ []) = c == 10
at_end (c ∷ d ∷ cs) = false

-- \/?$
abbrev slash_at_end : Text → Bool
slash_at_end [] = true
slash_at_end (c ∷ cs) = (c == 47 && at_end cs) || at_end (c ∷ cs)

abbrev token_of : Option (Text × Text) → Option Text
token_of none = none
token_of (some (t, r)) = if slash_at_end r then some t else none

-- pattern.match(u).group('token'), for one of the two patterns
unfoldable pub match_site : Text → Text → Option Text
unfolding behind_prefix read_token
match_site prefix u = elim (behind_prefix prefix u) [
  | none ↦ none
  | some rest ↦ token_of (read_token 36 rest)
]

abbrev pub edit_prefix : Text
edit_prefix = codes "https://webhook.site/#!/edit/"

abbrev pub view_prefix : Text
view_prefix = codes "https://webhook.site/#!/view/"

abbrev pub site_url : Text → Text
site_url token = codes "https://webhook.site/" ++ token

-- the loop over the two patterns, the first match wins
abbrev pub first_match : Option Text → Option Text → Text → Text
first_match (some token) viewer u = site_url token
first_match none (some token) u = site_url token
first_match none none u = u

unfoldable pub normalize_webhook_url : Text → Text
normalize_webhook_url url =
    let u = strip url in first_match (match_site edit_prefix u) (match_site view_prefix u) u

-- `not u` returns `u`, which matches neither pattern.
normalize-nil : normalize_webhook_url [] ≡ []
unfolding normalize_webhook_url match_site strip
normalize-nil = refl

normalize_editor :
    normalize_webhook_url
      (codes " HTTPS://webhook.site/#!/edit/01234567-89ab-cdef-0123-456789abcdef/ ")
    ≡ codes "https://webhook.site/01234567-89ab-cdef-0123-456789abcdef"
unfolding normalize_webhook_url match_site strip
normalize_editor = refl
