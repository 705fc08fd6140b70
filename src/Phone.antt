-- ===== src/Phone.antt =====
-- apps/sms/modem_identity.py: normalize_phone_e164, over the ASCII digits.
pub mod Laws
use hi_wave_tel.Prelude.{
  ℕ, Text, codes, Bool, true, false, ◌||◌, ◌&&◌, not, List, [], ◌∷◌, ◌++◌, if◌then◌else◌, leb, ◌==◌,
  filter, is_empty, is_digit, is_space, map, reverse, strip, text_in,
}

abbrev pub plus : ℕ
plus = 43

-- s.strip('"') and s.strip("'")
unfoldable pub lstrip_char : ℕ → Text → Text
lstrip_char q [] = []
lstrip_char q (c ∷ cs) = if c == q then lstrip_char q cs else c ∷ cs

unfoldable pub rstrip_char : ℕ → Text → Text
rstrip_char q [] = []
rstrip_char q (c ∷ cs) = let r = rstrip_char q cs in if (c == q) && is_empty r then [] else c ∷ r

abbrev pub strip_char : ℕ → Text → Text
strip_char q s = rstrip_char q (lstrip_char q s)

-- [\s\-()]
unfoldable pub is_filler : ℕ → Bool
unfolding is_space
is_filler c = is_space c || c == 45 || c == 40 || c == 41

-- re.sub(r'\D', '', s)
abbrev pub digits_of : Text → Text
digits_of s = filter is_digit s

abbrev pub with_plus : Text → Text
with_plus digits = if is_empty digits then [] else plus ∷ digits

-- the part behind the check for '--' and 'unknown', without the fillers
unfoldable pub to_e164 : Text → Text
unfolding is_digit
to_e164 [] = []
to_e164 (c ∷ cs) = if c == plus then with_plus (digits_of cs) else with_plus (digits_of (c ∷ cs))

abbrev pub is_unknown : Text → Bool
is_unknown value = is_empty value || text_in value (map codes ("--" ∷ "unknown" ∷ []))

unfoldable pub normalize_phone_e164 : Text → Text
unfolding strip lstrip_char rstrip_char text_in is_filler to_e164
normalize_phone_e164 raw =
    let value = strip_char 39 (strip_char 34 (strip raw)) in
    if is_unknown value then [] else to_e164 (filter (λ c. not (is_filler c)) value)
