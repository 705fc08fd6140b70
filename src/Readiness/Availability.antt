-- ===== src/Readiness/Availability.antt =====
-- apps/sms/modem_readiness.py: check_modem_availability, for one modem, with its last activity.
use hi_wave_tel.Prelude.{
  ℕ, ◌≡◌, ◌↔◌, refl, inl, inr, Text, codes, Bool, true, false, ◌&&◌, not, Option, none, some, List,
  [], ◌∷◌, ◌++◌, if◌then◌else◌, ◌==◌, leb, ltb, any, is_empty, filter, map, take, Bool-cases, arith,
}
use hi_wave_tel.Runtime.Exn.{Exn, mmcli}
use hi_wave_tel.Runtime.Exec.{pure, raise, gets, try_else, ◌>>=◌}
use hi_wave_tel.Runtime.Ensures.{
  Ensures, Holds, Ensures-pure, Ensures-raise, Ensures-bind, Ensures-handle,
}
use hi_wave_tel.Models.{InboundSms, OutboundSms}
use hi_wave_tel.World.{Env, World, Act, query}
use hi_wave_tel.Scan.{decimal}
use hi_wave_tel.Phone.{normalize_phone_e164}
use hi_wave_tel.ModemEnv.{get_modem_phone_number}
use hi_wave_tel.Mmcli.{list_modem_indices, modem_ping}
use hi_wave_tel.ModemReady.{is_ready_state, get_modem_state}
use hi_wave_tel.ModemIdentity.{probe_modem_identity}
use hi_wave_tel.ModemRegistry.{label_of}

pub data Source : Type 0 where
  inbound_source outbound_source : Source

pub record LastActivity : Type 0 where
  pub at : Option ℕ
  pub source : Option Source
  pub inbound_sms_at : Option ℕ
  pub outbound_sms_at : Option ℕ

pub record ModemAvailability : Type 0 where
  pub modem_index : ℕ
  pub available : Bool
  pub state : Text
  pub checked_at : ℕ
  pub enumerated_indices : List ℕ
  pub ping_ok : Option Bool
  pub phone_number : Text
  pub detail : Text
  pub last_activity : LastActivity

-- order_by('-…').first() of instants
unfoldable pub latest : List ℕ → Option ℕ
latest [] = none
latest (n ∷ ns) =
    let rest = latest ns in elim rest [ none ↦ some n | some m ↦ some (if ltb n m then m else n) ]

-- max(candidates), the first of equals
abbrev last_of : Option ℕ → Option ℕ → LastActivity
last_of none none = record {
  at = none;
  source = none;
  inbound_sms_at = none;
  outbound_sms_at = none;
}
last_of (some i) none = record {
  at = some i;
  source = some inbound_source;
  inbound_sms_at = some i;
  outbound_sms_at = none;
}
last_of none (some o) = record {
  at = some o;
  source = some outbound_source;
  inbound_sms_at = none;
  outbound_sms_at = some o;
}
last_of (some i) (some o) = record {
  at = some (if leb o i then i else o);
  source = some (if leb o i then inbound_source else outbound_source);
  inbound_sms_at = some i;
  outbound_sms_at = some o;
}

-- str.replace('\n', ' ')
abbrev one_line : Text → Text
one_line s = map (λ c. if c == 10 then 32 else c) s

abbrev or_default : Text → Text → Text
or_default s d = if is_empty s then d else s

abbrev detail_of : Text → Bool × Text → Text
detail_of state (ping_ok, ping_detail) =
    if is_ready_state state && ping_ok
    then codes "Modem responsive (state=" ++ state ++ codes ", ping ok)."
    else if not (is_ready_state state)
    then codes "Modem state '" ++ state ++ codes "' (expected enabled or registered)."
    else take 512 (one_line (or_default ping_detail (codes "mmcli modem ping failed.")))

-- `env` reads the database and the environment, and `mm` is the client: the caller's, or that of
-- Readiness.health_client.
module _ (env mm : Env) where
  unfoldable pub gather_modem_last_activity : ℕ → Act LastActivity
  unfolding latest
  gather_modem_last_activity modem_index = do
    inbound_at ← query env λ w. latest (
        map (λ (r : InboundSms). r.created_at)
          (filter (λ (r : InboundSms). r.modem_index == modem_index) w.inbound))
    outbound_at ← query env λ w. latest (
        map (λ (r : OutboundSms). r.updated_at)
          (filter (λ (r : OutboundSms). r.modem_index == modem_index) w.outbound))
    pure (last_of inbound_at outbound_at)

  unfoldable pub resolve_modem_phone_number : ℕ → Act Text
  unfolding normalize_phone_e164 get_modem_phone_number
  resolve_modem_phone_number modem_index =
      try_else (probe_modem_identity mm modem_index none)
        (λ exc. pure (get_modem_phone_number env.environ modem_index))
        (λ identity. pure (normalize_phone_e164 identity.phone_number))

  abbrev not_reachable : ℕ → ℕ → LastActivity → Exn → Act ModemAvailability
  not_reachable modem_index checked_at last (mmcli e) = pure (record {
    modem_index = modem_index;
    available = false;
    state = codes "unknown";
    checked_at = checked_at;
    enumerated_indices = [];
    ping_ok = none;
    phone_number = [];
    detail = codes "ModemManager unreachable: " ++ take 512 e.message;
    last_activity = last;
  })
  not_reachable modem_index checked_at last x = raise x

  abbrev missing : ℕ → ℕ → LastActivity → List ℕ → ModemAvailability
  missing modem_index checked_at last indices = record {
    modem_index = modem_index;
    available = false;
    state = codes "missing";
    checked_at = checked_at;
    enumerated_indices = indices;
    ping_ok = none;
    phone_number = [];
    detail =
        codes "Modem index "
        ++ decimal modem_index
        ++ codes " not reported by ModemManager (mmcli -L returned: "
        ++ label_of indices
        ++ codes ").";
    last_activity = last;
  }

  abbrev found : ℕ → ℕ → LastActivity → List ℕ → Text → Bool × Text → Text → ModemAvailability
  found modem_index checked_at last indices state ping phone = record {
    modem_index = modem_index;
    available = is_ready_state state && ping.0;
    state = state;
    checked_at = checked_at;
    enumerated_indices = indices;
    ping_ok = some ping.0;
    phone_number = phone;
    detail = detail_of state ping;
    last_activity = last;
  }

  -- a modem that is listed
  unfoldable pub check_listed : ℕ → ℕ → LastActivity → List ℕ → Act ModemAvailability
  unfolding is_ready_state
  check_listed modem_index checked_at last indices = do
    state ← get_modem_state mm modem_index
    ping ← modem_ping mm modem_index
    phone ← resolve_modem_phone_number modem_index
    pure (found modem_index checked_at last indices state ping phone)

  abbrev check_indices : ℕ → ℕ → LastActivity → List ℕ → Act ModemAvailability
  check_indices modem_index checked_at last indices =
      if any (λ n. n == modem_index) indices
      then check_listed modem_index checked_at last indices
      else pure (missing modem_index checked_at last indices)

  unfoldable pub check_modem_availability : ℕ → Act ModemAvailability
  check_modem_availability modem_index = do
    checked_at ← gets (λ w. w.clock)
    last ← gather_modem_last_activity modem_index
    try_else (list_modem_indices mm) (not_reachable modem_index checked_at last)
        (check_indices modem_index checked_at last)

  -- A modem is called available exactly where its state is one in which it takes messages and it
  -- answered; and then it is one of those that mmcli listed.
  abbrev pub IsConsistent : ModemAvailability → Type 0
  IsConsistent a =
      ((a.available ≡ true) ↔ ((is_ready_state a.state ≡ true) × (a.ping_ok ≡ some true)))
      × (a.available ≡ true → any (λ n. n == a.modem_index) a.enumerated_indices ≡ true)

  found-IsConsistent :
      (n t : ℕ) (last : LastActivity) (indices : List ℕ) (state : Text) (ping : Bool × Text)
      (phone : Text)
      → any (λ k. k == n) indices ≡ true
      → IsConsistent (found n t last indices state ping phone)
  found-IsConsistent n t last indices state (true, s) phone h =
      (((λ e. (ground arith, refl)), (λ e. ground (arith, e.0))), (λ e. h))
  found-IsConsistent n t last indices state (false, s) phone h =
      (((λ e. absurd (ground arith)), (λ e. absurd (ground arith))), (λ e. h))

  not_reachable-IsConsistent :
      (n t : ℕ) (last : LastActivity) (x : Exn) → Ensures IsConsistent (not_reachable n t last x)
  unfolding is_ready_state
  not_reachable-IsConsistent n t last (mmcli e) =
      Ensures-pure IsConsistent _
        (((λ h. absurd (ground arith)), (λ h. absurd (ground arith))), (λ h. absurd (ground arith)))
  not_reachable-IsConsistent n t last x = Ensures-raise IsConsistent x

  check_indices-IsConsistent :
      (n t : ℕ) (last : LastActivity) (indices : List ℕ)
      → Ensures IsConsistent (check_indices n t last indices)
  unfolding check_listed is_ready_state
  check_indices-IsConsistent n t last indices = elim (Bool-cases (any (λ k. k == n) indices)) [
    | inl y ↦ rw y (
        Ensures-bind IsConsistent _ _ (λ state. Ensures-bind IsConsistent _ _ (λ ping.
          Ensures-bind IsConsistent _ _ (λ phone.
            Ensures-pure IsConsistent _ (found-IsConsistent n t last indices state ping phone y)))))
    | inr x ↦ rw x (
        Ensures-pure IsConsistent _ (
          ((λ h. absurd (ground arith)), (λ h. absurd (ground arith))),
          (λ h. absurd (ground arith)),
        ))
  ]

  -- Whatever mmcli answers, an availability report that returns calls the modem available exactly
  -- where the state that it reports is one in which the modem takes messages and the ping succeeded;
  -- and an available modem is one of those that mmcli listed.
  pub check_modem_availability-IsConsistent :
      (n : ℕ) (w : World) → Holds IsConsistent (check_modem_availability n w).0
  unfolding check_modem_availability
  check_modem_availability-IsConsistent n w =
      (Ensures-bind IsConsistent _ _ (λ t. Ensures-bind IsConsistent _ _ (λ last.
          Ensures-handle IsConsistent _ _ _ (not_reachable-IsConsistent n t last)
            (check_indices-IsConsistent n t last)))).at
        w
