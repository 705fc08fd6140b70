-- ===== src/Readiness/Judgement.antt =====
-- When the report calls the gateway ready, and which issues it then has.
use hi_wave_tel.Prelude.{
  ℕ, ◌≡◌, refl, Text, codes, Bool, true, false, ◌&&◌, not, Option, none, List, [], ◌∷◌, ◌++◌, All,
  any, is_empty, text_in, arith, or_else,
}
use hi_wave_tel.Runtime.Exn.{mmcli}
use hi_wave_tel.Runtime.Exec.{
  Result, ok, err, pure, raise, gets, try_else, handle_with, ◌>>=◌, continue_with,
}
use hi_wave_tel.World.{Env, World}
use hi_wave_tel.Mmcli.{modem_ping, list_modem_indices}
use hi_wave_tel.ModemReady.{is_ready_state, get_modem_state, sim_pin_lock_active}
use hi_wave_tel.ModemReady.Recover.{resolve_modem_mmcli_index}
use hi_wave_tel.ModemIdentity.{Identity, probe_modem_identity}
use hi_wave_tel.Readiness.{
  issue, outer_handler, missing_handler, phone_or_fallback, ReadinessIssue, ReadinessSnapshot,
  Report, noted, unreachable, start_report, enumerated, with_state, with_lock, with_ping,
  with_phone, is_blocking, judge, guarded, report_identity, report_ping, report_modem,
  report_indices, evaluate_with, truthy_env, evaluate_sms_readiness, health_client,
}

-- No issue, and ready, or not ready for a reason among the issues: a snapshot is ready when it has no
-- issue, and when it is ready its issues are only of an mmcli that did not answer.
abbrev pub IsJudged : ReadinessSnapshot → Type 0
IsJudged s =
    (s.issues ≡ [] → s.ready ≡ true) × (s.ready ≡ true → All (λ i. i.code ≡ unreachable) s.issues)

-- Any result of the report is judged so.
abbrev Judged : Result Report × World → Type 0
Judged (ok r, w) = (t : ℕ) → IsJudged (judge t r)
Judged (err x, w) = Unit

abbrev Agrees : List ReadinessIssue → Bool → Type 0
Agrees issues ready =
    (issues ≡ [] → ready ≡ true) × (ready ≡ true → All (λ i. i.code ≡ unreachable) issues)

-- `ready`, from the parts that it is made of
abbrev ready_of : (watcher outbound : Bool) → List ReadinessIssue → Bool
ready_of watcher outbound issues = outbound && (outbound && watcher) && not (any is_blocking issues)

-- There is an issue, so that only a report that is not ready agrees.
not_ready : (i : ReadinessIssue) (issues : List ReadinessIssue) → Agrees (issues ++ i ∷ []) false
not_ready i [] = ((λ e. absurd (ground arith)), (λ e. absurd (ground arith)))
not_ready i (j ∷ js) = ((λ e. absurd (ground arith)), (λ e. absurd (ground arith)))

abbrev state_issues : (watcher ready locked : Bool) → Text → Text → Text → List ReadinessIssue
state_issues watcher ready locked m1 m2 m3 = noted locked (issue (codes "sim_pin_locked") m3) (
    noted (not ready) (issue (codes "modem_not_ready") m2)
      (noted (not watcher) (issue (codes "sms_watcher_disabled") m1) []))

abbrev ping_issues :
    (watcher ready locked ping_ok : Bool) → Text → Text → Text → Text → List ReadinessIssue
ping_issues watcher ready locked ping_ok m1 m2 m3 m4 =
    noted (not ping_ok) (issue unreachable m4) (state_issues watcher ready locked m1 m2 m3)

-- with the phone number looked up
phone-Agrees :
    (watcher ready locked ping_ok no_phone : Bool) (m1 m2 m3 m4 m5 : Text)
    → let issues : List ReadinessIssue =
        noted no_phone
          (issue (codes "phone_number_missing") m5)
          (ping_issues watcher ready locked ping_ok m1 m2 m3 m4) in
      Agrees issues (ready_of watcher (ready && not locked && ping_ok) issues)
unfolding text_in
phone-Agrees true true false true false m1 m2 m3 m4 m5 = ((λ e. refl), (λ e. tt))
phone-Agrees _ _ _ _ _ m1 m2 m3 m4 m5 = ((λ e. absurd (ground arith)), (λ e. absurd (ground arith)))

-- with mmcli failing at the phone number
identity-Agrees :
    (watcher ready locked ping_ok : Bool) (m1 m2 m3 m4 m5 : Text)
    → let issues : List ReadinessIssue =
        ping_issues watcher ready locked ping_ok m1 m2 m3 m4 ++ issue unreachable m5 ∷ [] in
      Agrees issues (ready_of watcher (ready && not locked && ping_ok) issues)
unfolding text_in
identity-Agrees true true false true m1 m2 m3 m4 m5 =
    ((λ e. absurd (ground arith)), (λ e. (refl, tt)))
identity-Agrees _ _ _ _ m1 m2 m3 m4 m5 =
    ((λ e. absurd (ground arith)), (λ e. absurd (ground arith)))

-- with mmcli failing at the ping
ping-Agrees :
    (watcher ready locked : Bool) (m1 m2 m3 m5 : Text)
    → let issues : List ReadinessIssue =
        state_issues watcher ready locked m1 m2 m3 ++ issue unreachable m5 ∷ [] in
      Agrees issues (ready_of watcher (ready && not locked && false) issues)
unfolding text_in
ping-Agrees true true true m1 m2 m3 m5 =
    ((λ e. absurd (ground arith)), (λ e. absurd (ground arith)))
ping-Agrees _ _ _ m1 m2 m3 m5 = ((λ e. absurd (ground arith)), (λ e. absurd (ground arith)))

abbrev base : Bool → List ℕ → Report
base watcher indices = enumerated indices (start_report watcher [])

module _ (env : Env) (watcher : Bool) (indices : List ℕ) (ix : ℕ) (state : Text)
    (locked : Bool) where
  abbrev looked_at : Report
  looked_at = with_lock locked (with_state ix state (base watcher indices))

  identity-Judged :
      (ping : Bool × Text) (w : World)
      → Judged (report_identity env ix (with_ping ping looked_at) w)
  unfolding report_identity try_else pure raise judge
  identity-Judged (ping_ok, text) w = after (probe_modem_identity env ix none w)
    where
      after :
          (o : Result Identity × World)
          → Judged (
              handle_with
                (outer_handler env (with_ping (ping_ok, text) looked_at))
                (λ identity. pure (
                  with_phone
                    (phone_or_fallback env ix identity)
                    (with_ping (ping_ok, text) looked_at)))
                o)
      after (ok identity, v) = λ t.
          phone-Agrees watcher (is_ready_state state) locked ping_ok
            (is_empty (phone_or_fallback env ix identity)) _ _ _ _ _
      after (err (mmcli e), v) =
          λ t. identity-Agrees watcher (is_ready_state state) locked ping_ok _ _ _ _ _
      after (err x, v) = tt

  ping-Judged : (w : World) → Judged (report_ping env ix looked_at w)
  unfolding report_ping try_else pure raise judge
  ping-Judged w = after (modem_ping env ix w)
    where
      after :
          (o : Result (Bool × Text) × World)
          → Judged (
              handle_with
                (outer_handler env looked_at)
                (λ ping. report_identity env ix (with_ping ping looked_at))
                o)
      after (ok ping, v) = identity-Judged ping v
      after (err (mmcli e), v) = λ t. ping-Agrees watcher (is_ready_state state) locked _ _ _ _
      after (err x, v) = tt

module _ (env : Env) (watcher : Bool) where
  modem-Judged :
      (ix : ℕ) (indices : List ℕ) (w : World)
      → Judged (report_modem env ix (base watcher indices) w)
  unfolding report_modem ◌>>=◌
  modem-Judged ix indices w = with_state_read (get_modem_state env ix w)
    where
      with_lock_read :
          (state : Text) (o : Result Bool × World)
          → Judged (
              continue_with
                (λ locked.
                  report_ping env ix
                    (with_lock locked (with_state ix state (base watcher indices))))
                o)
      with_lock_read state (ok locked, v) = ping-Judged env watcher indices ix state locked v
      with_lock_read state (err x, v) = tt

      with_state_read :
          (o : Result Text × World)
          → Judged (
              continue_with
                (λ state. sim_pin_lock_active env ix >>= λ locked.
                  report_ping env ix
                    (with_lock locked (with_state ix state (base watcher indices))))
                o)
      with_state_read (ok state, v) = with_lock_read state (sim_pin_lock_active env ix v)
      with_state_read (err x, v) = tt

  indices-Judged :
      (configured : ℕ) (indices : List ℕ) (w : World)
      → Judged (report_indices env configured (start_report watcher []) indices w)
  unfolding report_indices try_else pure raise judge
  indices-Judged configured [] w = λ t. not_ready _ (start_report watcher []).issues
  indices-Judged configured (n ∷ ns) w = after (resolve_modem_mmcli_index env configured w)
    where
      after :
          (o : Result ℕ × World)
          → Judged (
              handle_with
                (missing_handler env (n ∷ ns) (base watcher (n ∷ ns)))
                (λ ix. report_modem env ix (base watcher (n ∷ ns)))
                o)
      after (ok ix, v) = modem-Judged ix (n ∷ ns) v
      after (err (mmcli e), v) = λ t. not_ready _ (start_report watcher []).issues
      after (err x, v) = tt

  list-Judged :
      (configured : ℕ) (w : World)
      → Judged (
          guarded env
            (start_report watcher [])
            (list_modem_indices env)
            (report_indices env configured (start_report watcher []))
            w)
  unfolding try_else pure raise judge
  list-Judged configured w = after (list_modem_indices env w)
    where
      after :
          (o : Result (List ℕ) × World)
          → Judged (
              handle_with
                (outer_handler env (start_report watcher []))
                (report_indices env configured (start_report watcher []))
                o)
      after (ok indices, v) = indices-Judged configured indices v
      after (err (mmcli e), v) = λ t. not_ready _ (start_report watcher []).issues
      after (err x, v) = tt

abbrev pub SnapshotJudged : Result ReadinessSnapshot × World → Type 0
SnapshotJudged (ok s, w) = IsJudged s
SnapshotJudged (err x, w) = Unit

-- Whatever mmcli answers, a readiness report that is made without issues from the caller and that
-- returns is ready if it has no issue; and if it is ready, each of its issues is that mmcli did not
-- answer: no disabled watcher, no missing, locked or unregistered modem and no missing number.
pub evaluate-IsJudged :
    (env : Env) (modem_index : Option ℕ) (w : World)
    → SnapshotJudged (evaluate_sms_readiness env modem_index [] w)
unfolding evaluate_sms_readiness evaluate_with gets pure ◌>>=◌
evaluate-IsJudged env modem_index w =
    let mm = health_client env in
    let watcher = truthy_env env.environ (codes "RUN_SMS_WATCHER") true in
    judged _ (list-Judged mm watcher (or_else modem_index env.mmcli_index) w)
  where
    judged :
        (o : Result Report × World)
        → Judged o
        → SnapshotJudged (continue_with (λ r. pure (judge w.clock r)) o)
    judged (ok r, v) h = h w.clock
    judged (err x, v) h = tt
