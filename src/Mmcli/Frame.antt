-- ===== src/Mmcli/Frame.antt =====
-- The client of mmcli changes no table, and time only goes forward.
use hi_wave_tel.Prelude.{ℕ, zero, suc, ◌≤◌, refl, arith, Text, List, Option, none, some}
use hi_wave_tel.Runtime.Exn.{MmcliError}
use hi_wave_tel.Runtime.Respects.{
  IsPreorder, Respects, respects_rules, Respects-bind, Respects-if, Respects-then, Respects-pure,
  Respects-raise, Respects-modify,
}
use hi_wave_tel.World.{Env, World, Run, completed, timeout_expired, not_run, sleep}
use hi_wave_tel.World.Frames.{SameTables, SameTables-refl, SameTables-IsPreorder, sleep-SameTables}
use hi_wave_tel.Mmcli.{
  Completed, run, retry_rounds, retrying_run, ensure_ok, or_fail, list_modem_indices,
  primary_modem_index, ensure_modem_index, create_sms, send_sms, show_sms, show_plain_sms, started,
  ended,
}
use hi_wave_tel.Mmcli.Snapshot.{Details}

pub record Probes (w w' : World) : Type 0 where
  pub tables : SameTables w w'
  pub clock : w.clock ≤ w'.clock

pub Probes-refl : (w : World) → Probes w w
Probes-refl w = record { tables = SameTables-refl w; clock = omega arith }

pub Probes-IsPreorder : IsPreorder Probes
Probes-IsPreorder = record {
  refl = Probes-refl;
  trans = λ u v w a b. record {
    tables = SameTables-IsPreorder.trans u v w a.tables b.tables;
    clock = omega (arith, a.clock, b.clock);
  };
}

pub sleep-Probes : (d : ℕ) (w : World) → Probes w (sleep d w)
sleep-Probes d w = record { tables = sleep-SameTables d w; clock = unfold sleep in omega arith }

module _ (env : Env) where
  started-Probes : (argv : List Text) (w : World) → Probes w (started env argv w)
  started-Probes argv w = record {
    tables = record {
      inbound = refl;
      outbound = refl;
      jobs = refl;
      webhooks = refl;
      devices = refl;
      dlq = refl;
      next_pk = refl;
    };
    clock = omega arith;
  }

  ended-Probes : (r : Run) (v w : World) → Probes v w → Probes v (ended env r w).1
  ended-Probes (completed rc o e) v w h = h
  ended-Probes timeout_expired v w h = h
  ended-Probes (not_run m) v w h = h

  pub run-Probes : (argv : List Text) → Respects Probes (run env argv)
  unfolding run
  run-Probes argv = record {
    at = λ w. ended-Probes (env.mmcli w.mmcli_calls argv) w _ (started-Probes argv w);
  }

  pub ruleset probe_rules = (respects_rules, Probes-IsPreorder, run-Probes)

  pub ensure_ok-Probes : (cp : Completed) (what : Text) → Respects Probes (ensure_ok cp what)
  unfolding ensure_ok
  ensure_ok-Probes cp what = search probe_rules

  pub or_fail-Probes :
      {A : Type 0} (what : Text) (cp : Completed) (o : Option A)
      → Respects Probes (or_fail what cp o)
  or_fail-Probes what cp none = search probe_rules
  or_fail-Probes what cp (some a) = search probe_rules

  retry_rounds-Probes :
      (argv : List Text) (what : Text) (left attempt : ℕ) (last : Option MmcliError)
      → Respects Probes (retry_rounds env argv what left attempt last)
  unfolding retry_rounds
  retry_rounds-Probes argv what zero attempt last = search probe_rules
  retry_rounds-Probes argv what (suc left) attempt last =
      Respects-bind Probes-IsPreorder _ _ (run-Probes argv) (λ cp.
        Respects-if Probes-IsPreorder _ _ _ (Respects-pure Probes-IsPreorder _) (
          Respects-if Probes-IsPreorder _ _ _ (Respects-raise Probes-IsPreorder _) (
            Respects-then Probes-IsPreorder _ _
              (Respects-modify Probes-IsPreorder _ (sleep-Probes _))
              (retry_rounds-Probes argv what left (suc attempt) _))))

  pub retrying_run-Probes :
      (argv : List Text) (what : Text) → Respects Probes (retrying_run env argv what)
  unfolding retrying_run
  retrying_run-Probes argv what = retry_rounds-Probes argv what _ 0 none

  pub ruleset client_rules = (probe_rules, ensure_ok-Probes, or_fail-Probes, retrying_run-Probes)

  pub list_modem_indices-Probes : Respects Probes (list_modem_indices env)
  unfolding list_modem_indices
  list_modem_indices-Probes = search client_rules

  pub primary_modem_index-Probes : Respects Probes (primary_modem_index env)
  unfolding primary_modem_index
  primary_modem_index-Probes = search client_rules

  pub ensure_modem_index-Probes :
      (modem_index : ℕ) → Respects Probes (ensure_modem_index env modem_index)
  unfolding ensure_modem_index
  ensure_modem_index-Probes modem_index = search (client_rules, list_modem_indices-Probes)

  pub create_sms-Probes :
      (modem_index : ℕ) (number text : Text)
      → Respects Probes (create_sms env modem_index number text)
  unfolding create_sms
  create_sms-Probes modem_index number text = search client_rules

  pub send_sms-Probes : (sms_path : Text) → Respects Probes (send_sms env sms_path)
  unfolding send_sms
  send_sms-Probes sms_path = search client_rules

  show_plain-Probes :
      (sms_path : Text) (a b : Details) → Respects Probes (show_plain_sms env sms_path a b)
  unfolding show_plain_sms
  show_plain-Probes sms_path a b = search client_rules

  pub show_sms-Probes : (sms_path : Text) → Respects Probes (show_sms env sms_path)
  unfolding show_sms
  show_sms-Probes sms_path = search (client_rules, show_plain-Probes)
