-- ===== src/Checks/Registry.antt =====
-- Examples of the laws of the registry of modems, of phone numbers and of the readiness report.
use hi_wave_tel.Prelude.{◌≡◌, refl, [], codes, Text, none}
use hi_wave_tel.Runtime.Exn.{pos}
use hi_wave_tel.Runtime.Exec.{ok, pure, ◌>>=◌, ◌>>◌}
use hi_wave_tel.Runtime.Ensures.{Holds}
use hi_wave_tel.World.{World}
use hi_wave_tel.Mmcli.{Completed, output_of, run, ensure_ok}
use hi_wave_tel.Phone.{normalize_phone_e164}
use hi_wave_tel.Phone.Laws.{IsE164, normalize_phone-normalize}
use hi_wave_tel.ModemRegistry.{parse_modem_paths, mmcli_list, sync_detected_modems}
use hi_wave_tel.ModemRegistry.Mirror.{Mirrored, sync_detected_modems-Mirrored}
use hi_wave_tel.Readiness.{evaluate_sms_readiness}
use hi_wave_tel.Readiness.Judgement.{SnapshotJudged, evaluate-IsJudged}
use hi_wave_tel.Readiness.Availability.{
  check_modem_availability, IsConsistent, check_modem_availability-IsConsistent,
}
use hi_wave_tel.Checks.{world}
use hi_wave_tel.Checks.Gateway.{modem_output, working, working-IsCalm}

abbrev typed_number : Text
typed_number = codes "00351 913-000-387"

normalize_phone-normalize_example :
    IsE164 (normalize_phone_e164 typed_number)
    × (normalize_phone_e164 (normalize_phone_e164 typed_number) ≡ normalize_phone_e164 typed_number)
normalize_phone-normalize_example = normalize_phone-normalize typed_number

evaluate-IsJudged_example : SnapshotJudged (evaluate_sms_readiness working none [] world)
evaluate-IsJudged_example = evaluate-IsJudged working none world

check_modem_availability-IsConsistent_example :
    Holds (IsConsistent working working) (check_modem_availability working working 0 world).0
check_modem_availability-IsConsistent_example =
    check_modem_availability-IsConsistent working working 0 world

abbrev listing : Completed
listing = record { returncode = pos 0; stdout = modem_output; stderr = [] }

abbrev after_listing : World
after_listing = (mmcli_list working world).1

listed : mmcli_list working world ≡ (ok listing, after_listing)
unfolding mmcli_list run ensure_ok pure ◌>>=◌ ◌>>◌
listed = refl

sync_detected_modems-Mirrored_example :
    Mirrored working working-IsCalm
      (parse_modem_paths (output_of listing))
      after_listing
      (sync_detected_modems working world)
sync_detected_modems-Mirrored_example =
    sync_detected_modems-Mirrored working working-IsCalm listing world after_listing listed
