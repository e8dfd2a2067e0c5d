-- ===== src/Watcher/Watch/Tests.antt =====
-- internal/watcher/service.go, idleLoop: the server pushes at once, and the scans wait all the same.
use skybeam_mail.Prelude.{◌+◌, ◌*◌, ◌≡◌, refl, false, [], ◌∷◌}
use skybeam_mail.Imap.{idle}
use skybeam_mail.Watcher.Watch.{Round, second, scans_behind, scans_from}
use skybeam_mail.Watcher.Watch.Delay.{IsSpaced, scans_from-IsSpaced}

abbrev pushed : Round
pushed = record {
  answers = record { start_fails = false; wait_time = 3; wait_fails = false; close_time = 1 };
  scan_time = 5;
}

twice_pushed :
    scans_from 0 (pushed ∷ pushed ∷ [])
    ≡ (1500 * second + 1) ∷ (1500 * second + 6 + 1500 * second + 1) ∷ []
unfolding scans_from scans_behind idle
twice_pushed = refl

scans_from-IsSpaced_example : IsSpaced (1500 * second) 0 (scans_from 0 (pushed ∷ pushed ∷ []))
scans_from-IsSpaced_example = scans_from-IsSpaced 0 (pushed ∷ pushed ∷ [])
