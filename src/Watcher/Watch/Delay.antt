-- ===== src/Watcher/Watch/Delay.antt =====
-- internal/watcher/service.go, idleLoop, with Idle of internal/imap/client.go: how soon a new message
-- is seen.
use skybeam_mail.Prelude.{ℕ, ◌+◌, ◌*◌, ◌≤◌, max, List, [], ◌∷◌, Bool-cases, inl, inr, arith}
use skybeam_mail.Imap.{idle}
use skybeam_mail.Watcher.Watch.{Round, second, scans_behind, scans_from}

-- Times that come at least a gap behind each other, from a time on.
abbrev pub IsSpaced : ℕ → ℕ → List ℕ → Type 0
IsSpaced gap from [] = Unit {0}
IsSpaced gap from (t ∷ ts) = (from + gap ≤ t) × IsSpaced gap t ts

IsSpaced-earlier : (gap a b : ℕ) (ts : List ℕ) → a ≤ b → IsSpaced gap b ts → IsSpaced gap a ts
IsSpaced-earlier gap a b [] h s = tt
IsSpaced-earlier gap a b (t ∷ ts) h (p, s) = (omega (arith, p, h), s)

-- Idle returns nil only once the timeout is over, whatever the server pushes before: so the scans of
-- idleLoop behind the first of a connection begin at least 25 minutes after each other, and the first
-- of these as long after the loop has begun.
pub scans_from-IsSpaced :
    (now : ℕ) (rounds : List Round) → IsSpaced (1500 * second) now (scans_from now rounds)
unfolding scans_from scans_behind idle
scans_from-IsSpaced now [] = tt
scans_from-IsSpaced now (r ∷ rounds) = elim (Bool-cases r.answers.start_fails) [
  | inl refused ↦ rw refused tt
  | inr sent ↦ elim (Bool-cases r.answers.wait_fails) [
    | inl broken ↦ rw (sent, broken) tt
    | inr ended ↦
        let t = now + max r.answers.wait_time (1500 * second + r.answers.close_time) in
        rw (sent, ended)
          (
            omega arith,
            IsSpaced-earlier (1500 * second) t (t + r.scan_time) _ (omega arith)
                (scans_from-IsSpaced (t + r.scan_time) rounds),
          )
  ]
]
