-- ===== src/Watcher/Watch.antt =====
-- internal/watcher/service.go, watchAccount and idleLoop: the reconnection loop of one account. The
-- answers of the IMAP server and of the context are given, check by check; a scan in the loop only
-- logs its error, so its result does not steer the loop.
pub mod Backoff
pub mod Delay
mod Tests
use skybeam_mail.Prelude.{
  ℕ, suc, ◌+◌, ◌*◌, Bool, true, false, Option, none, some, List, [], ◌∷◌, if◌then◌else◌, ltb,
}
use skybeam_mail.Imap.{IdleAnswers, IdleEnd, idle as idle_command}

-- A round of the inner loop: whether the context is done at its top, and whether Idle fails.
pub record Beat : Type 0 where
  pub done : Bool
  pub idle_fails : Bool

-- A round of the outer loop: whether the context is done at its top, which step of the connection
-- fails, the rounds of the inner loop, and whether the context ends the wait after an error.
pub record Session : Type 0 where
  pub done : Bool
  pub dial_fails : Bool
  pub login_fails : Bool
  pub select_fails : Bool
  pub beats : List Beat
  pub wait_cancelled : Bool

pub data Stage : Type 0 where
  connect login select_inbox idle : Stage

-- How idleLoop returns: nil, an error, or not yet.
pub data Return : Type 0 where
  nil running : Return
  error : Stage → Return

-- The inner loop, with the number of scans made.
unfoldable pub idle_rounds : ℕ → List Beat → Return × ℕ
idle_rounds scans [] = (Return.running, scans)
idle_rounds scans (b ∷ beats) =
    let rest = idle_rounds (scans + 1) beats in
    if b.done
    then (Return.nil, scans)
    else if b.idle_fails
    then (Return.error Stage.idle, scans)
    else rest

-- `idleLoop`; the first scan is the one before the loop.
unfoldable pub idle_loop : Session → Return × ℕ
idle_loop s =
    if s.dial_fails
    then (Return.error Stage.connect, 0)
    else if s.login_fails
    then (Return.error Stage.login, 0)
    else if s.select_fails
    then (Return.error Stage.select_inbox, 0)
    else idle_rounds 1 s.beats

-- Nanoseconds.
abbrev pub second : ℕ
second = 1_000_000_000

abbrev pub first_backoff : ℕ
first_backoff = 5 * second

-- What follows an Idle that was called at a time: nothing behind an error, else a scan and the next
-- round.
unfoldable pub scans_behind : ℕ → ℕ → IdleEnd → (ℕ → List ℕ) → List ℕ
scans_behind now scan_time IdleEnd.idle_failed next = []
scans_behind now scan_time (IdleEnd.wait_failed t) next = []
scans_behind now scan_time (IdleEnd.idled t) next = (now + t) ∷ next (now + t + scan_time)

-- A round of the inner loop: what becomes of its IDLE, and how long the scan behind it takes.
pub record Round : Type 0 where
  pub answers : IdleAnswers
  pub scan_time : ℕ

-- The inner loop with its times, while the context is not done: when each scan begins.
unfoldable pub scans_from : ℕ → List Round → List ℕ
scans_from now [] = []
scans_from now (r ∷ rounds) =
    scans_behind now r.scan_time (idle_command (1500 * second) r.answers) (λ t. scans_from t rounds)

-- `if backoff < 5*time.Minute { backoff *= 2 }`
unfoldable pub next_backoff : ℕ → ℕ
next_backoff backoff = if ltb backoff (300 * second) then backoff * 2 else backoff

-- The outer loop from its backoff on: the waits that it begins.
unfoldable pub watch_by : Return → ℕ → Bool → (ℕ → List ℕ) → List ℕ
watch_by Return.nil backoff cancelled rest = rest first_backoff
watch_by Return.running backoff cancelled rest = []
watch_by (Return.error stage) backoff true rest = backoff ∷ []
watch_by (Return.error stage) backoff false rest = backoff ∷ rest (next_backoff backoff)

unfoldable pub watch_from : ℕ → List Session → List ℕ
watch_from backoff [] = []
watch_from backoff (s ∷ sessions) =
    let round = watch_by (idle_loop s).0 backoff s.wait_cancelled (λ b. watch_from b sessions) in
    if s.done then [] else round

-- `watchAccount`
unfoldable pub watch_account : List Session → List ℕ
watch_account = watch_from first_backoff
