-- ===== src/Imap.antt =====
-- internal/imap/client.go. Each command of go-imap stands by its answer, none for an error; of an error
-- that is passed on only the step that failed is kept. Times are in nanoseconds.
pub mod Client
mod Tests
use skybeam_mail.Prelude.{
  ℕ, ◌+◌, max, Bool, true, false, Option, none, some, List, [], ◌∷◌, map, if◌then◌else◌, Text,
}
use skybeam_mail.Watcher.Mail.{Flag, Envelope, Message}

-- A message as Fetch collects it: the items asked for, and its body sections in the order in which the
-- map is gone through. The number in the sequence, which nothing reads, is left out.
pub record Fetched : Type 0 where
  pub uid : ℕ
  pub flags : List Flag
  pub envelope : Option Envelope
  pub size : ℕ
  pub sections : List (List ℕ)

unfoldable pub folder_names : Option (List Text) → Option (List Text)
folder_names none = none
folder_names (some mailboxes) = some (map (λ name. name) mailboxes)

unfoldable pub message_of : Fetched → Message
message_of f = record { uid = f.uid; flags = f.flags; envelope = f.envelope; size_bytes = f.size }

-- `FetchHeaders`
unfoldable pub fetch_headers : Option (List Fetched) → Option (List Message)
fetch_headers none = none
fetch_headers (some fetched) = some (map message_of fetched)

-- How FetchBody returns.
pub data FetchedBody : Type 0 where
  fetch_failed not_found no_section : FetchedBody
  body : List ℕ → FetchedBody

unfoldable pub first_section : List (List ℕ) → FetchedBody
first_section [] = FetchedBody.no_section
first_section (bytes ∷ sections) = FetchedBody.body bytes

-- `FetchBody`
unfoldable pub fetch_body : Option (List Fetched) → FetchedBody
fetch_body none = FetchedBody.fetch_failed
fetch_body (some []) = FetchedBody.not_found
fetch_body (some (f ∷ fetched)) = first_section f.sections

-- What becomes of an IDLE command: whether it cannot be sent, when Wait returns and whether with an
-- error, and how long its Close takes.
pub record IdleAnswers : Type 0 where
  pub start_fails : Bool
  pub wait_time : ℕ
  pub wait_fails : Bool
  pub close_time : ℕ

-- How Idle returns, and how long after its call: nil comes only once the goroutine that sleeps for the
-- timeout has sent to `done`.
pub data IdleEnd : Type 0 where
  idle_failed : IdleEnd
  wait_failed : ℕ → IdleEnd
  idled : ℕ → IdleEnd

-- `Idle`
unfoldable pub idle : ℕ → IdleAnswers → IdleEnd
idle timeout a =
    if a.start_fails
    then IdleEnd.idle_failed
    else if a.wait_fails
    then IdleEnd.wait_failed a.wait_time
    else IdleEnd.idled (max a.wait_time (timeout + a.close_time))
