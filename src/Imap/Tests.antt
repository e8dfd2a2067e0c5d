-- ===== src/Imap/Tests.antt =====
-- internal/imap/client.go: Idle with a push of the server, and a body that is not there.
use skybeam_mail.Prelude.{◌≡◌, refl, false, some, []}
use skybeam_mail.Imap.{IdleEnd, idle, FetchedBody, fetch_body}

-- Wait returns after 3; Idle returns at the timeout.
pushed :
    idle 10 (record { start_fails = false; wait_time = 3; wait_fails = false; close_time = 1 })
    ≡ IdleEnd.idled 11
unfolding idle
pushed = refl

missing : fetch_body (some []) ≡ FetchedBody.not_found
unfolding fetch_body
missing = refl
