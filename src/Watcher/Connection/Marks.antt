-- ===== src/Watcher/Connection/Marks.antt =====
-- internal/watcher/service.go, scanNewMessages, over internal/imap/client.go, FetchBody: its FETCH asks for
-- BODY[] and not for BODY.PEEK[].
use mathlib.Core.Path.{subst}
use skybeam_mail.Prelude.{
  ℕ, ◌≡◌, refl, sym, ◌∙◌, Bool, true, false, Option, some, List, [], ◌∷◌, arith, any, All, map,
  Text, text_eq, text_eq_iff, ◌==◌,
}
use skybeam_mail.Prelude.Decimal.{itoa, itoa-injective}
use skybeam_mail.Events.Writer.Calm.{HasDrawn}
use skybeam_mail.Store.Table.{select}
use skybeam_mail.Store.Table.Laws.{any-append}
use skybeam_mail.Store.World.{Env, World, IsCalm}
use skybeam_mail.Imap.{Fetched, message_of, fetch_headers}
use skybeam_mail.Imap.Client.{
  Command, Server as Peer, answer, fetch_all_headers, fetch_uid_body, send,
}
use skybeam_mail.Watcher.Mail.{Message, headers, is_seen}
use skybeam_mail.Watcher.Body.{Part}
use skybeam_mail.Watcher.Scan.{known_uids, scan}
use skybeam_mail.Watcher.Scan.Calm.{IsReady, IsTracked}
use skybeam_mail.Watcher.Scan.Covers.{fresh}
use skybeam_mail.Watcher.Scan.Delivers.{scan_delivers}
use skybeam_mail.Watcher.Scan.Flags.{Shows, Agrees, scan-Shows}
use skybeam_mail.Watcher.Connection.{met, scan_over}
use skybeam_mail.Watcher.Connection.Sends.{body_of, scan_over-scan, scan_over-sent}

-- The command asks for the body of the message with this uid.
abbrev pub asks : ℕ → Command → Bool
asks u (Command.fetch_section v) = v == u
asks u (Command.login name password) = false
asks u Command.logout = false
asks u Command.expunge = false
asks u (Command.list ref pattern) = false
asks u (Command.select name) = false
asks u Command.fetch_summaries = false
asks u (Command.add_flags n flags) = false
asks u (Command.remove_flags n flags) = false
asks u (Command.move v dest) = false

abbrev pub has_number : ℕ → Fetched → Bool
has_number u f = f.uid == u

-- RFC 3501, 6.4.5: FETCH of BODY[] sets \Seen.
abbrev pub SetsSeen : Peer → Type 0
SetsSeen peer =
    (sent : List Command)
    → All (λ f. any (asks f.uid) sent ≡ true → any is_seen f.flags ≡ true) (peer.summaries sent)

-- The messages of INBOX behind these commands.
abbrev pub listed_at : Peer → List Command → List Message
listed_at peer sent = map message_of (peer.summaries sent)

asked_fresh :
    (u : ℕ) (known : List Text) (fs : List Fetched)
    → any (has_number u) fs ≡ true
    → any (text_eq (itoa u)) known ≡ false
    → any (asks u) (map body_of (fresh known (map message_of fs))) ≡ true
unfolding select headers message_of
asked_fresh u known [] e unknown = cc
asked_fresh u known (f ∷ fs) e unknown = ground (arith, asked_fresh u known fs)

headers_uid : (m : Message) → (headers m).uid ≡ itoa m.uid
unfolding headers
headers_uid m = ground arith

headers_is_read : (m : Message) → (headers m).is_read ≡ any is_seen m.flags
unfolding headers
headers_is_read m = ground arith

seen-Agrees :
    (u : ℕ) (sent : List Command) (fs : List Fetched)
    → any (asks u) sent ≡ true
    → All (λ f. any (asks f.uid) sent ≡ true → any is_seen f.flags ≡ true) fs
    → Agrees (itoa u) true (map message_of fs)
unfolding message_of
seen-Agrees u sent [] asked h = tt
seen-Agrees u sent (f ∷ fs) asked (p, h) = (
  λ e.
      let m = message_of f in
      let same : f.uid ≡ u =
        itoa-injective f.uid u (sym (headers_uid m) ∙ (text_eq_iff (headers m).uid (itoa u)).0 e) in
      headers_is_read m ∙ p (rw same asked),
  seen-Agrees u sent fs asked h,
)

has_text :
    (u : ℕ) (fs : List Fetched)
    → any (has_number u) fs ≡ true
    → any (λ m. text_eq (headers m).uid (itoa u)) (map message_of fs) ≡ true
unfolding headers message_of
has_text u [] e = cc
has_text u (f ∷ fs) e = ground (arith, has_text u fs, text_eq_iff (itoa f.uid) (itoa u))

listed_some :
    (peer : Peer) (sent : List Command)
    → ((sent : List Command) (c : Command) → peer.refuses sent c ≡ false)
    → (fetch_all_headers peer sent).0 ≡ some (listed_at peer sent)
unfolding fetch_all_headers fetch_headers answer send
listed_some peer sent takes = rw (takes sent Command.fetch_summaries) refl

module _ (env : Env) (calm : IsCalm env) (peer : Peer) (reader : List ℕ → Option (ℕ → Part))
    (fuel account : ℕ) (takes : (sent : List Command) (c : Command) → peer.refuses sent c ≡ false)
    (steady : (sent sent' : List Command) (uid : ℕ)
      → (fetch_uid_body peer uid sent).0 ≡ (fetch_uid_body peer uid sent').0)
    (ready : (sent : List Command)
      → All
          (IsReady env (met env peer reader fuel account sent) fuel account)
          (listed_at peer sent))
    (seen : SetsSeen peer) where
  -- A scan over the connection is one with the bodies that FETCH gives.
  plain :
      (start : List Command) (w : World)
      → let out = scan_over env peer reader fuel account start w in
        let same = scan env (met env peer reader fuel account start) fuel account w in
        (out.0.0 ≡ same.0) × (out.1 ≡ same.1)
  plain start w =
      scan_over-scan env peer reader fuel account start (λ sent uid. steady sent start uid) w

  first_asks :
      (start : List Command) (u : ℕ) (w : World)
      → HasDrawn w.db
      → any (has_number u) (peer.summaries start) ≡ true
      → any (text_eq (itoa u)) (known_uids account w.db) ≡ false
      → any (asks u) (scan_over env peer reader fuel account start w).0.1 ≡ true
  first_asks start u w drawn there unknown =
      let listed = listed_some peer start takes in
      let (total, _, _) =
        scan_delivers env calm (met env peer reader fuel account start) fuel account
          (listed_at peer start) w listed (ready start) drawn in
      let sent =
        scan_over-sent env peer reader fuel account start (listed_at peer start) _ w (calm w.calls)
          listed ((plain start w).0 ∙ total) in
      let bodies = map body_of (fresh (known_uids account w.db) (listed_at peer start)) in
      let asked = asked_fresh u (known_uids account w.db) (peer.summaries start) there unknown in
      rw (sent, any-append (asks u) start (Command.fetch_summaries ∷ bodies))
        (ground (arith, asked))

  -- Where every call is answered, Dovecot refuses no command and gives a body alike at any time, every
  -- message can be read and is taken by PostgreSQL, and the event ids that are stored have been
  -- drawn, and where FETCH of BODY[] sets \Seen and nothing takes it back, the watcher itself marks
  -- new mail as read: a message of INBOX that had no row, and that stays there, has a row, and every
  -- row of it shows it as read, once the connection has made the scan that finds it and the next one,
  -- whether or not anybody has read it.
  pub own_fetch_marks_read :
      (start : List Command) (u : ℕ) (w : World)
      → HasDrawn w.db
      → any (text_eq (itoa u)) (known_uids account w.db) ≡ false
      → ((sent : List Command) → any (has_number u) (peer.summaries sent) ≡ true)
      → let (first, v) = scan_over env peer reader fuel account start w in
        let out = (scan_over env peer reader fuel account first.1 v).1.db in
        IsTracked account (itoa u) out × Shows account (itoa u) true out.messages
  own_fetch_marks_read start u w drawn unknown stays =
      let (first, v) = scan_over env peer reader fuel account start w in
      let (_, _, drawn') =
        scan_delivers env calm (met env peer reader fuel account start) fuel account
          (listed_at peer start) w (listed_some peer start takes) (ready start) drawn in
      let drawn'' : HasDrawn v.db = subst (λ x. HasDrawn x.db) (sym (plain start w).1) drawn' in
      let asked = first_asks start u w drawn (stays start) unknown in
      subst (λ x. IsTracked account (itoa u) x.db × Shows account (itoa u) true x.db.messages)
        (sym (plain first.1 v).1)
        (scan-Shows env calm (met env peer reader fuel account first.1) fuel account (itoa u) true
          (listed_at peer first.1) v (listed_some peer first.1 takes) (ready first.1) drawn''
          (seen-Agrees u first.1 (peer.summaries first.1) asked (seen first.1))
          (has_text u (peer.summaries first.1) (stays first.1)))
