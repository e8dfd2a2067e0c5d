-- ===== src/Watcher/Scan/Flags.antt =====
-- internal/watcher/service.go, scanNewMessages: the flag \Seen and the column is_read.
use mathlib.Core.Path.{subst}
use skybeam_mail.Prelude.{
  ℕ, ◌+◌, ◌≡◌, refl, sym, ◌∙◌, inl, inr, Bool, true, false, ◌&&◌, ◌==◌, map, some, List, [], ◌∷◌,
  arith, any, All, Text, text_eq, text_eq_iff, Bool-cases,
}
use skybeam_mail.Events.Writer.Calm.{HasDrawn, HasDrawn-raise, appended, appended-HasDrawn}
use skybeam_mail.Store.Rows.{Store, MessageRow}
use skybeam_mail.Store.Table.{select, upsert}
use skybeam_mail.Store.Table.Laws.{select-upsert}
use skybeam_mail.Store.Table.Picks.{All-select_upserted, All-select_touched}
use skybeam_mail.Store.World.{Env, World, IsCalm, settle}
use skybeam_mail.Store.World.Calm.{query_rows_answered}
use skybeam_mail.Watcher.Mail.{Message, Headers, headers}
use skybeam_mail.Watcher.Scan.{
  Server, Body, no_body, in_inbox, inbox_name, inbox_row, refresh, touch, scan_loop, scan_with,
  scan_messages, scan, known_uids,
}
use skybeam_mail.Watcher.Scan.Calm.{IsReady, IsTracked, after_known, after_new, announced}
use skybeam_mail.Watcher.Scan.Covers.{loop_known, loop_new}
use skybeam_mail.Watcher.Scan.Delivers.{scan_delivers}

-- The rows of INBOX with the uid have this is_read.
abbrev pub Shows : ℕ → Text → Bool → List MessageRow → Type 0
Shows account uid v rows = All (λ r. r.is_read ≡ v) (select (in_inbox account uid) rows)

-- The fetched messages with the uid have \Seen as v says.
abbrev pub Agrees : Text → Bool → List Message → Type 0
Agrees uid v = All (λ m. text_eq (headers m).uid uid ≡ true → (headers m).is_read ≡ v)

module _ (account : ℕ) (uid : Text) (v : Bool) (h : Headers) (size : ℕ) (b : Body) (id now : ℕ)
    (rows : List MessageRow) where
  -- An upsert of another uid.
  Shows-other :
      (f : MessageRow → MessageRow)
      → ((r : MessageRow) → in_inbox account uid (f r) ≡ in_inbox account uid r)
      → text_eq h.uid uid ≡ false
      → Shows account uid v rows
      → Shows account uid v
          (upsert (in_inbox account h.uid) (inbox_row account h size b id now) f rows)
  unfolding inbox_row
  Shows-other f same e s =
      subst (All (λ r. r.is_read ≡ v))
        (sym (
          select-upsert (in_inbox account h.uid) (in_inbox account uid) _ f rows (ground arith)
            (λ r hit. ground (
              arith,
              same r,
              text_eq_iff r.dovecot_uid h.uid,
              text_eq_iff r.dovecot_uid uid,
              text_eq_iff h.uid uid,
            ))))
        s

  Shows-known :
      h.uid ≡ uid
      → h.is_read ≡ v
      → Shows account uid v (
          upsert
            (in_inbox account h.uid)
            (inbox_row account h size b id now)
            (refresh h.is_read now)
            rows)
  unfolding inbox_row
  Shows-known e seen = rw (sym e) (
      All-select_upserted (λ r. r.is_read ≡ v) (in_inbox account h.uid) _ (refresh h.is_read now)
        rows (λ r. refl) seen (λ r. seen))

  Shows-new :
      h.uid ≡ uid
      → h.is_read ≡ v
      → Shows account uid v rows
      → Shows account uid v
          (upsert (in_inbox account h.uid) (inbox_row account h size b id now) (touch now) rows)
  unfolding inbox_row
  Shows-new e seen s = rw (sym e) (
      All-select_touched (λ r. r.is_read ≡ v) (in_inbox account h.uid) _ (touch now) rows
        (λ r. refl) seen (λ r p. p) (rw (sym e) at s))

module _ (env : Env) (calm : IsCalm env) (server : Server) (fuel account : ℕ) (uid : Text)
    (v : Bool) where
  abbrev is_of : Message → Bool
  is_of m = text_eq (headers m).uid uid

  -- The loop shows the flag, where the rows show it before or both the list of known uids and the
  -- fetched messages have the uid.
  scan_loop-Shows :
      (known : List Text) (n : ℕ) (ms : List Message) (w : World)
      → All (IsReady env server fuel account) ms
      → HasDrawn w.db
      → Agrees uid v ms
      → (any is_of ms ≡ false → Shows account uid v w.db.messages)
      → (any (text_eq uid) known ≡ false → Shows account uid v w.db.messages)
      → Shows account uid v (scan_loop env server fuel account known n ms w).1.db.messages
  unfolding scan_loop
  scan_loop-Shows known n [] w ready drawn agree none_of unknown = none_of refl
  scan_loop-Shows known n (m ∷ ms) w (r, ready) drawn (a, agree) none_of unknown =
      let h = headers m in
      let now = (env.tick w.calls).now in
      let raised = HasDrawn-raise w.db.events w.db.next_id drawn in
      elim (Bool-cases (any (text_eq h.uid) known)) [
        | inl old ↦
            let u = after_known env calm server fuel account m r known w in
            rw (loop_known env calm server fuel account known n m ms r w old)
              (elim (Bool-cases (text_eq h.uid uid)) [
                | inl same ↦
                    let s =
                      Shows-known account uid v h m.size_bytes no_body w.db.next_id now
                        w.db.messages ((text_eq_iff h.uid uid).0 same) (a same) in
                    scan_loop-Shows known n ms u ready raised agree (λ _. s) (λ _. s)
                | inr other ↦
                    let keep =
                      Shows-other account uid v h m.size_bytes no_body w.db.next_id now
                        w.db.messages (refresh h.is_read now) (λ r. refl) other in
                    scan_loop-Shows known n ms u ready raised agree
                      (λ e. keep (none_of (rw (other, e) refl))) (λ e. keep (unknown e))
              ])
        | inr new ↦
            let u = after_new env calm server fuel account m r known w in
            let row = announced env calm server fuel account m r known w in
            let u' = settle (appended row u.db) u in
            let drawn' = appended-HasDrawn row u.db refl raised in
            rw (loop_new env calm server fuel account known n m ms r w new drawn)
              (elim (Bool-cases (text_eq h.uid uid)) [
                | inl same ↦
                    let e = (text_eq_iff h.uid uid).0 same in
                    let s =
                      Shows-new account uid v h m.size_bytes r.body w.db.next_id now w.db.messages e
                        (a same) (unknown (rw (sym e) new)) in
                    scan_loop-Shows known (n + 1) ms u' ready drawn' agree (λ _. s) (λ _. s)
                | inr other ↦
                    let keep =
                      Shows-other account uid v h m.size_bytes r.body w.db.next_id now w.db.messages
                        (touch now) (λ r. refl) other in
                    scan_loop-Shows known (n + 1) ms u' ready drawn' agree
                      (λ e. keep (none_of (rw (other, e) refl))) (λ e. keep (unknown e))
              ])
      ]

-- A uid of a list all of which is tracked.
pub among-IsTracked :
    (account : ℕ) (uid : Text) (ms : List Message) (db : Store)
    → any (λ m. text_eq (headers m).uid uid) ms ≡ true
    → All (λ m. IsTracked account (headers m).uid db) ms
    → IsTracked account uid db
among-IsTracked account uid [] db e h = cc
among-IsTracked account uid (m ∷ ms) db e (t, h) = elim (Bool-cases (text_eq (headers m).uid uid)) [
  | inl same ↦ subst (λ u. IsTracked account u db) ((text_eq_iff (headers m).uid uid).0 same) t
  | inr other ↦ among-IsTracked account uid ms db (rw other at e) h
]

-- A uid that the SELECT does not list has no row.
unlisted :
    (account : ℕ) (uid : Text) (rows : List MessageRow)
    → any (text_eq uid) (
        map
          (λ r. r.dovecot_uid)
          (select (λ r. r.account_id == account && text_eq r.folder inbox_name) rows))
      ≡ false
    → select (in_inbox account uid) rows ≡ []
unfolding select
unlisted account uid [] e = refl
unlisted account uid (r ∷ rows) e =
    ground (
      arith,
      unlisted account uid rows,
      text_eq_iff uid r.dovecot_uid,
      text_eq_iff r.dovecot_uid uid,
    )

unlisted-Shows :
    (account : ℕ) (uid : Text) (v : Bool) (db : Store)
    → any (text_eq uid) (known_uids account db) ≡ false
    → Shows account uid v db.messages
unfolding known_uids
unlisted-Shows account uid v db e =
    subst (All (λ r. r.is_read ≡ v)) (sym (unlisted account uid db.messages e)) tt

module _ (env : Env) (calm : IsCalm env) (server : Server) (fuel account : ℕ) (uid : Text)
    (v : Bool) where
  scan_messages-Shows :
      (ms : List Message) (w : World)
      → All (IsReady env server fuel account) ms
      → HasDrawn w.db
      → Agrees uid v ms
      → any (λ m. text_eq (headers m).uid uid) ms ≡ true
      → Shows account uid v (scan_messages env server fuel account (some ms) w).1.db.messages
  unfolding scan_messages scan_with
  scan_messages-Shows [] w ready drawn agree has = cc
  scan_messages-Shows (m ∷ ms) w ready drawn agree has =
      rw (query_rows_answered env [] (known_uids account) w (calm w.calls) refl) (
        scan_loop-Shows env calm server fuel account uid v (known_uids account w.db) 0 (m ∷ ms)
          (settle w.db w) ready drawn agree
          (λ none_of. let bad : true ≡ false = sym has ∙ none_of in cc)
          (unlisted-Shows account uid v w.db))

  -- The column is_read follows Dovecot's flag: where every call is answered, every message of INBOX
  -- can be read and is taken by PostgreSQL, and the event ids that are stored have been drawn, after
  -- a scan there is a row of INBOX with the uid of a fetched message, and every such row has the
  -- is_read that the flags say, whatever it had before, as long as the fetched messages with that
  -- uid agree on it.
  pub scan-Shows :
      (ms : List Message) (w : World)
      → server.inbox ≡ some ms
      → All (IsReady env server fuel account) ms
      → HasDrawn w.db
      → Agrees uid v ms
      → any (λ m. text_eq (headers m).uid uid) ms ≡ true
      → IsTracked account uid (scan env server fuel account w).1.db
        × Shows account uid v (scan env server fuel account w).1.db.messages
  unfolding scan
  scan-Shows ms w e ready drawn agree has =
      let (_, done, _) = scan_delivers env calm server fuel account ms w e ready drawn in
      (
        among-IsTracked account uid ms (scan env server fuel account w).1.db has done.tracked,
        subst
            (λ inbox.
              Shows account uid v (scan_messages env server fuel account inbox w).1.db.messages)
            (sym e) (scan_messages-Shows ms w ready drawn agree has),
      )
