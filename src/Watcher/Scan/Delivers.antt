-- ===== src/Watcher/Scan/Delivers.antt =====
-- internal/watcher/service.go, scanNewMessages: a whole scan where its calls are answered.
use mathlib.Core.Path.{subst}
use skybeam_mail.Prelude.{
  ℕ, ◌≡◌, refl, sym, ◌∙◌, ap, true, ◌&&◌, some, List, [], ◌∷◌, append-nil, arith, any, All, map,
  length, ◌==◌, Text, text_eq, text_eq_iff,
}
use skybeam_mail.Events.Writer.Calm.{HasDrawn}
use skybeam_mail.Store.Rows.{Store, MessageRow}
use skybeam_mail.Store.Table.{select}
use skybeam_mail.Store.World.{Env, World, IsCalm, settle}
use skybeam_mail.Store.World.Calm.{query_rows_answered}
use skybeam_mail.Watcher.Mail.{Message, headers}
use skybeam_mail.Watcher.Scan.{
  Server, Outcome, inbox_name, in_inbox, scan_with, scan_messages, scan, outcome_of, known_uids,
}
use skybeam_mail.Watcher.Scan.Calm.{IsTracked, IsReady}
use skybeam_mail.Watcher.Scan.Covers.{fresh, Finished, scan_loop_lem}

-- What a scan of these messages has done, with its result.
abbrev pub Scans : ℕ → List Message → World → Outcome × World → Type 0
Scans account ms w (r, w') =
    (r ≡ Outcome.complete (length (fresh (known_uids account w.db) ms)))
    × Finished account (known_uids account w.db) ms w.db w'.db
    × HasDrawn w'.db

module _ (env : Env) (calm : IsCalm env) (server : Server) (fuel account : ℕ) where
  scan_messages-Scans :
      (ms : List Message) (w : World)
      → All (IsReady env server fuel account) ms
      → HasDrawn w.db
      → Scans account ms w (scan_messages env server fuel account (some ms) w)
  unfolding scan_messages scan_with select outcome_of
  scan_messages-Scans [] w ready drawn = (
    refl,
    record {
      tracked = tt;
      more = [];
      events = sym (append-nil w.db.events);
      uids = refl;
      deliveries = tt;
    },
    drawn,
  )
  scan_messages-Scans (m ∷ ms) w ready drawn =
      let known = known_uids account w.db in
      let (total, f, d) =
        scan_loop_lem env calm server fuel account known 0 (m ∷ ms) (settle w.db w) ready drawn in
      rw (query_rows_answered env [] (known_uids account) w (calm w.calls) refl)
        (ap outcome_of total ∙ ap Outcome.complete (omega arith), f, d)

  -- Where every call is answered, every message of INBOX can be read and is taken by PostgreSQL, and
  -- the event ids that are stored have been drawn, a scan ends; each of the messages then has its row;
  -- the events that it adds are one MessageDelivered for each message whose uid had no row in INBOX
  -- before, in the order of the messages; and it reports their number.
  pub scan_delivers :
      (ms : List Message) (w : World)
      → server.inbox ≡ some ms
      → All (IsReady env server fuel account) ms
      → HasDrawn w.db
      → Scans account ms w (scan env server fuel account w)
  unfolding scan
  scan_delivers ms w e ready drawn =
      subst (λ inbox. Scans account ms w (scan_messages env server fuel account inbox w)) (sym e)
        (scan_messages-Scans ms w ready drawn)

known_of_IsTracked :
    (account : ℕ) (uid : Text) (rows : List MessageRow)
    → any (in_inbox account uid) rows ≡ true
    → any (text_eq uid) (
        map
          (λ r. r.dovecot_uid)
          (select (λ r. r.account_id == account && text_eq r.folder inbox_name) rows))
      ≡ true
unfolding select
known_of_IsTracked account uid [] e = cc
known_of_IsTracked account uid (r ∷ rows) e = ground (
  arith,
  known_of_IsTracked account uid rows,
  text_eq_iff uid r.dovecot_uid,
  text_eq_iff r.dovecot_uid uid,
)

fresh_none :
    (account : ℕ) (ms : List Message) (db : Store)
    → All (λ m. IsTracked account (headers m).uid db) ms
    → fresh (known_uids account db) ms ≡ []
unfolding select known_uids
fresh_none account [] db h = refl
fresh_none account (m ∷ ms) db (t, h) =
    rw (known_of_IsTracked account (headers m).uid db.messages t) (fresh_none account ms db h)

map-eq-nil {ℓ κ} : {A : Type ℓ} {B : Type κ} (f : A → B) (xs : List A) → map f xs ≡ [] → xs ≡ []
map-eq-nil f [] e = refl
map-eq-nil f (x ∷ xs) e = cc

module _ (env : Env) (calm : IsCalm env) (server : Server) (fuel account : ℕ) where
  -- Where every call is answered, every message of INBOX can be read and is taken by PostgreSQL, and
  -- the event ids that are stored have been drawn, a second scan of the same INBOX reports no new
  -- message and adds no event.
  pub scan_again :
      (ms : List Message) (w : World)
      → server.inbox ≡ some ms
      → All (IsReady env server fuel account) ms
      → HasDrawn w.db
      → let v = (scan env server fuel account w).1 in
        ((scan env server fuel account v).0 ≡ Outcome.complete 0)
        × ((scan env server fuel account v).1.db.events ≡ v.db.events)
  scan_again ms w e ready drawn =
      let (_, first, drawn') = scan_delivers env calm server fuel account ms w e ready drawn in
      let v = (scan env server fuel account w).1 in
      let (total, again, _) = scan_delivers env calm server fuel account ms v e ready drawn' in
      let old = fresh_none account ms v.db first.tracked in
      let none_more : again.more ≡ [] =
        map-eq-nil (λ r. r.message_uid) again.more
          (again.uids ∙ ap (map (λ m. (headers m).uid)) old) in
      (
        total ∙ ap (λ l. Outcome.complete (length l)) old,
        again.events ∙ rw none_more (append-nil v.db.events),
      )
