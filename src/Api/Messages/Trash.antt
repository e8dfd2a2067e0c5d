-- ===== src/Api/Messages/Trash.antt =====
-- internal/api/handlers/messages.go, Delete, and the next scan of internal/watcher/service.go: Delete
-- moves the row in message_view and says nothing to Dovecot.
use skybeam_mail.Prelude.{
  ℕ, ◌≡◌, refl, sym, ap, ◌∙◌, Bool, true, false, ◌&&◌, some, List, [], ◌∷◌, ◌++◌, All, arith, Text,
  codes, text_eq, text_eq_iff, text_eq_refl, ==-refl, if◌then◌else◌, any, map, ◌==◌, Bool-cases,
  inl, inr,
}
use mathlib.Core.Path.{subst}
use skybeam_mail.Events.Types.{EventType, deleted}
use skybeam_mail.Events.Writer.Calm.{HasDrawn}
use skybeam_mail.Store.World.{Env, World, IsCalm, settle}
use skybeam_mail.Store.World.Calm.{query-some, exec-some}
use skybeam_mail.Watcher.Mail.{Message, headers}
use skybeam_mail.Watcher.Scan.Calm.{IsReady, IsTracked}
use skybeam_mail.Watcher.Scan.Covers.{fresh, IsDelivery}
use skybeam_mail.Watcher.Scan.Delivers.{scan_delivers}
use skybeam_mail.Watcher.Scan.Flags.{among-IsTracked}
use skybeam_mail.Auth.{Account}
use skybeam_mail.Api.Response.{no_content}
use skybeam_mail.Api.Messages.Failures.{event-messages}
use skybeam_mail.Store.Rows.{Store, MessageRow, EventRow}
use skybeam_mail.Store.Table.{select, find, update}
use skybeam_mail.Watcher.Scan.{Server, inbox_name, known_uids, scan}
use skybeam_mail.Watcher.Scan.Keys.{same_key, IsUnique}
use skybeam_mail.Api.Messages.{
  is_own, has_id, trash, trash_conflict, move_to_trash, apply_delete, with_current, handle_delete,
}

abbrev in_inbox_of : ℕ → MessageRow → Bool
in_inbox_of account s = s.account_id == account && text_eq s.folder inbox_name

abbrev moved : MessageRow → MessageRow
moved s = record s { folder = trash }

trash_not_inbox : text_eq trash inbox_name ≡ false
unfolding text_eq
trash_not_inbox = refl

text_eq-sym : (s t : Text) → text_eq s t ≡ false → text_eq t s ≡ false
text_eq-sym s t e = elim (Bool-cases (text_eq t s)) [
  | inl same ↦
      let bad : true ≡ false = sym ((text_eq_iff s t).1 (sym ((text_eq_iff t s).0 same))) ∙ e in cc
  | inr other ↦ other
]

-- A row that is moved is not listed, and one that is not stays as it is.
listed_moved :
    (id account : ℕ) (s : MessageRow) (rest : List MessageRow)
    → (uid : Text)
    → (has_id id s ≡ false → in_inbox_of account s ≡ true → text_eq uid s.dovecot_uid ≡ false)
    → any (text_eq uid) (map (λ r. r.dovecot_uid) (select (in_inbox_of account) rest)) ≡ false
    → any (text_eq uid) (
        map
          (λ r. r.dovecot_uid)
          (select (in_inbox_of account) ((if has_id id s then moved s else s) ∷ rest)))
      ≡ false
unfolding select
listed_moved id account s rest uid h k = elim (Bool-cases (has_id id s)) [
  | inl hit ↦ rw (hit, trash_not_inbox) (ground arith)
  | inr miss ↦ rw miss (elim (Bool-cases (in_inbox_of account s)) [
    | inl there ↦ rw (there, h miss there) k
    | inr away ↦ rw away k
  ])
]

in_inbox_of-parts :
    (account : ℕ) (s : MessageRow)
    → in_inbox_of account s ≡ true
    → (s.account_id ≡ account) × (s.folder ≡ inbox_name)
in_inbox_of-parts account s e = (ground arith, (text_eq_iff s.folder inbox_name).0 (ground arith))

same_key-apart :
    (x s : MessageRow)
    → same_key x s ≡ false
    → x.account_id ≡ s.account_id
    → x.folder ≡ s.folder
    → text_eq x.dovecot_uid s.dovecot_uid ≡ false
same_key-apart x s e a f = elim (Bool-cases (text_eq x.dovecot_uid s.dovecot_uid)) [
  | inl same ↦
      let met : same_key x s ≡ true =
        rw (a, ==-refl s.account_id, same, f, text_eq_refl s.folder) refl in
      let bad : true ≡ false = sym met ∙ e in cc
  | inr other ↦ other
]

-- What no row has, a row that is found has not.
find-none :
    (p q : MessageRow → Bool) (rows : List MessageRow) (r : MessageRow)
    → any q rows ≡ false
    → find p rows ≡ some r
    → (p r ≡ true) × (q r ≡ false)
unfolding find
find-none p q [] r e h = cc
find-none p q (s ∷ rows) r e h = elim (Bool-cases (p s)) [
  | inl hit ↦
      let same : some s ≡ some r = rw hit at h in
      let eq_row : s ≡ r = cc in (rw (← eq_row) hit, rw (← eq_row) (ground arith))
  | inr miss ↦ find-none p q rows r (ground arith) (rw miss at h)
]

-- A row with the key (account, uid, INBOX) shares it with none of these.
other_uids :
    (id account : ℕ) (x : MessageRow) (rows : List MessageRow)
    → x.account_id ≡ account
    → x.folder ≡ inbox_name
    → any (same_key x) rows ≡ false
    → any
        (text_eq x.dovecot_uid)
        (map (λ r. r.dovecot_uid) (select (in_inbox_of account) (update (has_id id) moved rows)))
      ≡ false
unfolding update
other_uids id account x [] a f e = unfold select in refl
other_uids id account x (s ∷ rows) a f e =
    listed_moved id account s (update (has_id id) moved rows) x.dovecot_uid
      (λ miss there.
        let (b, g) = in_inbox_of-parts account s there in
        same_key-apart x s (ground arith) (a ∙ sym b) (f ∙ sym g))
      (other_uids id account x rows a f (ground arith))

-- After the move the uid of an INBOX row is not listed: the key of message_view is unique.
moved_unknown :
    (id account : ℕ) (r : MessageRow) (rows : List MessageRow)
    → IsUnique rows
    → find (is_own id account) rows ≡ some r
    → r.folder ≡ inbox_name
    → any
        (text_eq r.dovecot_uid)
        (map (λ s. s.dovecot_uid) (select (in_inbox_of account) (update (has_id id) moved rows)))
      ≡ false
unfolding find update
moved_unknown id account r [] u e f = cc
moved_unknown id account r (x ∷ rows) (d, u) e f = elim (Bool-cases (is_own id account x)) [
  | inl own ↦
      let same : some x ≡ some r = rw own at e in
      let eq_row : x ≡ r = cc in
      let own_id : has_id id x ≡ true = ground arith in
      let a : x.account_id ≡ account = ground arith in
      subst
        (λ t.
          any (text_eq t.dovecot_uid) (
            map (λ s. s.dovecot_uid)
              (select (in_inbox_of account)
                ((if has_id id x then moved x else x) ∷ update (has_id id) moved rows)))
          ≡ false)
        eq_row
        (listed_moved id account x (update (has_id id) moved rows) x.dovecot_uid
          (λ miss there. let bad : true ≡ false = sym own_id ∙ miss in cc)
          (other_uids id account x rows a (ap (λ t. t.folder) eq_row ∙ f) d))
  | inr other ↦
      let later : find (is_own id account) rows ≡ some r = rw other at e in
      let (own, apart) = find-none (is_own id account) (same_key x) rows r d later in
      listed_moved id account x (update (has_id id) moved rows) r.dovecot_uid
        (λ miss there.
          let (b, g) = in_inbox_of-parts account x there in
          let c : r.account_id ≡ account = ground arith in
          text_eq-sym x.dovecot_uid r.dovecot_uid
            (same_key-apart x r apart (b ∙ sym c) (g ∙ sym f)))
        (moved_unknown id account r rows u later f)
]

any-mapped {ℓ κ} :
    {A : Type ℓ} {B : Type κ} (f : A → B) (p : B → Bool) (xs : List A)
    → any (λ x. p (f x)) xs ≡ any p (map f xs)
any-mapped f p [] = refl
any-mapped f p (x ∷ xs) = rw (any-mapped f p xs) refl

-- A uid that is fetched and not known is that of a new message.
fresh_uid :
    (uid : Text) (known : List Text) (ms : List Message)
    → any (text_eq uid) known ≡ false
    → any (λ m. text_eq (headers m).uid uid) ms ≡ true
    → any (λ t. text_eq t uid) (map (λ m. (headers m).uid) (fresh known ms)) ≡ true
unfolding select
fresh_uid uid known [] unknown e = cc
fresh_uid uid known (m ∷ ms) unknown e = elim (Bool-cases (text_eq (headers m).uid uid)) [
  | inl same ↦
      let is = (text_eq_iff (headers m).uid uid).0 same in
      let new : any (text_eq (headers m).uid) known ≡ false = rw is unknown in rw (new, same) refl
  | inr other ↦
      let rest = fresh_uid uid known ms unknown (rw other at e) in
      elim (Bool-cases (any (text_eq (headers m).uid) known)) [
        | inl old ↦ rw old rest
        | inr new ↦ rw (new, other) rest
      ]
]

module _ (env : Env) (calm : IsCalm env) (acc : Account) (id : ℕ) (permanent : Text)
    (w : World) where
  -- The messages after a Delete that moves.
  handle_delete-moved :
      (r : MessageRow)
      → text_eq permanent (codes "true") ≡ false
      → find (is_own id acc.id) w.db.messages ≡ some r
      → trash_conflict id w.db.messages ≡ false
      → ((handle_delete env acc (some id) permanent w).0 ≡ no_content)
        × ((handle_delete env acc (some id) permanent w).1.db.messages
            ≡ update (has_id id) moved w.db.messages)
  unfolding handle_delete with_current apply_delete move_to_trash
  handle_delete-moved r soft found free =
      let db' : Store = record w.db { messages = update (has_id id) moved w.db.messages } in
      let looked = query-some env calm [] (λ db. find (is_own id acc.id) db.messages) w refl in
      let made = exec-some env calm (move_to_trash id) (settle w.db w) db' (rw free refl) in
      rw (looked, found, soft, made)
        (
          refl,
          event-messages env acc.id EventType.message_deleted r.dovecot_uid r.folder
              (deleted r.folder false) (settle db' (settle w.db w)),
        )

  -- Where every call is answered, a message of INBOX that Delete has moved to Trash, and that Dovecot
  -- still shows in INBOX, is a new message to the next scan, which inserts it into INBOX again and
  -- announces it again: where every message there can be read and is taken by PostgreSQL, the key of
  -- message_view is unique, no row of the message stands in Trash already, and the event ids that are
  -- stored have been drawn, the Delete answers 204, the events that the scan adds are MessageDelivered
  -- events in INBOX, one of them for the uid of the message, and the row is there.
  pub handle_delete-returns :
      (server : Server) (fuel : ℕ) (ms : List Message) (r : MessageRow)
      → text_eq permanent (codes "true") ≡ false
      → IsUnique w.db.messages
      → find (is_own id acc.id) w.db.messages ≡ some r
      → r.folder ≡ inbox_name
      → trash_conflict id w.db.messages ≡ false
      → server.inbox ≡ some ms
      → any (λ m. text_eq (headers m).uid r.dovecot_uid) ms ≡ true
      → All (IsReady env server fuel acc.id) ms
      → HasDrawn (handle_delete env acc (some id) permanent w).1.db
      → let v = (handle_delete env acc (some id) permanent w).1 in
        let out = (scan env server fuel acc.id v).1.db in
        (more : List EventRow) × ((handle_delete env acc (some id) permanent w).0 ≡ no_content)
        × (out.events ≡ v.db.events ++ more)
        × All (IsDelivery acc.id) more
        × (any (λ e. text_eq e.message_uid r.dovecot_uid) more ≡ true)
        × IsTracked acc.id r.dovecot_uid out
  unfolding known_uids
  handle_delete-returns server fuel ms r soft u found f free shown there ready drawn =
      let v = (handle_delete env acc (some id) permanent w).1 in
      let (answer, rows) = handle_delete-moved r soft found free in
      let (_, finished, _) = scan_delivers env calm server fuel acc.id ms v shown ready drawn in
      let unknown : any (text_eq r.dovecot_uid) (known_uids acc.id v.db) ≡ false =
        rw rows (moved_unknown id acc.id r w.db.messages u found f) in
      let uids = map (λ e. e.message_uid) finished.more in
      (
        finished.more,
        answer,
        finished.events,
        finished.deliveries,
        any-mapped (λ (e : EventRow). e.message_uid) (λ t. text_eq t r.dovecot_uid) finished.more
            ∙ ap (any (λ t. text_eq t r.dovecot_uid)) finished.uids
            ∙ fresh_uid r.dovecot_uid (known_uids acc.id v.db) ms unknown there,
        among-IsTracked acc.id r.dovecot_uid ms (scan env server fuel acc.id v).1.db there
            finished.tracked,
      )
