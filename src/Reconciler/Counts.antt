-- ===== src/Reconciler/Counts.antt =====
-- internal/reconciler/service.go, refreshFolderCounts: folder_view after a refresh.
use skybeam_mail.Prelude.{
  ℕ, ◌+◌, length, ◌≡◌, refl, ◌∙◌, Bool, true, false, ◌&&◌, ◌==◌, not, arith, List, [], ◌∷◌, any,
  All, Text, text_eq, Bool-cases, inl, inr,
}
use skybeam_mail.Events.Types.{EventType, reconciled}
use skybeam_mail.Events.Writer.{emit_with}
use skybeam_mail.Events.Writer.Log.{Keeps-emit_with, insert_event-folders}
use skybeam_mail.Store.World.{Env, World, IsCalm, settle}
use skybeam_mail.Store.World.Calm.{exec-some}
use skybeam_mail.Store.Rows.{Store, FolderRow, MessageRow}
use skybeam_mail.Store.Table.{select, count}
use skybeam_mail.Reconciler.{
  is_live, groups, total_in, unread_in, has_key, upsert_groups, refresh_counts, Reconciled,
  Connection, finish, reconcile_account,
}
use skybeam_mail.Reconciler.Groups.{
  Exact, upsert_groups-Exact_named, upsert_groups-has_key_named, upsert_groups-other, any-groups,
}

-- The account has a message in the folder that is not marked as deleted.
abbrev pub holds : ℕ → Text → Store → Bool
holds account name db = any (λ r. text_eq name r.folder) (select (is_live account) db.messages)

-- A message of the account in the folder that is not marked as deleted.
abbrev pub is_shown : ℕ → Text → MessageRow → Bool
is_shown account name m = (m.account_id == account && not m.is_deleted) && text_eq m.folder name

-- The counts of a row are those of the messages: of all, and of those that have not been read.
abbrev pub IsCounted : ℕ → Text → Store → FolderRow → Type 0
IsCounted account name db r =
    (r.total_count ≡ length (select (is_shown account name) db.messages))
    × (r.unread_count ≡ length (select (λ m. is_shown account name m && not m.is_read) db.messages))

count-select :
    (p q s : MessageRow → Bool) (rows : List MessageRow)
    → ((m : MessageRow) → s m ≡ (p m && q m))
    → count q (select p rows) ≡ length (select s rows)
unfolding count select
count-select p q s [] h = refl
count-select p q s (m ∷ rows) h = ground (arith, h m, count-select p q s rows h)

-- The folder has a row, and the right counts.
abbrev pub Counted : ℕ → Text → Store → Store → Type 0
Counted account name before db =
    (any (has_key account name) db.folders ≡ true)
    × All (IsCounted account name before) (select (has_key account name) db.folders)

pub Exact-selected :
    (account now : ℕ) (db : Store) (name : Text) (rows : List FolderRow)
    → All (Exact account now (select (is_live account) db.messages) name) rows
    → All (IsCounted account name db) (select (has_key account name) rows)
unfolding select total_in unread_in
Exact-selected account now db name [] h = tt
Exact-selected account now db name (r ∷ rows) (p, h) = elim (Bool-cases (has_key account name r)) [
  | inl hit ↦
      let (total, unread) = p hit in
      let all_of =
        count-select (is_live account) (λ m. text_eq m.folder name) (is_shown account name)
          db.messages (λ m. refl) in
      let unread_of =
        count-select (is_live account) (λ m. text_eq m.folder name && not m.is_read)
          (λ m. is_shown account name m && not m.is_read) db.messages (λ m. ground arith) in
      rw hit ((total ∙ all_of, unread ∙ unread_of), Exact-selected account now db name rows h)
  | inr miss ↦ rw miss (Exact-selected account now db name rows h)
]

pub event-folders :
    (env : Env) (account : ℕ) (w : World)
    → (emit_with env account EventType.reconcile_complete [] [] (reconciled 0 0 0) w).1.db.folders
      ≡ w.db.folders
event-folders env account w =
    (Keeps-emit_with (λ db. db.folders ≡ w.db.folders) env
        (λ e _ now db db' p q. (insert_event-folders env e now db db' q).0 ∙ p) account
        EventType.reconcile_complete [] [] (reconciled 0 0 0)).at
      w refl

module _ (env : Env) (account : ℕ) (c : Connection) (w : World) where
  reconcile_account-folders :
      IsCalm env
      → (reconcile_account env account c w).0 ≡ Reconciled.reconciled_account
      → let live = select (is_live account) w.db.messages in
        (reconcile_account env account c w).1.db.folders
        ≡ upsert_groups account (env.tick w.calls).now live (groups live) w.db.folders
  unfolding reconcile_account finish refresh_counts
  reconcile_account-folders calm e =
      let live = select (is_live account) w.db.messages in
      let db' : Store = record w.db {
        folders = upsert_groups account (env.tick w.calls).now live (groups live) w.db.folders;
        next_id = w.db.next_id + length (groups live);
      } in
      let made = exec-some env calm (refresh_counts account) w db' refl in
      elim (Bool-cases c.dial_fails) [
        | inl bad ↦
            let wrong : Reconciled.connect_failed ≡ Reconciled.reconciled_account = rw bad at e in
            cc
        | inr dialled ↦ elim (Bool-cases c.login_fails) [
          | inl bad ↦
              let wrong : Reconciled.login_failed ≡ Reconciled.reconciled_account =
                rw (dialled, bad) at e in
              cc
          | inr entered ↦ elim (Bool-cases c.list_fails) [
            | inl bad ↦
                let wrong : Reconciled.list_failed ≡ Reconciled.reconciled_account =
                  rw (dialled, entered, bad) at e in
                cc
            | inr listed ↦
                rw (dialled, entered, listed, made) (event-folders env account (settle db' w))
          ]
        ]
      ]

  -- Where every call is answered, a reconciliation that ends without an error leaves folder_view with a
  -- row, and with the numbers of messages and of unread messages, for every folder in which the account
  -- has a message that is not marked as deleted.
  pub reconcile_account-Counted :
      (name : Text)
      → IsCalm env
      → (reconcile_account env account c w).0 ≡ Reconciled.reconciled_account
      → holds account name w.db ≡ true
      → Counted account name w.db (reconcile_account env account c w).1.db
  reconcile_account-Counted name calm e h =
      let live = select (is_live account) w.db.messages in
      let now = (env.tick w.calls).now in
      let named = any-groups name live ∙ h in
      rw (reconcile_account-folders calm e) (
        upsert_groups-has_key_named account now live name (groups live) w.db.folders named,
        Exact-selected account now w.db name _
            (upsert_groups-Exact_named account now live name (groups live) w.db.folders named),
      )

  -- Where every call is answered, a reconciliation that ends without an error leaves the row
  -- of a folder in which the account has no message, or only messages marked as deleted, as it was,
  -- with the numbers that it had.
  pub reconcile_account-stale :
      (name : Text)
      → IsCalm env
      → (reconcile_account env account c w).0 ≡ Reconciled.reconciled_account
      → holds account name w.db ≡ false
      → select (has_key account name) (reconcile_account env account c w).1.db.folders
        ≡ select (has_key account name) w.db.folders
  reconcile_account-stale name calm e h =
      let live = select (is_live account) w.db.messages in
      rw (reconcile_account-folders calm e) (
        upsert_groups-other account (env.tick w.calls).now live name (groups live) w.db.folders
          (any-groups name live ∙ h))
