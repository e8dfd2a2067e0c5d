-- ===== src/System/Sessions/Ends.antt =====
-- internal/auth/service.go: what a logout ends, while the programs go on.
use skybeam_mail.Prelude.{
  ℕ, ◌≡◌, refl, ap, ◌∙◌, true, false, Option, none, some, List, [], ◌∷◌, any, all, arith, Text,
  text_eq,
}
use skybeam_mail.Store.Rows.{Store, SessionRow}
use skybeam_mail.Store.Table.{find, delete}
use skybeam_mail.Store.Table.Laws.{any-update, any-append, any-delete}
use skybeam_mail.Store.World.{Env, World, IsCalm}
use skybeam_mail.Store.World.Answers.{exec-ok}
use skybeam_mail.Auth.{
  Crypto, hash_token, insert_session, delete_session, touch_session, upsert_admin, logout,
  account_of_session, session_account, unauthorized, verify_token,
}
use skybeam_mail.Auth.Sessions.{answer, verify_token-answer}
use skybeam_mail.Api.Admin.{insert_account, insert_domain, delete_domain}
use skybeam_mail.Api.Folders.{insert_folder, delete_folder}
use skybeam_mail.Api.Messages.{set_read, set_starred, set_deleted, move_to_trash}
use skybeam_mail.Events.Writer.{insert_event}
use skybeam_mail.Watcher.Scan.{upsert_known, upsert_new}
use skybeam_mail.Reconciler.{refresh_counts}
use skybeam_mail.System.{
  Statement, executed, gone, may_insert, statement_leaves, Action, action_leaves, act_all,
}
use skybeam_mail.System.Keeps.{IsInvariant}
use skybeam_mail.System.Keeps.Programs.{act_all-Kept}

-- No session has this hash.
abbrev IsGone : Text → Store → Type 0
IsGone hash db = any (λ s. text_eq s.token_hash hash) db.sessions ≡ false

none_after_delete :
    (hash other : Text) (rows : List SessionRow)
    → any (λ s. text_eq s.token_hash hash) rows ≡ false
    → any (λ s. text_eq s.token_hash hash) (delete (λ s. text_eq s.token_hash other) rows) ≡ false
unfolding delete
none_after_delete hash other [] h = refl
none_after_delete hash other (s ∷ rows) h = ground (arith, none_after_delete hash other rows)

module _ (hash : Text) (env : Env) (now : ℕ) (db db' : Store) (h : IsGone hash db) where
  inserted-IsGone :
      (account : ℕ) (new : Text) (until : ℕ)
      → may_insert (gone hash) new ≡ true
      → insert_session account new until now db ≡ some db'
      → IsGone hash db'
  unfolding insert_session may_insert
  inserted-IsGone account new until p e =
      let row : SessionRow = record {
        account_id = account;
        token_hash = new;
        expires_at = until;
        last_seen = none;
      } in
      ground (arith, any-append (λ s. text_eq s.token_hash hash) db.sessions (row ∷ []))

  executed-IsGone :
      (s : Statement)
      → statement_leaves (gone hash) s ≡ true
      → executed env s now db ≡ some db'
      → IsGone hash db'
  unfolding executed statement_leaves delete_session touch_session upsert_admin insert_account
      insert_domain delete_domain insert_folder delete_folder set_read set_starred set_deleted
      move_to_trash insert_event upsert_known upsert_new refresh_counts
  executed-IsGone (Statement.session_inserted account new until) p e =
      inserted-IsGone account new until p e
  executed-IsGone (Statement.session_deleted other) p e =
      ground (arith, none_after_delete hash other db.sessions h)
  executed-IsGone (Statement.session_touched other seen) p e = ground (
    arith,
    any-update (λ s. text_eq s.token_hash other) (λ s. text_eq s.token_hash hash)
        (λ s. record s { last_seen = some seen }) db.sessions (λ s. refl),
  )
  executed-IsGone (Statement.admin_upserted address new) p e = ground arith
  executed-IsGone (Statement.account_inserted b new) p e = ground arith
  executed-IsGone (Statement.domain_inserted name) p e = ground arith
  executed-IsGone (Statement.domain_deleted none) p e = cc
  executed-IsGone (Statement.domain_deleted (some id)) p e = ground arith
  executed-IsGone (Statement.folder_inserted account name) p e = ground arith
  executed-IsGone (Statement.folder_removed account name) p e = ground arith
  executed-IsGone (Statement.read_set b id) p e = ground arith
  executed-IsGone (Statement.starred_set b id) p e = ground arith
  executed-IsGone (Statement.deleted_set id) p e = ground arith
  executed-IsGone (Statement.moved_to_trash id) p e = ground arith
  executed-IsGone (Statement.event_inserted ev drawn) p e = ground arith
  executed-IsGone (Statement.known_upserted account m size) p e = ground arith
  executed-IsGone (Statement.new_upserted account m size b) p e = ground arith
  executed-IsGone (Statement.counts_refreshed account) p e = ground arith

IsGone-IsInvariant : (hash : Text) (env : Env) → IsInvariant env (gone hash) (IsGone hash)
IsGone-IsInvariant hash env = record {
  under = λ s leaves now db db' h e. executed-IsGone hash env now db db' h s leaves e;
}

none_found :
    (hash : Text) (rows : List SessionRow)
    → any (λ s. text_eq s.token_hash hash) rows ≡ false
    → find (λ s. text_eq s.token_hash hash) rows ≡ none
unfolding find
none_found hash [] h = refl
none_found hash (s ∷ rows) h = ground (arith, none_found hash rows)

-- After a logout that returned no error its token is refused, whatever the programs do meanwhile and
-- whatever becomes of their calls, as long as no login draws a token with the same hash: where
-- PostgreSQL takes the hash and the calls of the check are answered, VerifyToken gives
-- ErrUnauthorized.
pub session_ends :
    (env : Env) (c : Crypto) (token : Text) (w : World) (actions : List Action) (later : Env)
    → (logout env c token w).0 ≡ false
    → all (action_leaves (gone (hash_token c token))) actions ≡ true
    → IsCalm later
    → later.text_ok (hash_token c token) ≡ true
    → (verify_token later c token (act_all actions (logout env c token w).1)).0 ≡ unauthorized
unfolding logout delete_session session_account account_of_session answer
session_ends env c token w actions later done leaves calm takes =
    let hash = hash_token c token in
    let v = (logout env c token w).1 in
    let u = act_all actions v in
    let made = exec-ok env (delete_session hash) w done in
    let ended : IsGone hash v.db =
      ground (arith, any-delete (λ s. text_eq s.token_hash hash) w.db.sessions) in
    let still =
      act_all-Kept (IsGone hash) (gone hash) (IsGone-IsInvariant hash) actions v leaves ended in
    verify_token-answer later calm c token takes u
    ∙ ap
        (λ (s : Option SessionRow).
          answer (later.tick u.calls).now (account_of_session u.db.accounts s))
        (none_found hash u.db.sessions still)
