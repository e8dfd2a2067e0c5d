-- ===== src/System/Sessions/Lasts.antt =====
-- internal/auth/service.go: a session from its login on, while the programs go on.
use skybeam_mail.Prelude.{
  ℕ, ◌+◌, ◌≡◌, refl, sym, ap, ◌∙◌, true, ◌&&◌, none, some, List, all, arith, ◌==◌, ==_iff, ltb,
  if◌then◌else◌, Text, text_eq, Option-cases, inl, inr,
}
use mathlib.Core.Path.{subst}
use skybeam_mail.Prelude.Int.{ℤ}
use skybeam_mail.Store.Rows.{Store, AccountRow}
use skybeam_mail.Store.Table.{find}
use skybeam_mail.Store.Table.Laws.{find-some}
use skybeam_mail.Store.World.{Env, World, IsCalm}
use skybeam_mail.Auth.{
  Account, account_of, Crypto, hash_token, expiry, logged_in, login, account_of_session,
  session_account, verified, expired, verify_token,
}
use skybeam_mail.Auth.Login.{login-IsLogin}
use skybeam_mail.Auth.Sessions.{HasIds, answer, verify_token-answer, session_after}
use skybeam_mail.System.{staying, Action, action_leaves, act_all}
use skybeam_mail.System.Keeps.Programs.{act_all-Kept}
use skybeam_mail.System.Sessions.{IsLive, IsLive-IsInvariant}

module _ (hash : Text) (db : Store) where
  -- The query of VerifyToken finds a session exactly where it is live.
  session_account-IsLive :
      (r : AccountRow) (expires : ℕ)
      → session_account hash db ≡ some (r, expires)
      → IsLive hash r.id r.email expires db
  unfolding session_account account_of_session
  session_account-IsLive r expires e =
      elim (Option-cases (find (λ s. text_eq s.token_hash hash) db.sessions)) [
        | inl missing ↦ let bad : none ≡ some (r, expires) = rw missing at e in cc
        | inr (s, stored) ↦
            elim (Option-cases (find (λ a. a.id == s.account_id && a.is_active) db.accounts)) [
              | inl inactive ↦
                  let bad : none ≡ some (r, expires) =
                    rw (stored, inactive, account_of_session) at e in
                  cc
              | inr (a, active) ↦
                  let same : some (a, s.expires_at) ≡ some (r, expires) =
                    rw (stored, active, account_of_session) at e in
                  let row : a ≡ r = ground arith in
                  let picked =
                    find-some (λ a. a.id == s.account_id && a.is_active) db.accounts a active in
                  let id : a.id ≡ s.account_id = (==_iff a.id s.account_id).0 (ground arith) in
                  let owned : s.account_id ≡ r.id = sym id ∙ ap (λ (a : AccountRow). a.id) row in
                  record {
                    session = s;
                    stored = stored;
                    until = ground arith;
                    owned = owned;
                    account = a;
                    active =
                        subst (λ n. find (λ b. b.id == n && b.is_active) db.accounts ≡ some a) owned
                          active;
                    same_id = ap (λ (b : AccountRow). b.id) row;
                    mailbox = ap (λ (b : AccountRow). b.email) row;
                  }
            ]
      ]

  live-session_account :
      (id : ℕ) (email : Text) (expires : ℕ) (l : IsLive hash id email expires db)
      → session_account hash db ≡ some (l.account, expires)
  unfolding session_account account_of_session
  live-session_account id email expires l =
      rw (l.stored, account_of_session, l.owned, l.active, l.until) refl

module _ (env : Env) (c : Crypto) (token : Text) (ttl : ℤ) (email password : Text)
    (acc : Account) where
  -- What a login leaves is a live session.
  login-IsLive :
      (w : World)
      → HasIds w.db.accounts
      → (login env c ttl email password w).0 ≡ logged_in token acc
      → IsLive
          (hash_token c token)
          acc.id
          acc.email
          (expiry (env.tick (w.calls + 1)).now ttl)
          (login env c ttl email password w).1.db
  unfolding account_of
  login-IsLive w ids e =
      let expires = expiry (env.tick (w.calls + 1)).now ttl in
      let v = (login env c ttl email password w).1 in
      let h = login-IsLogin env c ttl email password token acc w e in
      let (r, found, same) = session_after c token ttl email password acc _ w.db v.db ids h in
      rw same (session_account-IsLive (hash_token c token) v.db r expires found)

  -- After a login that succeeded the session lives on, whatever the programs do meanwhile and whatever
  -- becomes of their calls, as long as no request is a logout with a token of this hash: where
  -- accounts.id is a key, PostgreSQL takes the token's hash and the calls of the check are answered,
  -- VerifyToken gives the account with the id and the email of the login, or ErrSessionExpired once
  -- the clock has passed the time of the login plus the lifetime, in whole microseconds.
  pub session_lasts :
      (w : World) (actions : List Action) (later : Env)
      → HasIds w.db.accounts
      → (login env c ttl email password w).0 ≡ logged_in token acc
      → all (action_leaves (staying (hash_token c token))) actions ≡ true
      → IsCalm later
      → later.text_ok (hash_token c token) ≡ true
      → let u = act_all actions (login env c ttl email password w).1 in
        (a : Account) × (a.id ≡ acc.id)
        × (a.email ≡ acc.email)
        × ((verify_token later c token u).0 ≡ (
            if ltb (expiry (env.tick (w.calls + 1)).now ttl) (later.tick u.calls).now
            then expired
            else verified a))
  unfolding account_of answer
  session_lasts w actions later ids e leaves calm takes =
      let hash = hash_token c token in
      let expires = expiry (env.tick (w.calls + 1)).now ttl in
      let v = (login env c ttl email password w).1 in
      let u = act_all actions v in
      let l =
        act_all-Kept (IsLive hash acc.id acc.email expires) (staying hash)
          (IsLive-IsInvariant hash acc.id acc.email expires) actions v leaves
          (login-IsLive w ids e) in
      (
        account_of l.account,
        l.same_id,
        l.mailbox,
        verify_token-answer later calm c token takes u
            ∙ ap (answer (later.tick u.calls).now)
                (live-session_account hash u.db acc.id acc.email expires l),
      )
