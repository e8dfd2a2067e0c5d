-- ===== src/System/Tests.antt =====
-- The programs on a small database.
use skybeam_mail.Prelude.{
  Text, ◌≡◌, refl, true, false, some, List, [], ◌∷◌, all, codes, ltb, if◌then◌else◌,
}
use skybeam_mail.Prelude.Int.{pos}
use skybeam_mail.Store.Rows.{Store}
use skybeam_mail.Store.Samples.{calm_env, small_store, small_world}
use skybeam_mail.Store.Table.{upsert}
use skybeam_mail.Store.World.{exec, World}
use skybeam_mail.Auth.{
  logout, delete_session, unauthorized, Account, hex, hash_token, expiry, login, verify_token,
  verified, expired, upsert_admin,
}
use skybeam_mail.Auth.Admins.{new_admin}
use skybeam_mail.Auth.Samples.{plain_crypto, ann, one_second, login-ann}
use skybeam_mail.Api.Router.{nth, routes, Matched, serve}
use skybeam_mail.Api.Router.Samples.{outside, incoming, bearer}
use skybeam_mail.Api.Router.Isolated.{Contained}
use skybeam_mail.Reconciler.Run.{Choice}
use skybeam_mail.System.{
  staying, gone, is_login, Statement, executed, empty_store, IsReachable, Action, action_leaves,
  route_leaves, endpoint_leaves, is_logout, act_all,
}
use skybeam_mail.System.Retains.{Retains, act_all-Retains}
use skybeam_mail.System.Runs.{history-Contained}
use skybeam_mail.System.Sessions.Ends.{session_ends}
use skybeam_mail.System.Sessions.Lasts.{session_lasts}

-- A request that marks message 11 as deleted, a reload of the accounts and a step of the first task.
abbrev actions : List Action
actions =
    Action.request outside (pos 30) incoming (Matched.at 12) bearer
    ∷ Action.reconciled calm_env
        (Choice.tick (λ n. record { dial_fails = false; login_fails = false; list_fails = false })
          ∷ Choice.go 0
          ∷ [])
        []
    ∷ []

abbrev admin_store : Store
admin_store = record empty_store {
  accounts = new_admin 1 (codes "ann") (codes "pw") ∷ [];
  next_id = 2;
}

admin_upserted :
    executed calm_env (Statement.admin_upserted (codes "ann") (codes "pw")) 0 empty_store
    ≡ some admin_store
unfolding executed upsert_admin upsert
admin_upserted = refl

admin_store-IsReachable : IsReachable admin_store
admin_store-IsReachable =
    IsReachable.execute calm_env (Statement.admin_upserted (codes "ann") (codes "pw")) 0 empty_store
      admin_store IsReachable.start admin_upserted

abbrev admin_world : World
admin_world = record { db = admin_store; calls = 1 }

act_all-Retains_example : Retains small_store (act_all actions small_world).db
act_all-Retains_example = act_all-Retains actions small_world

history-Contained_example :
    let w = act_all actions (record { db = empty_store; calls = 0 }) in
    Contained outside
      (pos 30)
      incoming
      bearer
      (λ n. refl)
      w
      (serve outside (pos 30) incoming (Matched.at 12) bearer w).1
history-Contained_example =
    history-Contained actions 0 outside (pos 30) incoming (Matched.at 12) bearer (λ n. refl)

actions_leave :
    all (action_leaves (staying (hash_token plain_crypto (hex (0xab ∷ []))))) actions ≡ true
unfolding action_leaves route_leaves endpoint_leaves is_logout is_login nth routes
actions_leave = refl

session_lasts_example :
    let v = (login calm_env plain_crypto one_second (codes "ann") (codes "pw") small_world).1 in
    let u = act_all actions v in
    (a : Account) × (a.id ≡ ann.id)
    × (a.email ≡ ann.email)
    × ((verify_token calm_env plain_crypto (hex (0xab ∷ [])) u).0
        ≡ (if ltb (expiry 1 one_second) u.calls then expired else verified a))
session_lasts_example =
    session_lasts calm_env plain_crypto (hex (0xab ∷ [])) one_second (codes "ann") (codes "pw") ann
      small_world actions calm_env (refl, tt) login-ann actions_leave (λ n. refl) refl

abbrev ann_token : Text
ann_token = hex (0xab ∷ [])

-- Ann has logged in.
abbrev entered : World
entered = (login calm_env plain_crypto one_second (codes "ann") (codes "pw") small_world).1

logout-ann : (logout calm_env plain_crypto ann_token entered).0 ≡ false
unfolding logout delete_session exec
logout-ann = refl

no_login : all (action_leaves (gone (hash_token plain_crypto ann_token))) actions ≡ true
unfolding action_leaves route_leaves endpoint_leaves is_logout is_login nth routes
no_login = refl

session_ends_example :
    let v = (logout calm_env plain_crypto ann_token entered).1 in
    (verify_token calm_env plain_crypto ann_token (act_all actions v)).0 ≡ unauthorized
session_ends_example =
    session_ends calm_env plain_crypto ann_token entered actions calm_env logout-ann no_login
      (λ n. refl) refl
