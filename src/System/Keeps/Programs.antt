-- ===== src/System/Keeps/Programs.antt =====
-- The watcher, the reconciler and the start of the API: what every statement keeps, they keep.
use skybeam_mail.Prelude.{
  ℕ, all, none, refl, true, Text, Option, zero, suc, ◌≡◌, some, List, [], ◌∷◌, arith,
}
use skybeam_mail.Events.Types.{EventType, reconciled}
use skybeam_mail.Store.Rows.{Store}
use skybeam_mail.Store.World.{Env, World}
use skybeam_mail.Auth.{Crypto, generate_token}
use skybeam_mail.Watcher.Scan.Steps.{Survives, scan-Keeps}
use skybeam_mail.Reconciler.Run.{
  Phase, advance_phase, Task, advance, advance_nth, active_accounts, run_all, Choice, take_step,
  interleave,
}
use skybeam_mail.Config.{Config, Loaded, load}
use skybeam_mail.Cmd.{PoolAnswers, Opened, new_pool, Flags, set_up, with_pool, with_config, main}
use skybeam_mail.System.{
  Watched, nothing, Statement, executed, statement_leaves, may_delete, may_insert, login_leaves,
  logout_leaves, endpoint_leaves, route_leaves, Action, action_leaves, act, act_all,
}
use skybeam_mail.Api.Middleware.{split_space}
use skybeam_mail.Api.Router.{Route, routes, nth, Matched}
use skybeam_mail.System.Keeps.{IsInvariant, Kept, exec-Kept, query-Kept, emit_with-Kept}
use skybeam_mail.System.Keeps.Auth.{create_admin-Kept}
use skybeam_mail.System.Keeps.Requests.{serve-Preserved}

module _ (env : Env) (P : Store → Type 0) {watched : Watched} (i : IsInvariant env watched P) where
  -- internal/reconciler/service.go
  advance_phase-Kept : (account : ℕ) (p : Phase) → Kept env P (advance_phase env account p)
  unfolding advance_phase executed statement_leaves
  advance_phase-Kept account (Phase.connecting c) w h =
      ground (arith, exec-Kept env P i (Statement.counts_refreshed account) refl w h)
  advance_phase-Kept account Phase.counted w h =
      emit_with-Kept env P i account EventType.reconcile_complete [] [] (reconciled 0 0 0) w h
  advance_phase-Kept account (Phase.ended result) w h = h

  advance_nth-Kept : (n : ℕ) (tasks : List Task) → Kept env P (advance_nth env n tasks)
  unfolding advance_nth advance
  advance_nth-Kept n [] w h = h
  advance_nth-Kept zero (t ∷ tasks) w h = advance_phase-Kept t.account t.phase w h
  advance_nth-Kept (suc n) (t ∷ tasks) w h = advance_nth-Kept n tasks w h

  take_step-Kept : (choice : Choice) (tasks : List Task) → Kept env P (take_step env choice tasks)
  unfolding take_step run_all
  take_step-Kept (Choice.tick connections) tasks w h = query-Kept env P [] active_accounts w h
  take_step-Kept (Choice.go n) tasks w h = advance_nth-Kept n tasks w h

  interleave-Kept :
      (choices : List Choice) (tasks : List Task) → Kept env P (interleave env choices tasks)
  unfolding interleave
  interleave-Kept [] tasks w h = h
  interleave-Kept (choice ∷ choices) tasks w h =
      let (tasks', v) = take_step env choice tasks w in
      interleave-Kept choices tasks' v (take_step-Kept choice tasks w h)

  -- cmd/api/main.go
  with_pool-Kept :
      (c : Crypto) (flags : Flags) (cfg : Config) (pool : Opened)
      → Kept env P (with_pool env c flags cfg pool)
  unfolding with_pool set_up
  with_pool-Kept c flags cfg Opened.parse_failed w h = h
  with_pool-Kept c flags cfg Opened.create_failed w h = h
  with_pool-Kept c flags cfg Opened.ping_failed w h = h
  with_pool-Kept c flags cfg (Opened.opened limits) w h =
      ground (arith, create_admin-Kept env P i c flags.setup_admin flags.password w h)

  with_config-Kept :
      (c : Crypto) (flags : Flags) (answers : PoolAnswers) (l : Loaded)
      → Kept env P (with_config env c flags answers l)
  unfolding with_config
  with_config-Kept c flags answers (Loaded.exits missing) w h = h
  with_config-Kept c flags answers (Loaded.config cfg) w h =
      with_pool-Kept c flags cfg (new_pool answers) w h

  -- internal/watcher/service.go
  scan-Survives : (account : ℕ) → Survives env account P
  unfolding executed statement_leaves
  scan-Survives account = record {
    known = λ h size. i.under (Statement.known_upserted account h size) refl;
    new = λ h size b. i.under (Statement.new_upserted account h size b) refl;
    event = λ e drawn. i.under (Statement.event_inserted e drawn) refl;
  }

module _ (P : Store → Type 0) (watched : Watched)
    (i : (env : Env) → IsInvariant env watched P) where
  act-Kept :
      (action : Action) (w : World)
      → action_leaves watched action ≡ true
      → P w.db
      → P (act action w).db
  unfolding act main
  act-Kept (Action.request o days q m r) w l h =
      serve-Preserved o P (i o.env) r.method r.authorization days q m r.account l w h
  act-Kept (Action.scanned env server fuel account) w l h =
      (scan-Keeps env server fuel account P (scan-Survives env P (i env) account)).at w h
  act-Kept (Action.reconciled env choices tasks) w l h =
      interleave-Kept env P (i env) choices tasks w h
  act-Kept (Action.api_started env c flags sys wd own answers) w l h =
      with_config-Kept env P (i env) c flags answers (load sys wd own) w h

  -- What the statements leave standing, whatever PostgreSQL and the clock answer, the programs leave
  -- standing, whatever they do one after another and whatever becomes of their calls.
  pub act_all-Kept :
      (actions : List Action) (w : World)
      → all (action_leaves watched) actions ≡ true
      → P w.db
      → P (act_all actions w).db
  unfolding act_all
  act_all-Kept [] w l h = h
  act_all-Kept (action ∷ actions) w l h =
      act_all-Kept actions (act action w) (ground arith) (act-Kept action w (ground arith) h)

-- With no session to look after every action will do.
logout_leaves-nothing : (c : Crypto) (t : Option Text) → logout_leaves nothing c t ≡ true
unfolding logout_leaves may_delete
logout_leaves-nothing c none = refl
logout_leaves-nothing c (some t) = refl

login_leaves-nothing : (c : Crypto) (t : Option Text) → login_leaves nothing c t ≡ true
unfolding login_leaves may_insert
login_leaves-nothing c none = refl
login_leaves-nothing c (some t) = refl

route_leaves-nothing :
    (c : Crypto) (t : Option Route) (header : Text) → route_leaves nothing c t header ≡ true
unfolding route_leaves endpoint_leaves
route_leaves-nothing c none header = refl
route_leaves-nothing c (some t) header = ground (
  arith,
  logout_leaves-nothing c (split_space header).1,
  login_leaves-nothing c (generate_token c),
)

action_leaves-nothing : (action : Action) → action_leaves nothing action ≡ true
unfolding action_leaves
action_leaves-nothing (Action.request o days q (Matched.missing g status) r) = refl
action_leaves-nothing (Action.request o days q (Matched.at n) r) =
    route_leaves-nothing o.crypto (nth n routes) r.authorization
action_leaves-nothing (Action.scanned env server fuel account) = refl
action_leaves-nothing (Action.reconciled env choices tasks) = refl
action_leaves-nothing (Action.api_started env c flags sys wd own answers) = refl

actions_leave-nothing : (actions : List Action) → all (action_leaves nothing) actions ≡ true
actions_leave-nothing [] = refl
actions_leave-nothing (action ∷ actions) =
    rw (action_leaves-nothing action) (actions_leave-nothing actions)

-- What every statement leaves standing.
pub act_all-always :
    (P : Store → Type 0)
    → ((env : Env) → IsInvariant env nothing P)
    → (actions : List Action) (w : World) → P w.db
    → P (act_all actions w).db
act_all-always P i actions w = act_all-Kept P nothing i actions w (actions_leave-nothing actions)
