-- ===== src/Reconciler/Run/Tests.antt =====
-- internal/reconciler/service.go, Run: two goroutines for one account.
use skybeam_mail.Prelude.{◌≡◌, refl, ℕ, true, false, List, [], ◌∷◌, any, codes, text_eq}
use skybeam_mail.Store.Samples.{calm_env, small_world}
use skybeam_mail.Store.Table.{select}
use skybeam_mail.Store.World.{exec, query}
use skybeam_mail.Reconciler.{Connection}
use skybeam_mail.Reconciler.Counts.{holds, Counted}
use skybeam_mail.Reconciler.Run.{
  advance_phase, advance, advance_nth, active_accounts, task_of, tasks_of, run_all, Choice,
  take_step, interleave,
}
use skybeam_mail.Reconciler.Run.Moves.{is_past, past}
use skybeam_mail.Reconciler.Run.Interleaved.{interleave-Counted}

abbrev reachable : ℕ → Connection
reachable account = record { dial_fails = false; login_fails = false; list_fails = false }

-- The light and the full tick come at once, and the second goroutine overtakes the first.
abbrev overtaken : List Choice
overtaken = Choice.tick reachable ∷ Choice.tick reachable ∷ Choice.go 1 ∷ Choice.go 0 ∷ []

inbox_holds : holds 1 (codes "INBOX") small_world.db ≡ true
unfolding select text_eq
inbox_holds = refl

second_is_through : any (past 1) (interleave calm_env overtaken [] small_world).0 ≡ true
unfolding interleave take_step run_all tasks_of task_of active_accounts select query exec
    advance_nth advance advance_phase is_past
second_is_through = refl

interleave-Counted_example :
    Counted 1 (codes "INBOX") small_world.db (interleave calm_env overtaken [] small_world).1.db
interleave-Counted_example =
    interleave-Counted calm_env 1 (codes "INBOX") overtaken small_world (λ n. refl) inbox_holds
      second_is_through
