-- ===== src/Reconciler/Run.antt =====
-- internal/reconciler/service.go, Run and runAll. A goroutine of runAll is a task; a task stands
-- before, between or behind its two calls of the database, and the order in which the ticks and the
-- tasks go on is given.
pub mod Foreign
pub mod Moves
pub mod Interleaved
pub mod Ticks
mod Tests
use skybeam_mail.Prelude.{
  ℕ, zero, suc, Bool, true, false, ◌||◌, Option, none, some, List, [], ◌∷◌, ◌++◌, map,
  if◌then◌else◌, Text,
}
use skybeam_mail.Prelude.Int.{ℤ, pos, leb_ℤ}
use skybeam_mail.Events.Types.{EventType, reconciled}
use skybeam_mail.Events.Writer.{emit_with}
use skybeam_mail.Store.Rows.{Store, AccountRow}
use skybeam_mail.Store.Table.{select}
use skybeam_mail.Store.World.{Env, World, M, pure, ◌>>=◌, ◌>>◌, exec, query}
use skybeam_mail.Reconciler.{Connection, Reconciled, refresh_counts}

-- Where a goroutine stands: before the connection, behind refreshFolderCounts, or at its end.
pub data Phase : Type 0 where
  connecting : Connection → Phase
  counted : Phase
  ended : Reconciled → Phase

pub record Task : Type 0 where
  pub account : ℕ
  pub phase : Phase

-- The next step of a reconcileAccount that runs beside others.
module _ (env : Env) (account : ℕ) where
  unfoldable pub advance_phase : Phase → M Phase
  advance_phase (Phase.connecting c) =
      if c.dial_fails
      then pure (Phase.ended Reconciled.connect_failed)
      else if c.login_fails
      then pure (Phase.ended Reconciled.login_failed)
      else if c.list_fails
      then pure (Phase.ended Reconciled.list_failed)
      else do exec env (refresh_counts account); pure Phase.counted
  advance_phase Phase.counted = do
    emit_with env account EventType.reconcile_complete [] [] (reconciled 0 0 0)
    pure (Phase.ended Reconciled.reconciled_account)
  advance_phase (Phase.ended result) = pure (Phase.ended result)

unfoldable pub advance : Env → Task → M Task
advance env t = do phase ← advance_phase env t.account t.phase; pure (record t { phase = phase })

-- The goroutine at a place of the list goes on.
unfoldable pub advance_nth : Env → ℕ → List Task → M (List Task)
advance_nth env n [] = pure []
advance_nth env zero (t ∷ tasks) = do t' ← advance env t; pure (t' ∷ tasks)
advance_nth env (suc n) (t ∷ tasks) = do tasks' ← advance_nth env n tasks; pure (t ∷ tasks')

-- SELECT … FROM accounts WHERE is_active = true
unfoldable pub active_accounts : Store → List AccountRow
active_accounts db = select (λ a. a.is_active) db.accounts

unfoldable pub task_of : (ℕ → Connection) → AccountRow → Task
task_of connections a = record { account = a.id; phase = Phase.connecting (connections a.id) }

unfoldable pub tasks_of : (ℕ → Connection) → Option (List AccountRow) → List Task
tasks_of connections none = []
tasks_of connections (some rows) = map (task_of connections) rows

-- `runAll`, by what the IMAP server is going to answer for each account. `full` is only logged.
unfoldable pub run_all : Env → (ℕ → Connection) → List Task → M (List Task)
run_all env connections tasks = do
  rows ← query env [] active_accounts
  pure (tasks ++ tasks_of connections rows)

-- What happens next: a tick, or the goroutine at a place.
pub data Choice : Type 0 where
  tick : (ℕ → Connection) → Choice
  go : ℕ → Choice

unfoldable pub take_step : Env → Choice → List Task → M (List Task)
take_step env (Choice.tick connections) tasks = run_all env connections tasks
take_step env (Choice.go n) tasks = advance_nth env n tasks

unfoldable pub interleave : Env → List Choice → List Task → M (List Task)
interleave env [] tasks = pure tasks
interleave env (choice ∷ choices) tasks = do
  tasks' ← take_step env choice tasks
  interleave env choices tasks'

-- What wakes the select of Run.
pub data Wake : Type 0 where
  done light_tick full_tick : Wake

-- The calls of runAll that Run makes, each by its `full`, or the panic of time.NewTicker.
pub data Ran : Type 0 where
  panics : Ran
  calls : List Bool → Ran

unfoldable pub run_loop : List Wake → List Bool
run_loop [] = []
run_loop (Wake.done ∷ wakes) = []
run_loop (Wake.light_tick ∷ wakes) = false ∷ run_loop wakes
run_loop (Wake.full_tick ∷ wakes) = true ∷ run_loop wakes

-- `Run`, by the two intervals of the configuration.
unfoldable pub run : ℤ → ℤ → List Wake → Ran
run light full wakes =
    if leb_ℤ light (pos 0) || leb_ℤ full (pos 0)
    then Ran.panics
    else Ran.calls (false ∷ run_loop wakes)
