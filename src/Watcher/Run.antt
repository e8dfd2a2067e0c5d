-- ===== src/Watcher/Run.antt =====
-- internal/watcher/service.go, Run: which accounts have a watcher. The map `watching` is the list of
-- its keys; the cancel function of a key is named by the key.
pub mod Once
pub mod Active
mod Tests
use skybeam_mail.Prelude.{
  ℕ, Bool, true, false, Option, none, some, List, [], ◌∷◌, ◌++◌, any, if◌then◌else◌, ◌==◌, map,
  Text,
}
use skybeam_mail.Store.Rows.{AccountRow}
use skybeam_mail.Store.Table.{select}
use skybeam_mail.Store.World.{Env, World, M, pure, ◌>>=◌, query}

pub record AccountInfo : Type 0 where
  pub id : ℕ
  pub email : Text
  pub dovecot_user : Text

-- The keys of `watching`, the goroutines started and the goroutines cancelled, each by its account.
pub record Watchers : Type 0 where
  pub watching : List ℕ
  pub started : List AccountInfo
  pub cancelled : List ℕ

-- One round of the loop of `refresh`.
unfoldable pub watch_one : Watchers → AccountInfo → Watchers
watch_one w acc =
    if any (λ k. k == acc.id) w.watching
    then w
    else record w { watching = w.watching ++ acc.id ∷ []; started = w.started ++ acc ∷ [] }

unfoldable pub watch_all : Watchers → List AccountInfo → Watchers
watch_all w [] = w
watch_all w (acc ∷ accounts) = watch_all (watch_one w acc) accounts

-- `refresh`; none is an error of listAccounts.
unfoldable pub refresh : Watchers → Option (List AccountInfo) → Watchers
refresh w none = w
refresh w (some accounts) = watch_all w accounts

-- What wakes the select: the ticker, with what listAccounts gives then, or the end of the context.
pub data Signal : Type 0 where
  tick : Option (List AccountInfo) → Signal
  stop : Signal

unfoldable pub run_loop : Watchers → List Signal → Watchers
run_loop w [] = w
run_loop w (Signal.tick listed ∷ signals) = run_loop (refresh w listed) signals
run_loop w (Signal.stop ∷ signals) = record w { cancelled = w.watching }

-- `Run`, with what the first refresh lists.
unfoldable pub run : Option (List AccountInfo) → List Signal → Watchers
run listed = run_loop (refresh (record { watching = []; started = []; cancelled = [] }) listed)

unfoldable pub info_of : AccountRow → AccountInfo
info_of a = record { id = a.id; email = a.email; dovecot_user = a.dovecot_user }

unfoldable pub infos : Option (List AccountRow) → Option (List AccountInfo)
infos none = none
infos (some rows) = some (map info_of rows)

-- `listAccounts`. None of its columns is NULL, so every row scans.
unfoldable pub list_accounts : Env → M (Option (List AccountInfo))
list_accounts env = do
  rows ← query env [] (λ db. select (λ a. a.is_active) db.accounts)
  pure (infos rows)

-- What wakes the select, with the database as the refresh then finds it.
pub data Moment : Type 0 where
  ticked : World → Moment
  stopped : Moment

unfoldable pub signal_of : Env → Moment → Signal
signal_of env (Moment.ticked w) = Signal.tick (list_accounts env w).0
signal_of env Moment.stopped = Signal.stop

-- `Run` on a database that others change meanwhile.
unfoldable pub run_at : Env → World → List Moment → Watchers
run_at env w moments = run (list_accounts env w).0 (map (signal_of env) moments)
