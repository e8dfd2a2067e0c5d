-- ===== src/System.antt =====
-- The programs on one database: what cmd/api, cmd/watcher and cmd/reconciler do to it.
pub mod Keeps
pub mod Keys
pub mod Retains
pub mod Sessions
pub mod Delivery
pub mod Runs
mod Tests
use skybeam_mail.Prelude.{
  ℕ, ◌≡◌, Bool, true, false, not, ◌||◌, ◌&&◌, text_eq, Option, none, some, List, [], ◌∷◌, Text,
}
use skybeam_mail.Prelude.Int.{ℤ}
use skybeam_mail.Events.Writer.{Event, insert_event}
use skybeam_mail.Store.Rows.{Store}
use skybeam_mail.Store.World.{Env, World}
use skybeam_mail.Auth.{
  Crypto, hash_token, generate_token, insert_session, delete_session, touch_session, upsert_admin,
}
use skybeam_mail.Api.Middleware.{Request, split_space}
use skybeam_mail.Api.Folders.{insert_folder, delete_folder}
use skybeam_mail.Api.Messages.{set_read, set_starred, set_deleted, move_to_trash}
use skybeam_mail.Api.Admin.{AccountBody, insert_domain, delete_domain, insert_account}
use skybeam_mail.Api.Router.{Endpoint, Route, routes, Outside, Incoming, Matched, nth, serve}
use skybeam_mail.Watcher.Mail.{Headers}
use skybeam_mail.Watcher.Scan.{Server, Body, upsert_known, upsert_new, scan}
use skybeam_mail.Reconciler.{refresh_counts}
use skybeam_mail.Reconciler.Run.{Task, Choice, interleave}
use skybeam_mail.Config.{Environ, Dir, System}
use skybeam_mail.Cmd.{PoolAnswers, Flags, main}

-- The statements of the three programs that write, each with what the code passes to it; every event
-- has the id uuid.Nil, for one to be drawn.
pub data Statement : Type 0 where
  session_inserted : ℕ → Text → ℕ → Statement
  session_deleted : Text → Statement
  session_touched : Text → ℕ → Statement
  admin_upserted : Text → Text → Statement
  account_inserted : AccountBody → Text → Statement
  domain_inserted : Text → Statement
  domain_deleted : Option ℕ → Statement
  folder_inserted folder_removed : ℕ → Text → Statement
  read_set starred_set : Bool → ℕ → Statement
  deleted_set moved_to_trash : ℕ → Statement
  event_inserted : (e : Event) → e.event_id ≡ 0 → Statement
  known_upserted : ℕ → Headers → ℕ → Statement
  new_upserted : ℕ → Headers → ℕ → Body → Statement
  counts_refreshed : ℕ → Statement

-- A statement on the database: none where PostgreSQL refuses it.
unfoldable pub executed : Env → Statement → ℕ → Store → Option Store
executed env (Statement.session_inserted account hash expires) = insert_session account hash expires
executed env (Statement.session_deleted hash) = delete_session hash
executed env (Statement.session_touched hash seen) = touch_session hash seen
executed env (Statement.admin_upserted email hash) = upsert_admin env email hash
executed env (Statement.account_inserted b hash) = insert_account env b hash
executed env (Statement.domain_inserted name) = insert_domain env name
executed env (Statement.domain_deleted id) = delete_domain id
executed env (Statement.folder_inserted account name) = insert_folder env account name
executed env (Statement.folder_removed account name) = delete_folder env account name
executed env (Statement.read_set b id) = set_read b id
executed env (Statement.starred_set b id) = set_starred b id
executed env (Statement.deleted_set id) = set_deleted id
executed env (Statement.moved_to_trash id) = move_to_trash id
executed env (Statement.event_inserted e drawn) = insert_event env e
executed env (Statement.known_upserted account h size) = upsert_known env account h size
executed env (Statement.new_upserted account h size body) = upsert_new env account h size body
executed env (Statement.counts_refreshed account) = refresh_counts account

-- The database before the first start: the tables of migrations/, empty. 0 is uuid.Nil, which is not
-- drawn.
abbrev pub empty_store : Store
empty_store = record {
  accounts = [];
  sessions = [];
  events = [];
  messages = [];
  folders = [];
  domains = [];
  next_id = 1;
  next_event = 1;
}

-- The databases that the statements of the programs lead to, whoever issues them and in whatever
-- order, also those of requests, scans and goroutines that run beside each other.
pub data IsReachable : Store → Type 0 where
  start : IsReachable empty_store
  execute :
      (env : Env) (s : Statement) (now : ℕ) (db db' : Store)
      → IsReachable db
      → executed env s now db ≡ some db'
      → IsReachable db'

-- What the programs do: a request to the API, a scan of the watcher for an account, the reconciler
-- from some of its tasks on, and a start of the API, with its flags. Each with what is outside then.
pub data Action : Type 0 where
  request : Outside → ℤ → Incoming → Matched → Request → Action
  scanned : Env → Server → ℕ → ℕ → Action
  reconciled : Env → List Choice → List Task → Action
  api_started : Env → Crypto → Flags → System → Option Dir → Environ → PoolAnswers → Action

unfoldable pub act : Action → World → World
act (Action.request o days q m r) w = (serve o days q m r w).1
act (Action.scanned env server fuel account) w = (scan env server fuel account w).1
act (Action.reconciled env choices tasks) w = (interleave env choices tasks w).1
act (Action.api_started env c flags sys wd own answers) w =
    (main env c flags sys wd own answers w).1

unfoldable pub act_all : List Action → World → World
act_all [] w = w
act_all (action ∷ actions) w = act_all actions (act action w)

-- A session to look after, by the hash of its token: one that is to stay, or one that is to be gone.
pub data Watched : Type 0 where
  nothing : Watched
  staying gone : Text → Watched

unfoldable pub may_delete : Watched → Text → Bool
may_delete Watched.nothing hash = true
may_delete (Watched.staying watched) hash = not (text_eq hash watched)
may_delete (Watched.gone watched) hash = true

unfoldable pub may_insert : Watched → Text → Bool
may_insert Watched.nothing hash = true
may_insert (Watched.staying watched) hash = true
may_insert (Watched.gone watched) hash = not (text_eq hash watched)

-- Whether a statement, a request and what the programs do leave the session as it is to be: a logout
-- ends the one with its token, and a login begins one with the token that it draws.
unfoldable pub statement_leaves : Watched → Statement → Bool
unfolding may_delete may_insert
statement_leaves watched (Statement.session_deleted hash) = may_delete watched hash
statement_leaves watched (Statement.session_inserted account hash expires) = may_insert watched hash
statement_leaves watched s = true

unfoldable pub logout_leaves : Watched → Crypto → Option Text → Bool
logout_leaves watched c none = true
logout_leaves watched c (some token) = may_delete watched (hash_token c token)

unfoldable pub login_leaves : Watched → Crypto → Option Text → Bool
login_leaves watched c none = true
login_leaves watched c (some token) = may_insert watched (hash_token c token)

unfoldable pub is_logout : Endpoint → Bool
is_logout Endpoint.logout = true
is_logout e = false

unfoldable pub is_login : Endpoint → Bool
is_login Endpoint.login = true
is_login e = false

unfoldable pub endpoint_leaves : Watched → Crypto → Endpoint → Text → Bool
unfolding is_logout is_login logout_leaves login_leaves
endpoint_leaves watched c e header =
    (not (is_logout e) || logout_leaves watched c (split_space header).1)
    && (not (is_login e) || login_leaves watched c (generate_token c))

unfoldable pub route_leaves : Watched → Crypto → Option Route → Text → Bool
unfolding endpoint_leaves
route_leaves watched c none header = true
route_leaves watched c (some t) header = endpoint_leaves watched c t.endpoint header

unfoldable pub action_leaves : Watched → Action → Bool
unfolding route_leaves
action_leaves watched (Action.request o days q (Matched.at n) r) =
    route_leaves watched o.crypto (nth n routes) r.authorization
action_leaves watched action = true
