-- ===== src/System/Keeps.antt =====
-- The programs on one database: what every statement keeps, every program keeps.
pub mod Auth
pub mod Handlers
pub mod Admin
pub mod Requests
pub mod Programs
use skybeam_mail.Prelude.{ℕ, ◌≡◌, refl, Bool, true, Option, some, List, Text}
use skybeam_mail.Events.Types.{EventType, Payload}
use skybeam_mail.Events.Writer.{emit_with}
use skybeam_mail.Events.Writer.Log.{Keeps-emit_with}
use skybeam_mail.Store.Rows.{Store}
use skybeam_mail.Store.World.{Env, World, M, exec, query}
use skybeam_mail.Store.World.Keeps.{Keeps-exec, Keeps-query}
use skybeam_mail.System.{Watched, nothing, Statement, executed, statement_leaves}

-- No statement that PostgreSQL takes breaks the property, as long as it leaves the session there.
pub record IsInvariant (env : Env) (watched : Watched) (P : Store → Type 0) : Type 0 where
  pub under :
      (s : Statement)
      → statement_leaves watched s ≡ true
      → (now : ℕ) (db db' : Store) → P db
      → executed env s now db ≡ some db'
      → P db'

module _ (env : Env) (P : Store → Type 0) where
  -- What an action needs to leave the property standing, call by call.
  abbrev pub Kept : {A : Type 0} → M A → Type 0
  Kept m = (w : World) → P w.db → P (m w).1.db

  pub query-Kept :
      {A : Type 0} (params : List Text) (read : Store → A) → Kept (query env params read)
  query-Kept params read = (Keeps-query P env params read).at

  module _ {watched : Watched} (i : IsInvariant env watched P) where
    pub exec-Kept :
        (s : Statement) → statement_leaves watched s ≡ true → Kept (exec env (executed env s))
    exec-Kept s leaves = (Keeps-exec P env (executed env s) (i.under s leaves)).at

    pub emit_with-Kept :
        (account : ℕ) (type : EventType) (uid folder : Text) (payload : Payload)
        → Kept (emit_with env account type uid folder payload)
    unfolding executed statement_leaves
    emit_with-Kept account type uid folder payload =
        (Keeps-emit_with P env (λ e drawn. i.under (Statement.event_inserted e drawn) refl) account
          type uid folder payload).at
