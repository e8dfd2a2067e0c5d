-- ===== src/System/Runs.antt =====
-- The programs on one database: histories from the first start on.
use skybeam_mail.Prelude.{ℕ, List}
use skybeam_mail.Prelude.Int.{ℤ}
use skybeam_mail.Store.World.{Env, World, IsCalm}
use skybeam_mail.Api.Middleware.{Request}
use skybeam_mail.Api.Router.{Outside, Incoming, Matched, serve}
use skybeam_mail.Api.Router.Isolated.{Contained, serve-Contained}
use skybeam_mail.System.{nothing, empty_store, IsReachable, Action, act_all}
use skybeam_mail.System.Keeps.{IsInvariant}
use skybeam_mail.System.Keeps.Programs.{act_all-always}
use skybeam_mail.System.Keys.Statements.{reachable-IsStore}

IsReachable-IsInvariant : (env : Env) → IsInvariant env nothing IsReachable
IsReachable-IsInvariant env = record {
  under = λ s leaves now db db' r e. IsReachable.execute env s now db db' r e;
}

-- Whatever the programs do is a sequence of the statements that IsReachable lists: from a database that
-- those lead to they lead to another such, whatever becomes of their calls.
pub act_all-IsReachable :
    (actions : List Action) (w : World) → IsReachable w.db → IsReachable (act_all actions w).db
act_all-IsReachable = act_all-always IsReachable IsReachable-IsInvariant

-- After any history of requests, scans, reconciliations and starts, from the empty database on and
-- with whatever becomes of their calls: a request whose own calls are answered changes messages only
-- of the account that VerifyToken gives for its token, whatever route it meets.
pub history-Contained :
    (actions : List Action) (calls : ℕ) (o : Outside) (days : ℤ) (q : Incoming) (m : Matched)
    (r : Request) (calm : IsCalm o.env)
    → let w = act_all actions (record { db = empty_store; calls = calls }) in
      Contained o days q r calm w (serve o days q m r w).1
history-Contained actions calls o days q m r calm =
    let start : World = record { db = empty_store; calls = calls } in
    let w = act_all actions start in
    let reached = act_all-IsReachable actions start IsReachable.start in
    serve-Contained o days q r calm m w (reachable-IsStore w.db reached).messages.0.0
