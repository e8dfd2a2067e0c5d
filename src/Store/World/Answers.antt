-- ===== src/Store/World/Answers.antt =====
-- What the answer to a call says of the database.
use skybeam_mail.Prelude.{ℕ, ◌+◌, ◌≡◌, refl, Bool, true, false, Option, none, some, List, Text, all}
use skybeam_mail.Store.Rows.{Store}
use skybeam_mail.Store.World.{Wire, Env, World, exec, query, exec_on, query_on}

exec_on-ok :
    (wire : Wire) (after : Option Store) (w : World)
    → (exec_on wire after w).0 ≡ false
    → after ≡ some (exec_on wire after w).1.db
exec_on-ok Wire.answered none w e = cc
exec_on-ok Wire.answered (some db) w e = refl
exec_on-ok Wire.dropped after w e = cc
exec_on-ok Wire.unanswered none w e = cc
exec_on-ok Wire.unanswered (some db) w e = cc

query_on-some :
    {A : Type 0} (wire : Wire) (fits : Bool) (a b : A) (w : World)
    → (query_on wire fits a w).0 ≡ some b
    → b ≡ a
query_on-some Wire.answered true a b w e = cc
query_on-some Wire.answered false a b w e = cc
query_on-some Wire.dropped fits a b w e = cc
query_on-some Wire.unanswered fits a b w e = cc

query_on-world :
    {A : Type 0} (wire : Wire) (fits : Bool) (a : A) (w : World)
    → (query_on wire fits a w).1 ≡ record { db = w.db; calls = w.calls + 1 }
query_on-world Wire.answered true a w = refl
query_on-world Wire.answered false a w = refl
query_on-world Wire.dropped fits a w = refl
query_on-world Wire.unanswered fits a w = refl

module _ (env : Env) where
  -- A call of Exec that returns no error has made its statement.
  pub exec-ok :
      (statement : ℕ → Store → Option Store) (w : World)
      → (exec env statement w).0 ≡ false
      → statement (env.tick w.calls).now w.db ≡ some (exec env statement w).1.db
  unfolding exec
  exec-ok statement w e =
      exec_on-ok (env.tick w.calls).wire (statement (env.tick w.calls).now w.db) w e

  -- A query that returns no error has read the database.
  pub query-some :
      {A : Type 0} (params : List Text) (read : Store → A) (w : World) (b : A)
      → (query env params read w).0 ≡ some b
      → b ≡ read w.db
  unfolding query
  query-some params read w b e =
      query_on-some (env.tick w.calls).wire (all env.text_ok params) (read w.db) b w e

  -- A query changes no row.
  pub query-world :
      {A : Type 0} (params : List Text) (read : Store → A) (w : World)
      → (query env params read w).1 ≡ record { db = w.db; calls = w.calls + 1 }
  unfolding query
  query-world params read w =
      query_on-world (env.tick w.calls).wire (all env.text_ok params) (read w.db) w
