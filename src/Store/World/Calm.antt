-- ===== src/Store/World/Calm.antt =====
-- What a call does where every call is answered.
use skybeam_mail.Prelude.{ℕ, ◌≡◌, true, false, Option, none, some, List, Text, all}
use skybeam_mail.Store.Rows.{Store}
use skybeam_mail.Store.World.{Wire, Env, World, exec, query, query_rows, IsCalm, settle}

module _ (env : Env) (calm : IsCalm env) where
  -- A statement that PostgreSQL takes is made, and its call returns no error.
  pub exec-some :
      (statement : ℕ → Store → Option Store) (w : World) (db : Store)
      → statement (env.tick w.calls).now w.db ≡ some db
      → exec env statement w ≡ (false, settle db w)
  unfolding exec
  exec-some statement w db e = rw (calm w.calls, e)

  -- A statement that it refuses changes nothing, and its call returns an error.
  pub exec-none :
      (statement : ℕ → Store → Option Store) (w : World)
      → statement (env.tick w.calls).now w.db ≡ none
      → exec env statement w ≡ (true, settle w.db w)
  unfolding exec
  exec-none statement w e = rw (calm w.calls, e)

  pub query-some :
      {A : Type 0} (params : List Text) (read : Store → A) (w : World)
      → all env.text_ok params ≡ true
      → query env params read w ≡ (some (read w.db), settle w.db w)
  unfolding query
  query-some params read w e = rw (calm w.calls, e)

  -- A text that PostgreSQL refuses fails the query.
  pub query-refused :
      {A : Type 0} (params : List Text) (read : Store → A) (w : World)
      → all env.text_ok params ≡ false
      → query env params read w ≡ (none, settle w.db w)
  unfolding query
  query-refused params read w e = rw (calm w.calls, e)

-- A query for rows that is answered gives all of them.
pub query_rows_answered :
    (env : Env) {A : Type 0} (params : List Text) (read : Store → List A) (w : World)
    → (env.tick w.calls).wire ≡ Wire.answered
    → all env.text_ok params ≡ true
    → query_rows env params read w ≡ (some (read w.db), settle w.db w)
unfolding query_rows
query_rows_answered env params read w wire e = rw (wire, e)

-- The same for one call, whatever becomes of the later ones.
pub query_answered :
    (env : Env) {A : Type 0} (params : List Text) (read : Store → A) (w : World)
    → (env.tick w.calls).wire ≡ Wire.answered
    → all env.text_ok params ≡ true
    → query env params read w ≡ (some (read w.db), settle w.db w)
unfolding query
query_answered env params read w wire e = rw (wire, e)

pub query_dropped :
    (env : Env) {A : Type 0} (params : List Text) (read : Store → A) (w : World)
    → (env.tick w.calls).wire ≡ Wire.dropped
    → query env params read w ≡ (none, settle w.db w)
unfolding query
query_dropped env params read w wire = rw wire

pub exec_answered :
    (env : Env) (statement : ℕ → Store → Option Store) (w : World) (db : Store)
    → (env.tick w.calls).wire ≡ Wire.answered
    → statement (env.tick w.calls).now w.db ≡ some db
    → exec env statement w ≡ (false, settle db w)
unfolding exec
exec_answered env statement w db wire e = rw (wire, e)
