-- ===== src/Store/World.antt =====
-- Calls of the database. The pool can refuse a call, and can lose the answer to one that it has
-- made; the environment decides, call by call. Time is read from the same source.
pub mod Keeps
pub mod Calm
pub mod Answers
use skybeam_mail.Prelude.{ℕ, ◌+◌, ◌≡◌, Bool, true, false, Option, none, some, List, all, take, Text}
use skybeam_mail.Store.Rows.{Store, MessageRow, EventRow}

-- What becomes of a call: PostgreSQL answers, the call does not reach it, or the answer is lost.
pub data Wire : Type 0 where
  answered dropped unanswered : Wire

-- Where the answer to a query for rows is lost, `read` is the number of rows that were read before, or
-- none if Query itself returns the error.
pub record Tick : Type 0 where
  pub wire : Wire
  pub now : ℕ
  pub read : Option ℕ

-- What is outside the code: the fate of each call, the clock, and which values PostgreSQL takes (a
-- text that is not UTF-8, a NUL, a malformed jsonb literal or an integer out of range is refused),
-- which is asked of a row without the values that PostgreSQL fills in.
pub record Env : Type 0 where
  pub tick : ℕ → Tick
  pub text_ok : Text → Bool
  pub row_ok : MessageRow → Bool
  pub event_ok : EventRow → Bool

pub record World : Type 0 where
  pub db : Store
  pub calls : ℕ

-- What a statement gives for a row: the id is drawn by PostgreSQL, which also sets last_synced_at.
abbrev pub given_message : MessageRow → MessageRow
given_message r = record r { id = 0; last_synced_at = 0 }

-- The ids are drawn, and a time of the clock is in range.
abbrev pub given_event : EventRow → EventRow
given_event r = record r { id = 0; event_id = 0; emitted_at = 0 }

abbrev pub M : Type 0 → Type 0
M A = World → A × World

abbrev pub pure : {A : Type 0} → A → M A
pure a w = (a, w)

infixl 5 ◌>>=◌ ◌>>◌
abbrev pub ◌>>=◌ : {A B : Type 0} → M A → (A → M B) → M B
◌>>=◌ m f w = let (a, w') = m w in f a w'

abbrev pub ◌>>◌ : {A B : Type 0} → M A → M B → M B
m >> k = m >>= λ _. k

abbrev pub settle : Store → World → World
settle db w = record { db = db; calls = w.calls + 1 }

-- What a call leaves: whether it returned an error, and the database.
abbrev pub exec_on : Wire → Option Store → World → Bool × World
exec_on Wire.answered (some db) w = (false, settle db w)
exec_on Wire.answered none w = (true, settle w.db w)
exec_on Wire.dropped after w = (true, settle w.db w)
exec_on Wire.unanswered (some db) w = (true, settle db w)
exec_on Wire.unanswered none w = (true, settle w.db w)

abbrev pub query_on : {A : Type 0} → Wire → Bool → A → World → Option A × World
query_on Wire.answered true a w = (some a, settle w.db w)
query_on Wire.answered false a w = (none, settle w.db w)
query_on Wire.dropped fits a w = (none, settle w.db w)
query_on Wire.unanswered fits a w = (none, settle w.db w)

abbrev pub query_rows_on :
    {A : Type 0} → Wire → Option ℕ → Bool → List A → World → Option (List A) × World
query_rows_on Wire.answered read true rows w = (some rows, settle w.db w)
query_rows_on Wire.answered read false rows w = (none, settle w.db w)
query_rows_on Wire.dropped read fits rows w = (none, settle w.db w)
query_rows_on Wire.unanswered none fits rows w = (none, settle w.db w)
query_rows_on Wire.unanswered (some n) false rows w = (none, settle w.db w)
query_rows_on Wire.unanswered (some n) true rows w = (some (take n rows), settle w.db w)

module _ (env : Env) where
  -- `pool.Exec`, whether it returned an error. A statement is none where PostgreSQL refuses it.
  unfoldable pub exec : (ℕ → Store → Option Store) → M Bool
  exec statement w = let t = env.tick w.calls in exec_on t.wire (statement t.now w.db) w

  -- `pool.Query` and `pool.QueryRow`: none for an error, as for a text parameter that is refused.
  unfoldable pub query : {A : Type 0} → List Text → (Store → A) → M (Option A)
  query params select w = query_on (env.tick w.calls).wire (all env.text_ok params) (select w.db) w

  -- `pool.Query` and the loop over its rows, where nothing looks at `rows.Err()` behind the loop.
  unfoldable pub query_rows : {A : Type 0} → List Text → (Store → List A) → M (Option (List A))
  query_rows params select w =
      let t = env.tick w.calls in
      query_rows_on t.wire t.read (all env.text_ok params) (select w.db) w

  -- `time.Now()`
  unfoldable pub time_now : M ℕ
  time_now w = ((env.tick w.calls).now, w)

-- Every call from here on is answered.
abbrev pub IsCalm : Env → Type 0
IsCalm env = (n : ℕ) → (env.tick n).wire ≡ Wire.answered
