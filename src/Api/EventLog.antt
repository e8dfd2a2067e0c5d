-- ===== src/Api/EventLog.antt =====
-- internal/api/handlers/events.go. A value of the query string is a text, empty where it is missing.
pub mod Rising
pub mod Pages
use skybeam_mail.Prelude.{
  ℕ, ◌+◌, Bool, true, false, ◌&&◌, Option, none, some, List, [], ◌∷◌, map, if◌then◌else◌, ◌==◌, leb,
  ltb, take, Text,
}
use skybeam_mail.Prelude.Int.{ℤ, pos, pos_part, ltb_ℤ}
use skybeam_mail.Prelude.Decimal.{atoi}
use skybeam_mail.Events.Types.{nothing}
use skybeam_mail.Store.Rows.{Store, EventRow}
use skybeam_mail.Store.Table.{select, order_by}
use skybeam_mail.Store.World.{Env, M, pure, ◌>>=◌, query}
use skybeam_mail.Auth.{Account}
use skybeam_mail.Api.Response.{Response, respond, respond_error, Code, log}
use skybeam_mail.Api.Query.{clamp_limit}

unfoldable pub is_after : ℕ → ℤ → EventRow → Bool
is_after account after r = r.account_id == account && ltb_ℤ after (pos r.id)

-- The SELECT.
unfoldable pub select_events : ℕ → ℤ → ℤ → Store → List EventRow
select_events account after limit db =
    take (pos_part limit)
      (order_by (λ r s. leb r.id s.id) (select (is_after account after) db.events))

-- `nextID`
pub last_id : EventRow → List EventRow → ℕ
last_id r [] = r.id
last_id r (s ∷ rows) = last_id s rows

unfoldable pub next_id : List EventRow → ℕ
unfolding last_id
next_id [] = 0
next_id (r ∷ rows) = last_id r rows

-- The columns that are not selected.
abbrev pub without_payload : EventRow → EventRow
without_payload r = record r { payload = nothing }

unfoldable pub events_response : Option (List EventRow) → Response
events_response none = respond_error 500 Code.db_error
events_response (some rows) = respond 200 (log (map without_payload rows) (next_id rows))

-- `EventHandler.List`, from the values of the query string on.
unfoldable pub list_events : Env → Account → ℤ → ℤ → M Response
list_events env acc limit after = do
  rows ← query env [] (select_events acc.id after limit)
  pure (events_response rows)

-- `EventHandler.List`; ParseInt gives what Atoi does.
unfoldable pub handle_events : Env → Account → Text → Text → M Response
handle_events env acc limit after_id =
    list_events env acc (clamp_limit 500 100 (atoi limit)) (atoi after_id)
