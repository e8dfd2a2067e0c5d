-- ===== src/Api/Messages/Pages.antt =====
-- internal/api/handlers/messages.go, List: a client that reads one page behind another.
use mathlib.Core.List.{Permᴰ}
use mathlib.Core.List.Permᴰ
use skybeam_mail.Prelude.{ℕ, suc, ◌≡◌, Bool, true, List, [], ◌∷◌, ◌++◌, Text, codes, text_eq}
use skybeam_mail.Prelude.Int.{pos, pos_part}
use skybeam_mail.Prelude.Decimal.{atoi}
use skybeam_mail.Store.Rows.{Store, MessageRow}
use skybeam_mail.Store.Table.{select, order_by}
use skybeam_mail.Store.Table.Distinct.{Distinct}
use skybeam_mail.Store.World.{Env, World, IsCalm}
use skybeam_mail.Auth.{Account}
use skybeam_mail.Api.Response.{Response, Body, respond, respond_error, panic}
use skybeam_mail.Api.Query.{clamp_limit, not_older}
use skybeam_mail.Api.Messages.{ListQuery, folder_of, listed, handle_list}

-- The messages of a response.
unfoldable pub rows_of : Body → List MessageRow
rows_of (Body.page rows p limit) = rows
rows_of body = []

unfoldable pub shown : Response → List MessageRow
shown (respond status body) = rows_of body
shown (respond_error status code) = []
shown panic = []

-- What a client is shown that asks for the pages of these numbers in turn.
-- The query of each page meets the rows in an order of its own, which is given for each call.
unfoldable pub read_pages :
    Env
    → (ℕ → List MessageRow → List MessageRow)
    → Bool
    → Account
    → ListQuery
    → List Text
    → World
    → List MessageRow
read_pages env meets closes acc q [] w = []
read_pages env meets closes acc q (t ∷ texts) w =
    let (answer, v) = handle_list env (meets w.calls) closes acc (record q { page = t }) w in
    shown answer ++ read_pages env meets closes acc q texts v

-- The texts are numbers that rise by one.
abbrev pub IsNumbered : ℕ → List Text → Type 0
IsNumbered k [] = Unit {0}
IsNumbered k (t ∷ texts) = (atoi t ≡ pos k) × IsNumbered (suc k) texts

-- ORDER BY date DESC is an order in which any two messages can be compared.
abbrev pub newer : MessageRow → MessageRow → Bool
newer r s = not_older r.date s.date

module _ (env : Env) (calm : IsCalm env) (meets : ℕ → List MessageRow → List MessageRow)
    (permutes : (n : ℕ) (rows : List MessageRow) → Permᴰ (meets n rows) rows) (closes : Bool)
    (acc : Account) (q : ListQuery) (takes : env.text_ok (folder_of q.folder) ≡ true) where
  -- The messages that the query asks for, the newest first, and the limit.
  abbrev pub wanted : Store → List MessageRow
  wanted db = order_by newer (
      select (listed acc.id (folder_of q.folder) (text_eq q.unread_only (codes "true")))
        db.messages)

  -- The messages that the query asks for, before they are put in order.
  abbrev pub matching : Store → List MessageRow
  matching db =
      select (listed acc.id (folder_of q.folder) (text_eq q.unread_only (codes "true"))) db.messages

  abbrev pub size : ℕ
  size = pos_part (clamp_limit 100 50 (atoi q.limit))
