-- ===== src/Api/Search.antt =====
-- internal/api/handlers/search.go. The full-text search of PostgreSQL is a parameter: whether a row
-- matches a query, and its rank.
use skybeam_mail.Prelude.{
  is_empty, ℕ, Bool, true, ◌&&◌, ◌||◌, Option, none, some, List, [], ◌∷◌, if◌then◌else◌, ◌==◌, ltb,
  take, Text, text_eq,
}
use skybeam_mail.Prelude.Int.{pos_part}
use skybeam_mail.Prelude.Decimal.{atoi}
use skybeam_mail.Store.Rows.{Store, MessageRow}
use skybeam_mail.Store.Table.{select, order_by}
use skybeam_mail.Store.World.{Env, M, pure, ◌>>=◌, query}
use skybeam_mail.Auth.{Account}
use skybeam_mail.Api.Response.{Response, respond, respond_error, Code, found}
use skybeam_mail.Api.Query.{clamp_limit, not_older}

-- `@@ plainto_tsquery`, and ts_rank.
pub record FullText : Type 0 where
  pub matches : Text → MessageRow → Bool
  pub rank : Text → MessageRow → ℕ

-- The query string of Search.
pub record SearchQuery : Type 0 where
  pub q : Text
  pub folder : Text
  pub limit : Text

-- ORDER BY rank DESC, date DESC
unfoldable pub ranked : FullText → Text → MessageRow → MessageRow → Bool
ranked ft q r s =
    if ltb (ft.rank q s) (ft.rank q r)
    then true
    else (ft.rank q r == ft.rank q s) && not_older r.date s.date

-- The WHERE clause of either SELECT; an empty folder is any.
unfoldable pub sought : FullText → ℕ → SearchQuery → MessageRow → Bool
sought ft account sq r =
    r.account_id == account
    && (is_empty sq.folder || text_eq r.folder sq.folder)
    && ft.matches sq.q r

-- Either SELECT.
unfoldable pub select_found : FullText → ℕ → SearchQuery → Store → List MessageRow
select_found ft account sq db =
    take (pos_part (clamp_limit 100 50 (atoi sq.limit)))
      (order_by (ranked ft sq.q) (select (sought ft account sq) db.messages))

-- The text parameters of either call.
unfoldable pub search_texts : SearchQuery → List Text
search_texts sq = if is_empty sq.folder then sq.q ∷ [] else sq.folder ∷ sq.q ∷ []

-- The rows are not read.
unfoldable pub search_response : Text → Option (List MessageRow) → Response
search_response q none = respond_error 500 Code.search_error
search_response q (some rows) = respond 200 (found q [])

-- `SearchHandler.Search`
unfoldable pub handle_search : Env → FullText → Account → SearchQuery → M Response
handle_search env ft acc sq =
    if is_empty sq.q then pure (respond_error 400 Code.missing_query) else do
      rows ← query env (search_texts sq) (select_found ft acc.id sq)
      pure (search_response sq.q rows)
