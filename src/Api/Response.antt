-- ===== src/Api/Response.antt =====
-- internal/api/handlers/handlers.go: respond and respondError, as values.
use skybeam_mail.Prelude.{ℕ, Bool, List, Text}
use skybeam_mail.Prelude.Int.{ℤ}
use skybeam_mail.Auth.{Account}
use skybeam_mail.Store.Rows.{MessageRow, EventRow, DomainRow}

-- The `code` of an error body.
pub data Code : Type 0 where
  invalid_body missing_fields invalid_credentials server_error invalid_token : Code
  invalid_id not_found db_error protected_folder folder_not_empty missing_query : Code
  search_error hash_error not_implemented unauthorized forbidden : Code

-- FolderView
pub record FolderView : Type 0 where
  pub name : Text
  pub total : ℕ
  pub unread : ℕ

-- The columns that ListAccounts selects, less created_at.
pub record AccountView : Type 0 where
  pub id : ℕ
  pub email : Text
  pub display_name : Text
  pub is_admin : Bool
  pub is_active : Bool

pub data Body : Type 0 where
  empty : Body
  account : Account → Body
  token : Text → Account → Body
  folders : List FolderView → Body
  folder : FolderView → Body
  -- data, page, limit
  page : List MessageRow → ℤ → ℤ → Body
  message : MessageRow → Body
  thread : List MessageRow → Body
  -- data, next_id
  log : List EventRow → ℕ → Body
  -- query, data
  found : Text → List MessageRow → Body
  domains : List DomainRow → Body
  accounts : List AccountView → Body
  -- the text of `message`
  text : Text → Body
  health : Body

-- A response: a status with a body, an error with its code, or the panic of a handler.
pub data Response : Type 0 where
  respond : ℕ → Body → Response
  respond_error : ℕ → Code → Response
  panic : Response

abbrev pub no_content : Response
no_content = respond 204 empty

-- `Health`
abbrev pub health_response : Response
health_response = respond 200 health
