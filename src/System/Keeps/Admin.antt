-- ===== src/System/Keeps/Admin.antt =====
-- internal/api/handlers/admin.go: what every statement keeps, the handlers keep.
use skybeam_mail.Prelude.{ℕ, refl, Bool, Text, Option, Bool, Option, none, some, Text, arith}
use skybeam_mail.Store.Rows.{Store, AccountRow, DomainRow}
use skybeam_mail.Store.World.{Env}
use skybeam_mail.Auth.{Crypto}
use skybeam_mail.Api.Admin.{
  AccountBody, handle_list_domains, handle_list_accounts, handle_create_domain,
  handle_delete_domain, create_hashed, handle_create_account,
}
use skybeam_mail.System.{Watched, Statement, executed, statement_leaves}
use skybeam_mail.System.Keeps.{IsInvariant, Kept, exec-Kept, query-Kept}

module _ (env : Env) (P : Store → Type 0) {watched : Watched} (i : IsInvariant env watched P) where
  pub handle_list_domains-Kept :
      (closes : Bool) (scans : DomainRow → Bool) (before : Text → Text → Bool)
      → Kept env P (handle_list_domains env closes scans before)
  unfolding handle_list_domains
  handle_list_domains-Kept closes scans before w h = query-Kept env P _ _ w h

  pub handle_create_domain-Kept : (b : Option Text) → Kept env P (handle_create_domain env b)
  unfolding handle_create_domain executed statement_leaves
  handle_create_domain-Kept none w h = h
  handle_create_domain-Kept (some name) w h =
      ground (arith, exec-Kept env P i (Statement.domain_inserted name) refl w h)

  pub handle_delete_domain-Kept : (id : Option ℕ) → Kept env P (handle_delete_domain env id)
  unfolding handle_delete_domain executed statement_leaves
  handle_delete_domain-Kept id w h = exec-Kept env P i (Statement.domain_deleted id) refl w h

  pub handle_list_accounts-Kept :
      (closes : Bool) (scans : AccountRow → Bool) (before : Text → Text → Bool)
      → Kept env P (handle_list_accounts env closes scans before)
  unfolding handle_list_accounts
  handle_list_accounts-Kept closes scans before w h = query-Kept env P _ _ w h

  create_hashed-Kept :
      (b : AccountBody) (hash : Option Text) → Kept env P (create_hashed env b hash)
  unfolding create_hashed executed statement_leaves
  create_hashed-Kept b none w h = h
  create_hashed-Kept b (some hash) w h =
      exec-Kept env P i (Statement.account_inserted b hash) refl w h

  pub handle_create_account-Kept :
      (c : Crypto) (b : Option AccountBody) → Kept env P (handle_create_account env c b)
  unfolding handle_create_account
  handle_create_account-Kept c none w h = h
  handle_create_account-Kept c (some b) w h =
      ground (arith, create_hashed-Kept b (c.bcrypt_hash b.password) w h)
