-- ===== src/Api/Admin/Tests.antt =====
-- internal/api/handlers/admin.go: an account made on a small database, and its login.
use skybeam_mail.Prelude.{
  ◌≡◌, refl, true, false, some, [], ◌∷◌, Text, codes, text_eq, text_eq_iff, trim_space, trim_left,
  is_space,
}
use skybeam_mail.Store.Samples.{calm_env, small_world}
use skybeam_mail.Store.World.{exec}
use skybeam_mail.Auth.{account_of, hex}
use skybeam_mail.Auth.Samples.{plain_crypto, one_second}
use skybeam_mail.Api.Response.{respond, token}
use skybeam_mail.Api.AuthHandler.{LoginBody, login_email, to_lower, lower_ascii, handle_login}
use skybeam_mail.Api.Admin.{
  AccountBody, account_row, insert_account, created_response, create_hashed, handle_create_account,
}
use skybeam_mail.Api.Admin.Accounts.{created, handle_create_account-login}

abbrev bob : AccountBody
bob = record {
  email = codes "bob";
  password = codes "key";
  display_name = codes "Bob";
  is_admin = false;
}

abbrev bob_login : LoginBody
bob_login = record { email = codes "bob"; password = codes "key" }

bob_plain : login_email (λ t. t) bob_login ≡ codes "bob"
unfolding login_email to_lower lower_ascii trim_space trim_left is_space
bob_plain = refl

bob_made : (handle_create_account calm_env plain_crypto (some bob) small_world).0 ≡ created
unfolding handle_create_account create_hashed created_response insert_account exec text_eq
bob_made = refl

own_hash : (p h : Text) → some p ≡ some h → text_eq h p ≡ true
own_hash p h e = (text_eq_iff h p).1 (cc)

handle_create_account-login_example :
    (hash : Text) × (some (codes "key") ≡ some hash)
    × ((handle_login calm_env plain_crypto
          (λ t. t)
          one_second
          (some bob_login)
          (handle_create_account calm_env plain_crypto (some bob) small_world).1).0
        ≡ respond 200 (token (hex (0xab ∷ [])) (account_of (account_row bob hash 12))))
handle_create_account-login_example =
    handle_create_account-login calm_env plain_crypto (λ t. t) one_second bob (0xab ∷ [])
      small_world (λ n. refl) own_hash refl bob_plain refl bob_made
