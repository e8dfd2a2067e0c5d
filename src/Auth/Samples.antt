-- ===== src/Auth/Samples.antt =====
-- A stand-in for the cryptography, with which the tests run: a password is its own hash, and so is a
-- token.
use skybeam_mail.Prelude.{◌≡◌, refl, some, [], ◌∷◌, codes, text_eq}
use skybeam_mail.Prelude.Int.{ℤ, pos}
use skybeam_mail.Store.Samples.{ann_row, calm_env, small_world}
use skybeam_mail.Store.Table.{find}
use skybeam_mail.Store.World.{query, exec, time_now}
use skybeam_mail.Auth.{
  Account, Crypto, account_of, hex, generate_token, logged_in, insert_session, store_session,
  check_password, login,
}

abbrev pub plain_crypto : Crypto
plain_crypto = record {
  bcrypt_hash = λ password. some password;
  bcrypt_matches = λ hash password. text_eq hash password;
  sha256 = λ token. token;
  random = some (0xab ∷ []);
}

abbrev pub ann : Account
ann = account_of ann_row

abbrev pub one_second : ℤ
one_second = pos 1_000_000_000

pub login-ann :
    (login calm_env plain_crypto one_second (codes "ann") (codes "pw") small_world).0
    ≡ logged_in (hex (0xab ∷ [])) ann
unfolding login check_password store_session generate_token query exec time_now insert_session find
    text_eq
login-ann = refl
