-- ===== src/Auth/Tests.antt =====
-- A login, a check of its token and a logout on a small database.
use skybeam_mail.Prelude.{◌≡◌, refl, false, [], ◌∷◌, codes, text_eq}
use skybeam_mail.Store.Samples.{calm_env, small_world}
use skybeam_mail.Store.World.{exec}
use skybeam_mail.Auth.{create_admin, upsert_admin, hex, login}
use skybeam_mail.Auth.Samples.{plain_crypto, ann, one_second, login-ann}
use skybeam_mail.Auth.Enters.{Enters, login-Enters}

login-Enters_example :
    Enters plain_crypto one_second
      (codes "ann")
      (codes "pw")
      (hex (0xab ∷ []))
      ann
      1
      small_world.db
      (login calm_env plain_crypto one_second (codes "ann") (codes "pw") small_world).1.db
login-Enters_example =
    login-Enters calm_env plain_crypto one_second (codes "ann") (codes "pw") (hex (0xab ∷ [])) ann
      small_world login-ann

ann_promoted :
    (create_admin calm_env plain_crypto (codes "ann") (codes "new") small_world).0 ≡ false
unfolding create_admin upsert_admin exec text_eq
ann_promoted = refl
