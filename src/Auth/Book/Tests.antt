-- ===== src/Auth/Book/Tests.antt =====
-- internal/auth/service.go: a login, two checks of its token and the logout between them.
use skybeam_mail.Prelude.{◌≡◌, refl, some, List, [], ◌∷◌, codes}
use skybeam_mail.Store.Samples.{calm_env, small_world}
use skybeam_mail.Auth.{hex}
use skybeam_mail.Auth.Samples.{plain_crypto, one_second}
use skybeam_mail.Auth.Book.{book_of, Call, calls, promises}
use skybeam_mail.Auth.Book.Refines.{calls-promised}

abbrev visit : List Call
visit =
    Call.log_in (some (0xab ∷ [])) (codes "ann") (codes "pw")
    ∷ Call.verify (hex (0xab ∷ []))
    ∷ Call.log_out (hex (0xab ∷ []))
    ∷ Call.verify (hex (0xab ∷ []))
    ∷ []

calls-promised_example :
    let out = calls calm_env plain_crypto one_second visit small_world in
    let want =
      promises calm_env plain_crypto one_second small_world.db.accounts visit small_world
        (book_of small_world.db.sessions) in
    (out.0 ≡ want.0) × (book_of out.1.db.sessions ≡ want.1)
calls-promised_example =
    calls-promised calm_env (λ n. refl) plain_crypto one_second visit small_world
