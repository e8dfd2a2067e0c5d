-- ===== src/Api/Tests.antt =====
-- Requests to the API on a small database.
use skybeam_mail.Prelude.{
  ◌≡◌, refl, ◌≢◌, true, none, some, [], ◌∷◌, ◌==◌, if◌then◌else◌, Text, codes, text_eq, trim_space,
  trim_left, is_space, arith,
}
use skybeam_mail.Prelude.Int.{pos, wrap64}
use skybeam_mail.Prelude.Decimal.{atoi}
use skybeam_mail.Store.Samples.{calm_env, small_world, inbox_message}
use skybeam_mail.Store.Table.{select, find, update, order_by, place}
use skybeam_mail.Store.World.{Env, Wire, query, exec, time_now}
use skybeam_mail.Auth.{
  account_of, hex, hex_digit, hash_token, generate_token, insert_session, store_session,
  check_password, login,
}
use skybeam_mail.Auth.Samples.{plain_crypto, ann, one_second}
use skybeam_mail.Api.Response.{respond, page, token, no_content}
use skybeam_mail.Api.Middleware.{Request, split_space, fold, is_bearer}
use skybeam_mail.Api.AuthHandler.{
  LoginBody, to_lower, lower_ascii, login_response, handle_login, login_email,
}
use skybeam_mail.Api.Messages.{
  list_response, folder_of, select_page, listed, scans_summary, summary, ListQuery, UpdateBody,
  handle_list, handle_update, handle_delete, has_id,
}
use skybeam_mail.Api.Query.{clamp_limit, clamp_page, offset_of, scan_rows}
use skybeam_mail.Api.Messages.Isolation.{handle_update-isolated, handle_delete-isolated}
use skybeam_mail.Api.Messages.Failures.{handle_update-unchecked}
use skybeam_mail.Watcher.Scan.Keys.{not_of}

-- A request with this Authorization header.
abbrev get : Text → Request
get header = record { method = codes "GET"; authorization = header; account = none }

bearer_scheme : is_bearer (codes "Bearer") ≡ true
unfolding is_bearer fold text_eq
bearer_scheme = refl

-- A second space stands before the token.
spaced_header : split_space (codes "Bearer  t") ≡ (codes "Bearer", some (codes " t"))
unfolding split_space
spaced_header = refl

spaced_token : trim_space (codes " t") ≡ codes "t"
unfolding trim_space trim_left is_space
spaced_token = refl

spaced_differs :
    hash_token plain_crypto (codes " t") ≢ hash_token plain_crypto (trim_space (codes " t"))
unfolding hash_token hex hex_digit
spaced_differs e = let f = rw spaced_token at e in ground arith

abbrev all_mail : ListQuery
all_mail = record { folder = []; limit = []; page = []; unread_only = [] }

abbrev starred : UpdateBody
starred = record { is_read = none; is_starred = some true; folder = none; labels = [] }

handle_update-isolated_example :
    select
      (not_of ann.id)
      (handle_update calm_env ann (some 11) (some starred) small_world).1.db.messages
    ≡ select (not_of ann.id) small_world.db.messages
handle_update-isolated_example =
    handle_update-isolated calm_env ann 11 starred small_world refl (refl, (refl, tt))

handle_delete-isolated_example :
    select
      (not_of ann.id)
      (handle_delete calm_env ann (some 11) (codes "true") small_world).1.db.messages
    ≡ select (not_of ann.id) small_world.db.messages
handle_delete-isolated_example =
    handle_delete-isolated calm_env ann 11 (codes "true") small_world refl (refl, (refl, tt))

-- The first call does not reach the database.
abbrev first_dropped : Env
first_dropped = record calm_env {
  tick =
      λ n. record { wire = if n == 0 then Wire.dropped else Wire.answered; now = n; read = none };
}

handle_update-unchecked_example :
    let b : UpdateBody = record {
      is_read = some true;
      is_starred = none;
      folder = none;
      labels = [];
    } in
    ((handle_update first_dropped ann (some 11) (some b) small_world).0 ≡ no_content)
    × ((handle_update first_dropped ann (some 11) (some b) small_world).1.db.messages
        ≡ update (has_id 11) (λ r. record r { is_read = true }) small_world.db.messages)
handle_update-unchecked_example =
    handle_update-unchecked first_dropped ann 11 true none [] small_world refl refl

-- A login of Ann, with capital letters and white space in the email.
abbrev ann_body : LoginBody
ann_body = record { email = codes " ANN"; password = codes "pw" }

ann_lower : login_email (λ t. t) ann_body ≡ codes "ann"
unfolding login_email to_lower lower_ascii trim_space trim_left is_space
ann_lower = refl

ann_logged_in :
    (handle_login calm_env plain_crypto (λ t. t) one_second (some ann_body) small_world).0
    ≡ respond 200 (token (hex (0xab ∷ [])) ann)
unfolding handle_login login login_response check_password store_session generate_token query exec
    time_now insert_session find text_eq
ann_logged_in = rw ann_lower refl

-- The page of Ann's one message.
ann_page :
    (handle_list calm_env (λ rows. rows) true ann all_mail small_world).0
    ≡ respond 200 (page (summary (inbox_message 10 1 b'8') ∷ []) (pos 1) (pos 50))
unfolding handle_list list_response folder_of select_page listed order_by place select clamp_limit
    clamp_page offset_of scan_rows scans_summary summary wrap64 atoi query text_eq account_of
ann_page = refl
