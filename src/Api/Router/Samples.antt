-- ===== src/Api/Router/Samples.antt =====
-- A small outside world for requests to the API, and a request.
use skybeam_mail.Prelude.{true, false, none, some, [], codes}
use skybeam_mail.Store.Samples.{calm_env}
use skybeam_mail.Auth.Samples.{plain_crypto}
use skybeam_mail.Api.Response.{respond, empty}
use skybeam_mail.Api.Middleware.{Request}
use skybeam_mail.Api.Router.{Outside, Incoming}

abbrev pub outside : Outside
outside = record {
  env = calm_env;
  crypto = plain_crypto;
  unicode_lower = λ t. t;
  before = λ s t. true;
  full_text = record { matches = λ q r. true; rank = λ q r. 0 };
  meets = λ rows. rows;
  closes = true;
  partial = λ r. r;
  scans_domain = λ d. false;
  scans_account = λ a. false;
  ui_mounted = true;
  file_server = λ dir path. respond 200 empty;
}

-- A request that marks message 11 as deleted.
abbrev pub incoming : Incoming
incoming = record {
  path = [];
  id = some 11;
  name = [];
  thread_id = [];
  permanent = codes "true";
  limit = [];
  after_id = [];
  list_query = record { folder = []; limit = []; page = []; unread_only = [] };
  search_query = record { q = []; folder = []; limit = [] };
  login_body = none;
  folder_body = none;
  update_body = none;
  domain_body = none;
  account_body = none;
}

abbrev pub bearer : Request
bearer = record { method = codes "DELETE"; authorization = codes "Bearer t"; account = none }
