-- ===== src/Api/Logging/Tests.antt =====
-- internal/api/middleware/logging.go: the line of a request.
use skybeam_mail.Prelude.{◌≡◌, some}
use skybeam_mail.Prelude.Int.{pos}
use skybeam_mail.Store.Samples.{small_world}
use skybeam_mail.Api.Router.{Matched, serve}
use skybeam_mail.Api.Router.Samples.{outside, incoming, bearer}
use skybeam_mail.Api.Logging.{LogLine, status_of, serve_logged, serve_logged-line}

serve_logged-line_example :
    let out = serve_logged outside (pos 30) incoming (Matched.at 12) bearer small_world in
    let served = serve outside (pos 30) incoming (Matched.at 12) bearer small_world in
    (line : LogLine) × (out.0.1 ≡ some line)
    × (line.method ≡ bearer.method)
    × (line.path ≡ incoming.path)
    × (status_of out.0.0 ≡ some line.status)
    × (out.0.0 ≡ served.0)
    × (out.1 ≡ served.1)
serve_logged-line_example =
    serve_logged-line outside (pos 30) incoming (Matched.at 12) bearer small_world
