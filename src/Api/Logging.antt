-- ===== src/Api/Logging.antt =====
-- internal/api/middleware/logging.go: the line that is logged for a request. The id of the request and
-- the remote address, which come from chi, are left out.
mod Tests
use skybeam_mail.Prelude.{ℕ, ◌-◌, ◌≡◌, refl, sym, ◌∙◌, Option, none, some, Text}
use skybeam_mail.Prelude.Int.{ℤ}
use skybeam_mail.Store.World.{Env, World, M, pure, ◌>>=◌, time_now}
use skybeam_mail.Api.Response.{Response, respond, respond_error, panic}
use skybeam_mail.Api.Middleware.{Request, Handler, cors}
use skybeam_mail.Api.Router.{Outside, Incoming, Matched, dispatch, recover, serve}

pub record LogLine : Type 0 where
  pub method : Text
  pub path : Text
  pub status : ℕ
  pub latency : ℕ

-- `ww.Status()`: none where the panic of the handler passes by before it is read.
unfoldable pub status_of : Response → Option ℕ
status_of (respond status body) = some status
status_of (respond_error status code) = some status
status_of panic = none

unfoldable pub line_of : Text → Request → ℕ → Option ℕ → Option LogLine
line_of path r latency none = none
line_of path r latency (some status) =
    some (record { method = r.method; path = path; status = status; latency = latency })

-- `Logger` round a handler: the response, and the line, if the handler does not panic.
unfoldable pub logger : Env → Text → Handler → Request → M (Response × Option LogLine)
logger env path next r = do
  start ← time_now env
  response ← next r
  end ← time_now env
  pure (response, line_of path r (end - start) (status_of response))

-- A request to the whole API: Logger stands outside Recoverer.
unfoldable pub serve_logged :
    Outside → ℤ → Incoming → Matched → Request → M (Response × Option LogLine)
serve_logged o days q m = logger o.env q.path (serve o days q m)

-- A response that Recoverer lets pass has a status.
recovered : (answer : Response) → (status : ℕ) × (status_of (recover answer) ≡ some status)
unfolding recover status_of
recovered (respond status body) = (status, refl)
recovered (respond_error status code) = (status, refl)
recovered panic = (500, refl)

-- Whatever route a request meets, whatever becomes of its calls and also where a handler panics: one
-- line is logged for it, with its method and path and the status of the response, and logging changes
-- neither the response nor the database.
pub serve_logged-line :
    (o : Outside) (days : ℤ) (q : Incoming) (m : Matched) (r : Request) (w : World)
    → let out = serve_logged o days q m r w in
      (line : LogLine) × (out.0.1 ≡ some line)
      × (line.method ≡ r.method)
      × (line.path ≡ q.path)
      × (status_of out.0.0 ≡ some line.status)
      × (out.0.0 ≡ (serve o days q m r w).0)
      × (out.1 ≡ (serve o days q m r w).1)
unfolding serve_logged logger line_of serve time_now
serve_logged-line o days q m r w =
    let (answer, v) = cors (dispatch o days q m) r w in
    let (status, found) = recovered answer in
    let latency = (o.env.tick v.calls).now - (o.env.tick w.calls).now in
    (
      record { method = r.method; path = q.path; status = status; latency = latency },
      rw found refl,
      refl,
      refl,
      found,
      refl,
      refl,
    )
