-- ===== src/Api/Router/Tests.antt =====
-- internal/api/router.go: requests to the whole API on a small database.
use skybeam_mail.Prelude.{◌≡◌, refl, true, false, some, codes}
use skybeam_mail.Prelude.Int.{pos}
use skybeam_mail.Store.Samples.{small_world}
use skybeam_mail.Api.Router.{Group, Endpoint, route, routes, Matched, nth, dispatch}
use skybeam_mail.Api.Router.Samples.{outside, incoming, bearer}
use skybeam_mail.Api.Router.Guarded.{is_public, Served, dispatch-Served}
use skybeam_mail.Api.Router.Answers.{answers}
use skybeam_mail.Api.Router.Quiet.{dispatch-Answers}

delete_route :
    nth 12 routes
    ≡ some (
        route
          (codes "DELETE")
          (codes "/api/v1/messages/{id}")
          Group.session
          Endpoint.delete_message)
unfolding nth routes
delete_route = refl

delete_private : is_public Endpoint.delete_message ≡ false
unfolding is_public
delete_private = refl

dispatch-Served_example :
    Served outside
      (pos 30)
      incoming
      bearer
      small_world
      Endpoint.delete_message
      (dispatch outside (pos 30) incoming (Matched.at 12) bearer small_world)
dispatch-Served_example =
    dispatch-Served outside (pos 30) incoming bearer small_world 12
      (route (codes "DELETE") (codes "/api/v1/messages/{id}") Group.session Endpoint.delete_message)
      delete_route delete_private

dispatch-Answers_example :
    answers (dispatch outside (pos 30) incoming (Matched.at 12) bearer small_world).0 ≡ true
dispatch-Answers_example =
    dispatch-Answers outside (pos 30) incoming (λ dir path. refl) 12 bearer small_world
