-- ===== src/Http/Route.antt =====
-- `get_action_from_http_request`: the action that a method and a path ask for.
use lorawanatd_canarin.Base.{Bool, ◌&&◌, List, [], ◌∷◌, Bytes, codes, strncmp_eq, if◌then◌else◌}
use lorawanatd_canarin.State.{
  HttpAction, HttpRequest, http_undefined, http_reset, http_hard_reset, http_status, http_join,
  http_get_config, http_set_config, http_send_data, http_sendb_data, http_force_update,
}

pub record Route : Type 0 where
  pub method : Bytes
  pub path : Bytes
  pub action : HttpAction

abbrev get : Bytes → HttpAction → Route
get path action = record { method = codes "GET"; path = path; action = action }

abbrev post : Bytes → HttpAction → Route
post path action = record { method = codes "POST"; path = path; action = action }

-- The tests of the function, in their order.
abbrev pub routes : List Route
routes =
    get (codes "/reset") http_reset
    ∷ get (codes "/hard_reset") http_hard_reset
    ∷ get (codes "/status") http_status
    ∷ get (codes "/join") http_join
    ∷ get (codes "/force_update") http_force_update
    ∷ post (codes "/config/get") http_get_config
    ∷ post (codes "/config/set") http_set_config
    ∷ post (codes "/send") http_send_data
    ∷ post (codes "/sendb") http_sendb_data
    ∷ []

-- Both comparisons stop at the length of what the client sent.
unfoldable pub matches : Route → HttpRequest → Bool
matches route request =
    strncmp_eq route.method request.method request.method_len
    && strncmp_eq route.path request.path request.path_len

unfoldable pub first_match : List Route → HttpRequest → HttpAction
unfolding matches strncmp_eq
first_match [] request = http_undefined
first_match (r ∷ rs) request = if matches r request then r.action else first_match rs request

unfoldable pub get_action_from_http_request : HttpRequest → HttpAction
unfolding first_match
get_action_from_http_request request = first_match routes request
