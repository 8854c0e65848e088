-- ===== src/Http/Late.antt =====
-- A command that is late ends: its client goes on to the next one.
use lorawanatd_canarin.Base.{◌≡◌, refl, List}
use lorawanatd_canarin.Command.Types.{Command}
use lorawanatd_canarin.State.{
  Lw, Env, HttpClient, HttpClientState, http_client_request_complete, http_client_active,
  http_client_error, http_client_disconnected,
}
use lorawanatd_canarin.Http.Process.{process_complete, by_state}

pub by_state_complete :
    (s : HttpClientState) (env : Env) (client : HttpClient) (clients : List HttpClient) (lw : Lw)
    → s ≡ http_client_request_complete
    → by_state s env client clients lw ≡ process_complete env client clients lw
by_state_complete http_client_request_complete env client clients lw e = refl
by_state_complete http_client_active env client clients lw e = absurd (cc)
by_state_complete http_client_error env client clients lw e = absurd (cc)
by_state_complete http_client_disconnected env client clients lw e = absurd (cc)
