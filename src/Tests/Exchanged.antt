-- ===== src/Tests/Exchanged.antt =====
-- A status request and its reply, over the rounds of the timer.
use lorawanatd_canarin.Base.{[], ◌∷◌, List, Bytes, codes}
use lorawanatd_canarin.Command.Types.{Command, cmd_new, zeroed}
use lorawanatd_canarin.State.{Lw, Env, HttpClient, http_client_request_complete}
use lorawanatd_canarin.Http.Listing.{Answered}
use lorawanatd_canarin.Exchange.Turns.{Turn}
use lorawanatd_canarin.Tests.Samples.{
  calm, cmd_of, client_of, with_http, status_def, get_deui_def, saved_ctx,
}

abbrev asked_status : Command
asked_status = cmd_of status_def zeroed cmd_new []

-- A client with two commands.
abbrev asked_deui : Command
asked_deui = cmd_of get_deui_def zeroed cmd_new []

abbrev two_client : HttpClient
two_client = client_of 3 http_client_request_complete (asked_status ∷ asked_deui ∷ [])

abbrev two_lw : Lw
two_lw = with_http (two_client ∷ []) saved_ctx

-- The answer comes in two pieces.
abbrev pieces : List (Env × Bytes)
pieces = (calm 12, codes "\r\nO") ∷ (calm 13, codes "K\r\n") ∷ []

abbrev status_turn : Turn
status_turn = record {
  cmd = asked_status;
  text = codes "AT";
  e₁ = calm 10;
  e₂ = calm 11;
  rs = pieces;
}

abbrev deui_turn : Turn
deui_turn = record {
  cmd = asked_deui;
  text = codes "AT+DEUI=?";
  e₁ = calm 14;
  e₂ = calm 15;
  rs = (calm 16, codes "\r\n0011\r\nOK\r\n") ∷ [];
}
