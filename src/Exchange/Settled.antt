-- ===== src/Exchange/Settled.antt =====
-- Rounds of the timer in which no client has gone away.
use lorawanatd_canarin.Base.{◌≡◌, refl, ap, true, false, List, [], ◌∷◌, Bytes, ok, All}
use lorawanatd_canarin.State.{
  Lw, Env, HttpClient, HttpClientState, PushClient, http_client_request_complete,
}
use lorawanatd_canarin.Clients.{
  is_disconnected, remove_disconnected_from, remove_disconnected_http_clients,
}
use lorawanatd_canarin.Push.{
  is_active, keep_connected, close_disconnected, remove_disconnected_push_clients,
}
use lorawanatd_canarin.Uart.Rx.{uart_io}
use lorawanatd_canarin.Uart.Run.{process_cmd}
use lorawanatd_canarin.Http.Process.{process_http_clients}
use lorawanatd_canarin.Daemon.Steps.{cb_timer}

-- No client has gone away.
abbrev pub IsSettled : List PushClient → List HttpClient → Type 0
IsSettled push clients =
    All (λ (c : PushClient). is_active c.state ≡ true) push
    × All (λ (c : HttpClient). is_disconnected c.state ≡ false) clients

keep_connected-settled :
    (cs : List PushClient)
    → All (λ (c : PushClient). is_active c.state ≡ true) cs
    → keep_connected cs ≡ cs
unfolding keep_connected
keep_connected-settled [] h = refl
keep_connected-settled (c ∷ cs) h =
    rw (h.0, keep_connected) (ap (◌∷◌ c) (keep_connected-settled cs h.1))

close_disconnected-settled :
    (cs : List PushClient) (lw : Lw)
    → All (λ (c : PushClient). is_active c.state ≡ true) cs
    → close_disconnected cs lw ≡ lw
unfolding close_disconnected
close_disconnected-settled [] lw h = refl
close_disconnected-settled (c ∷ cs) lw h =
    rw (h.0, close_disconnected) (close_disconnected-settled cs lw h.1)

remove_from-settled :
    (cs : List HttpClient) (lw : Lw)
    → All (λ (c : HttpClient). is_disconnected c.state ≡ false) cs
    → remove_disconnected_from cs lw ≡ ok lw
unfolding remove_disconnected_from
remove_from-settled [] lw h = refl
remove_from-settled (c ∷ cs) lw h =
    rw (h.0, remove_disconnected_from) (remove_from-settled cs lw h.1)

-- A round is the three functions that it calls.
pub cb_timer-settled :
    (env : Env) (input : Bytes) (lw : Lw) {lw₁ lw₂ lw₃ : Lw}
    → IsSettled lw.push lw.http
    → process_http_clients env lw ≡ ok lw₁
    → process_cmd env lw₁ ≡ ok lw₂
    → uart_io env input lw₂ ≡ ok lw₃
    → cb_timer env input lw ≡ ok lw₃
unfolding cb_timer remove_disconnected_push_clients remove_disconnected_http_clients
cb_timer-settled env input lw {lw₁} {lw₂} (active, connected) watched started moved =
    rw (close_disconnected-settled lw.push lw active) (
      rw (keep_connected-settled lw.push active)
        (rw (remove_from-settled lw.http lw connected) (rw watched (rw started moved))))

pub complete-connected :
    (s : HttpClientState) → s ≡ http_client_request_complete → is_disconnected s ≡ false
complete-connected s e = rw e refl
