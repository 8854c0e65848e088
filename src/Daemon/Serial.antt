-- ===== src/Daemon/Serial.antt =====
-- The board is used by one command at a time: no callback of the event loop lets a second
-- command execute.
use lorawanatd_canarin.Base.{
  ℕ, ◌≡◌, refl, subst, sym, ◌∙◌, true, false, List, [], ◌∷◌, ◌++◌, Bytes, Option, none, some, ok,
  Ensures, returns, faults, Ensures->>=, Ensures-ok, Ensures-mono, Bool-cases, inl, inr, arith,
  ◌==◌,
}
use lorawanatd_canarin.LwanContext.{LwanContext}
use lorawanatd_canarin.Command.Types.{Command, cmd_new}
use lorawanatd_canarin.Command.Order.{
  is_resting, in_order, in_order-append, is_resting-append, all_new-cons, all_new,
}
use lorawanatd_canarin.State.{Lw, Env, HttpClient, PushClient}
use lorawanatd_canarin.Clients.{
  is_disconnected, stailq_remove, free_http_client, remove_disconnected_from,
  remove_disconnected_http_clients,
}
use lorawanatd_canarin.Push.{
  ReadResult, remove_disconnected_push_clients, close_disconnected, on_accept_push,
}
use lorawanatd_canarin.Context.File.{reset_lwan_ctx, read_context}
use lorawanatd_canarin.Context.Event.{context_manager_init}
use lorawanatd_canarin.Context.Order.{AllResting, restore_firmware_context-rests, stailq_remove-All}
use lorawanatd_canarin.Uart.Order.{
  IsSerial, KeepsSerial, IsSerial-AllResting, IsSerial-append, uart_io-serial,
}
use lorawanatd_canarin.Uart.Start.{process_cmd-serial}
use lorawanatd_canarin.Http.Order.{process_http_clients-serial}
use lorawanatd_canarin.Http.Read.{on_accept_http, on_read_http}
use lorawanatd_canarin.Http.ReadOrder.{on_read_http-Keeps}
use lorawanatd_canarin.Http.Request.{PhrParser}
use lorawanatd_canarin.Http.Json.{JsmnParser}
use lorawanatd_canarin.Daemon.Steps.{
  Step, timer, http_accept, http_read, push_accept, push_read, Reach, started, next, cb_timer, boot,
  blank,
}

stailq_remove-IsSerial :
    (id : ℕ) (cs : List HttpClient) → IsSerial cs → Ensures IsSerial (stailq_remove id cs)
unfolding stailq_remove
stailq_remove-IsSerial id [] h = faults
stailq_remove-IsSerial id (c ∷ cs) h = elim (Bool-cases (c.id == id)) [
  | inl hit ↦ rw (hit, stailq_remove) (returns cs (IsSerial-AllResting cs h.1))
  | inr miss ↦
      rw (miss, stailq_remove)
        (Ensures->>= (stailq_remove-All id cs h.1) λ cs' rest. returns (c ∷ cs') (h.0, rest))
]

free_http_client-serial :
    (client : HttpClient) (lw : Lw) → IsSerial lw.http → KeepsSerial (free_http_client client lw)
unfolding free_http_client
free_http_client-serial client lw h =
    Ensures->>= (stailq_remove-IsSerial client.id lw.http h) λ rest kept. returns _ kept

remove_disconnected_from-serial :
    (cs : List HttpClient) (lw : Lw)
    → IsSerial lw.http
    → KeepsSerial (remove_disconnected_from cs lw)
unfolding remove_disconnected_from
remove_disconnected_from-serial [] lw h = returns lw h
remove_disconnected_from-serial (c ∷ cs) lw h = elim (Bool-cases (is_disconnected c.state)) [
  | inl gone ↦
      rw (gone, remove_disconnected_from)
        (Ensures->>= (free_http_client-serial c lw h) (remove_disconnected_from-serial cs))
  | inr here ↦ rw (here, remove_disconnected_from) (remove_disconnected_from-serial cs lw h)
]

pub close_disconnected-http :
    (cs : List PushClient) (lw : Lw) → (close_disconnected cs lw).http ≡ lw.http
unfolding close_disconnected
close_disconnected-http [] lw = refl
close_disconnected-http (c ∷ cs) lw = close_disconnected-http cs _ ∙ ground arith

remove_push-IsSerial :
    (lw : Lw) → IsSerial lw.http → IsSerial (remove_disconnected_push_clients lw).http
unfolding remove_disconnected_push_clients
remove_push-IsSerial lw h = subst IsSerial (sym (close_disconnected-http lw.push lw)) h

cb_timer-serial :
    (env : Env) (input : Bytes) (lw : Lw) → IsSerial lw.http → KeepsSerial (cb_timer env input lw)
unfolding cb_timer remove_disconnected_http_clients
cb_timer-serial env input lw h =
    Ensures->>=
      (remove_disconnected_from-serial (remove_disconnected_push_clients lw).http
        (remove_disconnected_push_clients lw) (remove_push-IsSerial lw h))
      λ lw₁ h₁. Ensures->>= (process_http_clients-serial env lw₁ h₁) λ lw₂ h₂.
        Ensures->>= (process_cmd-serial env lw₂ h₂) λ lw₃ h₃. uart_io-serial env input lw₃ h₃

-- A read changes one client, wherever it stands.
AllResting-at :
    (before : List HttpClient) (client client' : HttpClient) (after : List HttpClient)
    → (is_resting client.cmdq ≡ true → is_resting client'.cmdq ≡ true)
    → AllResting (before ++ client ∷ after)
    → AllResting (before ++ client' ∷ after)
AllResting-at [] client client' after keeps h = (keeps h.0, h.1)
AllResting-at (c ∷ before) client client' after keeps h =
    (h.0, AllResting-at before client client' after keeps h.1)

IsSerial-at :
    (before : List HttpClient) (client client' : HttpClient) (after : List HttpClient)
    → (in_order client.cmdq ≡ true → in_order client'.cmdq ≡ true)
    → (is_resting client.cmdq ≡ true → is_resting client'.cmdq ≡ true)
    → IsSerial (before ++ client ∷ after)
    → IsSerial (before ++ client' ∷ after)
IsSerial-at [] client client' after ordered rested h = (ordered h.0, h.1)
IsSerial-at (c ∷ before) client client' after ordered rested h =
    (h.0, AllResting-at before client client' after rested h.1)

one_new : (c : Command) → c.state ≡ cmd_new → all_new (c ∷ []) ≡ true
one_new c new = all_new-cons c [] new (unfold all_new in refl)

read-in_order :
    (phr : PhrParser) (jsmn : JsmnParser) (r : ReadResult) (client client' : HttpClient)
    → on_read_http phr jsmn r client ≡ ok client'
    → in_order client.cmdq ≡ true
    → in_order client'.cmdq ≡ true
read-in_order phr jsmn r client client' e h =
    Ensures-ok
      (on_read_http-Keeps (λ q. in_order q ≡ true)
        (λ cmds c ordered new. in_order-append cmds (c ∷ []) ordered (one_new c new)) phr jsmn r
        client h)
      e

read-is_resting :
    (phr : PhrParser) (jsmn : JsmnParser) (r : ReadResult) (client client' : HttpClient)
    → on_read_http phr jsmn r client ≡ ok client'
    → is_resting client.cmdq ≡ true
    → is_resting client'.cmdq ≡ true
read-is_resting phr jsmn r client client' e h =
    Ensures-ok
      (on_read_http-Keeps (λ q. is_resting q ≡ true)
        (λ cmds c rested new. is_resting-append cmds (c ∷ []) rested (one_new c new)) phr jsmn r
        client h)
      e

-- Each callback keeps the clients in order.
pub Step-IsSerial :
    {phr : PhrParser} {jsmn : JsmnParser} {lw lw' : Lw}
    → Step phr jsmn lw lw'
    → IsSerial lw.http
    → IsSerial lw'.http
unfolding on_accept_http on_accept_push
Step-IsSerial {lw = lw} (timer env input e) h = Ensures-ok (cb_timer-serial env input lw h) e
Step-IsSerial {lw = lw} (http_accept fd) h = IsSerial-append lw.http _ h (unfold is_resting in refl)
Step-IsSerial {phr} {jsmn} (http_read before client client' after result at remote fits e) h =
    IsSerial-at before client client' after (read-in_order phr jsmn result client client' e)
      (read-is_resting phr jsmn result client client' e) (subst IsSerial at h)
Step-IsSerial (push_accept fd) h = h
Step-IsSerial (push_read before client after result at) h = h

boot-serial : (file : Option LwanContext) → KeepsSerial (boot file)
unfolding boot context_manager_init read_context reset_lwan_ctx
boot-serial none =
    Ensures-mono (λ lw h. IsSerial-AllResting lw.http h)
      (restore_firmware_context-rests (read_context (reset_lwan_ctx false (blank none))) tt)
boot-serial (some ctx) =
    Ensures-mono (λ lw h. IsSerial-AllResting lw.http h)
      (restore_firmware_context-rests (read_context (reset_lwan_ctx false (blank (some ctx)))) tt)

-- In every state that the daemon comes to, no client but the first of the queue has a command
-- that is executing, that one has at most one, and everywhere the commands that are done stand
-- before the one that is executing and this one before the new ones.
pub Reach-IsSerial :
    {phr : PhrParser} {jsmn : JsmnParser} {lw : Lw} → Reach phr jsmn lw → IsSerial lw.http
Reach-IsSerial (started file e) = Ensures-ok (boot-serial file) e
Reach-IsSerial (next before step) = Step-IsSerial step (Reach-IsSerial before)
