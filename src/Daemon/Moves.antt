-- ===== src/Daemon/Moves.antt =====
-- The daemon as an implementation of the abstract machine of `Sessions`: each callback of the
-- event loop moves the clients as that machine may.
use lorawanatd_canarin.Base.{
  ℕ, ◌≡◌, refl, subst, sym, ap, ◌∙◌, append_assoc, append-nil, Bool, true, false, List, [], ◌∷◌,
  ◌++◌, Option, none, some, ok, Bytes, All, All-append, Ensures, returns, Ensures-ok, Ensures-mono,
  Bool-cases, inl, inr, arith, >>=-ok,
}
use lorawanatd_canarin.LwanContext.{LwanContext}
use lorawanatd_canarin.Command.Types.{Command, CmdState, cmd_new}
use lorawanatd_canarin.State.{
  Lw, Env, HttpClient, HttpClientState, PushClient, http_client_disconnected, http_client_active,
  http_client_error, http_client_request_complete,
}
use lorawanatd_canarin.Clients.{
  is_disconnected, close_client, stailq_remove, free_http_client, remove_disconnected_from,
  remove_disconnected_http_clients, create_http_client,
}
use lorawanatd_canarin.Clients.Removal.{Distinct, stailq_remove-at}
use lorawanatd_canarin.Push.{
  ReadResult, remove_disconnected_push_clients, close_disconnected, on_accept_push,
}
use lorawanatd_canarin.Context.File.{reset_lwan_ctx, read_context}
use lorawanatd_canarin.Context.Event.{context_manager_init}
use lorawanatd_canarin.Context.Moves.{restore_firmware_context-Makes}
use lorawanatd_canarin.Uart.ReadMoves.{uart_io-Makes}
use lorawanatd_canarin.Uart.StartMoves.{process_cmd-Makes}
use lorawanatd_canarin.Http.Moves.{process_http_clients-Makes}
use lorawanatd_canarin.Http.Read.{on_accept_http, on_read_http}
use lorawanatd_canarin.Http.ReadOrder.{on_read_http-Keeps}
use lorawanatd_canarin.Http.ReadSame.{on_read_http-Stays}
use lorawanatd_canarin.Http.Request.{PhrParser}
use lorawanatd_canarin.Http.Json.{JsmnParser}
use lorawanatd_canarin.Daemon.Steps.{
  Step, timer, http_accept, http_read, push_accept, push_read, Reach, started, next, cb_timer, boot,
  blank,
}
use lorawanatd_canarin.Sessions
use lorawanatd_canarin.Sessions.{Session, Sessions, Move, Moves, stay, one, Moves-trans}
use lorawanatd_canarin.Sessions.Valid.{IsValid, IsFine, Moves-IsValid, Move-IsValid}
use lorawanatd_canarin.Sessions.View.{
  states, session, sessions, view, Makes, Makes->>=, states-append, sessions-append, Distinct-Apart,
}

disconnected_state : (s : HttpClientState) → is_disconnected s ≡ true → s ≡ http_client_disconnected
disconnected_state http_client_disconnected h = refl
disconnected_state http_client_active h = absurd (cc)
disconnected_state http_client_error h = absurd (cc)
disconnected_state http_client_request_complete h = absurd (cc)

-- What is known of a client in a queue of which everything is.
IsFine-at :
    (n : ℕ) (before : List HttpClient) (c : HttpClient) (after : List HttpClient)
    → All (IsFine n) (sessions (before ++ c ∷ after))
    → IsFine n (session c)
IsFine-at n [] c after h = h.0
IsFine-at n (b ∷ before) c after h = IsFine-at n before c after h.1

module _ (before : List HttpClient) (c : HttpClient) (after : List HttpClient) (lw : Lw)
    (at : lw.http ≡ before ++ c ∷ after) (v : IsValid (view lw))
    (gone : c.state ≡ http_client_disconnected) where
  gone_remote : c.local ≡ false
  gone_remote =
      elim (IsFine-at lw.next_id before c after
        (subst (λ cs. All (IsFine lw.next_id) (sessions cs)) at v.0)).2 [
          | inl remote ↦ remote
          | inr complete ↦ absurd (cc)
        ]

  left : Move (view lw) (view (record lw { http = before ++ after }))
  left =
      Sessions.leave (sessions before) (session c) (sessions after) gone_remote (inr gone)
        (ap sessions at ∙ sessions-append before (c ∷ after)) (sessions-append before after) refl

  -- The client is found in the queue.
  free_at : free_http_client c lw ≡ ok (record (close_client c lw) { http = before ++ after })
  unfolding free_http_client
  free_at =
      >>=-ok (stailq_remove c.id lw.http) (λ rest. ok (record (close_client c lw) { http = rest }))
        (subst (λ cs. stailq_remove c.id cs ≡ ok (before ++ after)) (sym at)
          (stailq_remove-at before c after (subst Distinct at (Distinct-Apart lw.http v.1))))

remove_disconnected_from-Makes :
    (cs before : List HttpClient) (lw : Lw)
    → lw.http ≡ before ++ cs
    → IsValid (view lw)
    → Makes lw (remove_disconnected_from cs lw)
unfolding remove_disconnected_from
remove_disconnected_from-Makes [] before lw at v = returns lw stay
remove_disconnected_from-Makes (c ∷ cs) before lw at v =
    elim (Bool-cases (is_disconnected c.state)) [
      | inl gone ↦
          let e = disconnected_state c.state gone in
          let m = left before c cs lw at v e in
          rw (gone, remove_disconnected_from)
            (rw (free_at before c cs lw at v e) (
              rw (gone_remote before c cs lw at v e) (
                Ensures-mono (λ lw' ms. Moves-trans (one m) ms)
                  (remove_disconnected_from-Makes cs before _ refl (Move-IsValid m v)))))
      | inr here ↦
          rw (here, remove_disconnected_from)
            (remove_disconnected_from-Makes cs (before ++ c ∷ []) lw
              (at ∙ sym (append_assoc before (c ∷ []) cs)) v)
    ]

close_disconnected-view :
    (cs : List PushClient) (lw : Lw) → view (close_disconnected cs lw) ≡ view lw
unfolding close_disconnected
close_disconnected-view [] lw = refl
close_disconnected-view (c ∷ cs) lw = close_disconnected-view cs _ ∙ ground arith

remove_push-view : (lw : Lw) → view (remove_disconnected_push_clients lw) ≡ view lw
unfolding remove_disconnected_push_clients
remove_push-view lw = close_disconnected-view lw.push lw

cb_timer-Makes :
    (env : Env) (input : Bytes) (lw : Lw) → IsValid (view lw) → Makes lw (cb_timer env input lw)
unfolding cb_timer remove_disconnected_http_clients
cb_timer-Makes env input lw v =
    subst (λ q. Ensures (λ (lw' : Lw). Moves q (view lw')) (cb_timer env input lw))
      (remove_push-view lw)
      (Makes->>= lw₀ v₀ (remove_disconnected_from-Makes lw₀.http [] lw₀ refl v₀) λ lw₁ v₁.
        Makes->>= lw₁ v₁ (process_http_clients-Makes env lw₁ v₁) λ lw₂ v₂.
          Makes->>= lw₂ v₂ (process_cmd-Makes env lw₂ v₂) λ lw₃ v₃. uart_io-Makes env input lw₃ v₃)
  where
    lw₀ : Lw
    lw₀ = remove_disconnected_push_clients lw

    v₀ : IsValid (view lw₀)
    v₀ = subst IsValid (sym (remove_push-view lw)) v

-- A read changes one client: the commands that it had stay, and new ones come behind them.
abbrev HasMore : List CmdState → List Command → Type 0
HasMore old cmds =
    (news : List CmdState) × (states cmds ≡ old ++ news) × All (λ s. s ≡ cmd_new) news

HasMore-append :
    (old : List CmdState) (cmds : List Command) (c : Command)
    → HasMore old cmds
    → c.state ≡ cmd_new
    → HasMore old (cmds ++ c ∷ [])
HasMore-append old cmds c (news, e, new) fresh = (
  news ++ c.state ∷ [],
  states-append cmds (c ∷ []) ∙ (ap (λ ss. ss ++ c.state ∷ []) e ∙ append_assoc old news _),
  All-append _ news _ new (fresh, tt),
)

read-Move :
    (phr : PhrParser) (jsmn : JsmnParser) (r : ReadResult) (before : List HttpClient)
    (client client' : HttpClient) (after : List HttpClient) (lw : Lw)
    → lw.http ≡ before ++ client ∷ after
    → client.local ≡ false
    → on_read_http phr jsmn r client ≡ ok client'
    → Move (view lw) (view (record lw { http = before ++ client' ∷ after }))
read-Move phr jsmn r before client client' after lw at remote read =
    let same = Ensures-ok (on_read_http-Stays phr jsmn r client) read in
    let (news, e, new) =
      Ensures-ok
        (on_read_http-Keeps (HasMore (states client.cmdq)) (HasMore-append (states client.cmdq)) phr
          jsmn r client ([], sym (append-nil (states client.cmdq)), tt))
        read in
    Sessions.request (sessions before) (session client) (session client') (sessions after) news
      remote (ap (λ (p : ℕ × Bool). p.0) same) (ap (λ (p : ℕ × Bool). p.1) same ∙ remote) new e
      (ap sessions at ∙ sessions-append before (client ∷ after))
      (sessions-append before (client' ∷ after)) refl

-- From a queue in which addresses differ, none has failed and local clients are complete, every
-- callback of the event loop that comes to its end is a sequence of moves of the abstract machine.
Step-Moves :
    {phr : PhrParser} {jsmn : JsmnParser} {lw lw' : Lw}
    → Step phr jsmn lw lw'
    → IsValid (view lw)
    → Moves (view lw) (view lw')
unfolding on_accept_http on_accept_push create_http_client
Step-Moves {lw = lw} (timer env input e) v = Ensures-ok (cb_timer-Makes env input lw v) e
Step-Moves {lw = lw} (http_accept fd) v =
    one (Sessions.accept _ refl refl refl refl (sessions-append lw.http _) refl)
Step-Moves {phr} {jsmn} {lw} (http_read before client client' after result at remote fits e) v =
    one (read-Move phr jsmn result before client client' after lw at remote e)
Step-Moves (push_accept fd) v = stay
Step-Moves (push_read before client after result at) v = stay

-- No client has connected, and no address has been given out.
abbrev pub at_start : Sessions
at_start = record { next = 0; queue = [] }

boot-Makes :
    (file : Option LwanContext) → Ensures (λ (lw : Lw). Moves at_start (view lw)) (boot file)
unfolding boot context_manager_init read_context reset_lwan_ctx
boot-Makes none = restore_firmware_context-Makes (read_context (reset_lwan_ctx false (blank none)))
boot-Makes (some ctx) =
    restore_firmware_context-Makes (read_context (reset_lwan_ctx false (blank (some ctx))))

Reach-Moves-IsValid :
    {phr : PhrParser} {jsmn : JsmnParser} {lw : Lw}
    → Reach phr jsmn lw
    → Moves at_start (view lw) × IsValid (view lw)
Reach-Moves-IsValid (started file e) =
    let ms = Ensures-ok (boot-Makes file) e in (ms, Moves-IsValid ms (tt, tt))
Reach-Moves-IsValid (next before step) =
    let (ms, v) = Reach-Moves-IsValid before in
    let ns = Step-Moves step v in (Moves-trans ms ns, Moves-IsValid ns v)

-- The daemon does with its clients only what the abstract machine may: every state that it
-- reaches is one that the machine reaches from its own start, and every callback that comes to its
-- end from there is a sequence of moves.
pub Reach-Moves :
    {phr : PhrParser} {jsmn : JsmnParser} {lw lw' : Lw}
    → Reach phr jsmn lw
    → Step phr jsmn lw lw'
    → Moves at_start (view lw) × Moves (view lw) (view lw')
Reach-Moves reached step = let (ms, v) = Reach-Moves-IsValid reached in (ms, Step-Moves step v)

pub Reach-IsValid :
    {phr : PhrParser} {jsmn : JsmnParser} {lw : Lw} → Reach phr jsmn lw → IsValid (view lw)
Reach-IsValid reached = (Reach-Moves-IsValid reached).1
