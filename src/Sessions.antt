-- ===== src/Sessions.antt =====
-- What the daemon promises of its HTTP clients (src/http.c, src/context_manager.c): an
-- abstract machine that knows of each client only its address, whether it is local, its state,
-- and the states of its commands.
pub mod Valid
pub mod View
use lorawanatd_canarin.Base.{ℕ, suc, ◌≡◌, ◌⊎◌, Bool, true, false, List, [], ◌∷◌, ◌++◌, All}
use lorawanatd_canarin.Command.Types.{CmdState, cmd_new, cmd_executing, cmd_executed}
use lorawanatd_canarin.State.{
  HttpClientState, http_client_active, http_client_request_complete, http_client_error,
  http_client_disconnected,
}

pub record Session : Type 0 where
  pub id : ℕ
  pub local : Bool
  pub state : HttpClientState
  pub cmds : List CmdState

-- The clients in the order in which they are served, and the next address.
pub record Sessions : Type 0 where
  pub next : ℕ
  pub queue : List Session

-- What can happen to the clients, one thing at a time.
pub data Move (q q' : Sessions) : Type 0 where
  -- A client connects.
  accept :
      (s : Session)
      → s.id ≡ q.next
      → s.local ≡ false
      → s.state ≡ http_client_active
      → s.cmds ≡ []
      → q'.queue ≡ q.queue ++ s ∷ []
      → q'.next ≡ suc q.next
      → Move q q'
  -- The daemon queues a client of its own, behind the others or in front of them.
  spawn :
      (s : Session)
      → s.id ≡ q.next
      → s.local ≡ true
      → s.state ≡ http_client_request_complete
      → All (λ c. c ≡ cmd_new) s.cmds
      → q'.queue ≡ q.queue ++ s ∷ []
      → q'.next ≡ suc q.next
      → Move q q'
  restore :
      (s : Session)
      → s.id ≡ q.next
      → s.local ≡ true
      → s.state ≡ http_client_request_complete
      → All (λ c. c ≡ cmd_new) s.cmds
      → q'.queue ≡ s ∷ q.queue
      → q'.next ≡ suc q.next
      → Move q q'
  -- A client of its own that gets no command is given up at once.
  skip : q'.queue ≡ q.queue → q'.next ≡ suc q.next → Move q q'
  -- A request brings new commands, behind those that are there.
  request :
      (before : List Session) (s s' : Session) (after : List Session) (news : List CmdState)
      → s.local ≡ false
      → s'.id ≡ s.id
      → s'.local ≡ false
      → All (λ c. c ≡ cmd_new) news
      → s'.cmds ≡ s.cmds ++ news
      → q.queue ≡ before ++ s ∷ after
      → q'.queue ≡ before ++ s' ∷ after
      → q'.next ≡ q.next
      → Move q q'
  -- Of the first client whose request is complete, the first command that is not done is started.
  start :
      (s : Session) (rest : List Session) (before after : List CmdState)
      → s.state ≡ http_client_request_complete
      → All (λ c. c ≡ cmd_executed) before
      → s.cmds ≡ before ++ cmd_new ∷ after
      → q.queue ≡ s ∷ rest
      → q'.queue ≡ record s { cmds = before ++ cmd_executing ∷ after } ∷ rest
      → q'.next ≡ q.next
      → Move q q'
  -- It is done.
  finish :
      (s : Session) (rest : List Session) (before after : List CmdState)
      → s.state ≡ http_client_request_complete
      → All (λ c. c ≡ cmd_executed) before
      → s.cmds ≡ before ++ cmd_executing ∷ after
      → q.queue ≡ s ∷ rest
      → q'.queue ≡ record s { cmds = before ++ cmd_executed ∷ after } ∷ rest
      → q'.next ≡ q.next
      → Move q q'
  -- The first client leaves once all its commands are done.
  reply :
      (s : Session) (rest : List Session)
      → s.state ≡ http_client_request_complete
      → All (λ c. c ≡ cmd_executed) s.cmds
      → q.queue ≡ s ∷ rest
      → q'.queue ≡ rest
      → q'.next ≡ q.next
      → Move q q'
  -- A client that connected, and whose request failed or whose connection ended, leaves.
  leave :
      (before : List Session) (s : Session) (after : List Session)
      → s.local ≡ false
      → (s.state ≡ http_client_error) ⊎ (s.state ≡ http_client_disconnected)
      → q.queue ≡ before ++ s ∷ after
      → q'.queue ≡ before ++ after
      → q'.next ≡ q.next
      → Move q q'

infixl 4 ◌▸◌
pub data Moves (q : Sessions) : Sessions → Type 0 where
  stay : Moves q q
  ◌▸◌ : {r s : Sessions} → Moves q r → Move r s → Moves q s

pub one : {q r : Sessions} → Move q r → Moves q r
one m = stay ▸ m

pub Moves-trans : {q r s : Sessions} → Moves q r → Moves r s → Moves q s
Moves-trans ms stay = ms
Moves-trans ms (ns ▸ m) = Moves-trans ms ns ▸ m
