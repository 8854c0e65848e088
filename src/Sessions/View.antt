-- ===== src/Sessions/View.antt =====
-- The abstract state of the daemon, and what it means that a function of the code moves it.
use lorawanatd_canarin.Base.{
  ℕ, ◌≡◌, refl, subst, ap, false, true, List, [], ◌∷◌, ◌++◌, All, arith, Outcome, ◌>>=◌, Ensures,
  returns, faults, exits, runs_on, Ensures-mono, ◌==◌,
}
use lorawanatd_canarin.Command.Types.{Command, CmdState, cmd_new}
use lorawanatd_canarin.Command.Order.{all_new}
use lorawanatd_canarin.State.{Lw, HttpClient}
use lorawanatd_canarin.Clients.Removal.{Distinct}
use lorawanatd_canarin.Sessions.{Session, Sessions, Moves, Moves-trans}
use lorawanatd_canarin.Sessions.Valid.{IsValid, Moves-IsValid, Apart, IsFine}

abbrev pub states : List Command → List CmdState
states [] = []
states (c ∷ cs) = c.state ∷ states cs

abbrev pub session : HttpClient → Session
session c = record { id = c.id; local = c.local; state = c.state; cmds = states c.cmdq }

abbrev pub sessions : List HttpClient → List Session
sessions [] = []
sessions (c ∷ cs) = session c ∷ sessions cs

abbrev pub view : Lw → Sessions
view lw = record { next = lw.next_id; queue = sessions lw.http }

-- Whatever state is returned, the clients come to it by moves.
abbrev pub Makes : Lw → Outcome Lw → Type 0
Makes lw = Ensures (λ (lw' : Lw). Moves (view lw) (view lw'))

pub Makes->>= :
    (lw : Lw) {m : Outcome Lw} {f : Lw → Outcome Lw}
    → IsValid (view lw)
    → Makes lw m
    → ((lw' : Lw) → IsValid (view lw') → Makes lw' (f lw'))
    → Makes lw (m >>= f)
Makes->>= lw v (returns lw' ms) k =
    Ensures-mono (λ lw'' ns. Moves-trans ms ns) (k lw' (Moves-IsValid ms v))
Makes->>= lw v faults k = faults
Makes->>= lw v exits k = exits
Makes->>= lw v runs_on k = runs_on

pub states-append : (xs ys : List Command) → states (xs ++ ys) ≡ states xs ++ states ys
states-append [] ys = refl
states-append (x ∷ xs) ys = ap (◌∷◌ x.state) (states-append xs ys)

pub sessions-append : (xs ys : List HttpClient) → sessions (xs ++ ys) ≡ sessions xs ++ sessions ys
sessions-append [] ys = refl
sessions-append (x ∷ xs) ys = ap (◌∷◌ (session x)) (sessions-append xs ys)

pub states-all_new : (cs : List Command) → all_new cs ≡ true → All (λ s. s ≡ cmd_new) (states cs)
unfolding all_new
states-all_new [] h = tt
states-all_new (c ∷ cs) h = (ground arith, states-all_new cs (ground arith))

-- Of clients that are apart no two have the same address.
apart-All :
    (id : ℕ) (cs : List HttpClient)
    → All (λ s. (id == s.id) ≡ false) (sessions cs)
    → All (λ c. (id == c.id) ≡ false) cs
apart-All id [] h = tt
apart-All id (c ∷ cs) h = (h.0, apart-All id cs h.1)

pub Distinct-Apart : (cs : List HttpClient) → Apart (sessions cs) → Distinct cs
Distinct-Apart [] h = tt
Distinct-Apart (c ∷ cs) h = (apart-All c.id cs h.0, Distinct-Apart cs h.1)

-- No client has the next address.
pub unused :
    (n : ℕ) (cs : List HttpClient)
    → All (IsFine n) (sessions cs)
    → All (λ c. (c.id == n) ≡ false) cs
unused n [] h = tt
unused n (c ∷ cs) h = (let below = h.0.0 in ground arith, unused n cs h.1)

pub first-IsFine :
    (lw : Lw) (client : HttpClient) (clients : List HttpClient)
    → lw.http ≡ client ∷ clients
    → IsValid (view lw)
    → IsFine lw.next_id (session client)
first-IsFine lw client clients e v = (subst (λ cs. All (IsFine lw.next_id) (sessions cs)) e v.0).0
