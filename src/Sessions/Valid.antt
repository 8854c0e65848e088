-- ===== src/Sessions/Valid.antt =====
-- What every move keeps: addresses differ and lie below the next one, no command has failed, and
-- a local client never leaves the state in which it was queued.
use lorawanatd_canarin.Base.{
  ℕ, suc, ◌≤◌, ◌≡◌, ◌≢◌, ◌⊎◌, inl, inr, refl, sym, subst, ◌∙◌, false, List, [], ◌∷◌, ◌++◌, All,
  All-append, arith, ◌==◌,
}
use lorawanatd_canarin.Command.Types.{CmdState, cmd_new, cmd_executing, cmd_executed, cmd_error}
use lorawanatd_canarin.State.{http_client_request_complete}
use lorawanatd_canarin.Sessions.{
  Session, Sessions, Move, accept, spawn, restore, skip, request, start, finish, reply, leave,
  Moves, stay, ◌▸◌,
}

abbrev pub IsFine : ℕ → Session → Type 0
IsFine next s =
    (suc s.id ≤ next)
    × All (λ c. c ≢ cmd_error) s.cmds
    × ((s.local ≡ false) ⊎ (s.state ≡ http_client_request_complete))

abbrev pub Apart : List Session → Type 0
Apart [] = Unit
Apart (s ∷ ss) = All (λ t. (s.id == t.id) ≡ false) ss × Apart ss

abbrev ValidAt : ℕ → List Session → Type 0
ValidAt next ss = All (IsFine next) ss × Apart ss

abbrev pub IsValid : Sessions → Type 0
IsValid q = ValidAt q.next q.queue

not_failed :
    (cs : List CmdState) (s : CmdState)
    → s ≢ cmd_error
    → All (λ c. c ≡ s) cs
    → All (λ c. c ≢ cmd_error) cs
not_failed [] s ok h = tt
not_failed (c ∷ cs) s ok h = (λ e. ok (sym h.0 ∙ e), not_failed cs s ok h.1)

-- A later address is above all that are there.
IsFine-suc : (n : ℕ) (ss : List Session) → All (IsFine n) ss → All (IsFine (suc n)) ss
IsFine-suc n [] h = tt
IsFine-suc n (s ∷ ss) ((a, b, c), h) = ((omega arith, b, c), IsFine-suc n ss h)

fresh_after : (n : ℕ) (ss : List Session) → All (IsFine n) ss → All (λ t. (t.id == n) ≡ false) ss
fresh_after n [] h = tt
fresh_after n (s ∷ ss) h = (let below = h.0.0 in ground arith, fresh_after n ss h.1)

fresh_before : (n : ℕ) (ss : List Session) → All (IsFine n) ss → All (λ t. (n == t.id) ≡ false) ss
fresh_before n [] h = tt
fresh_before n (s ∷ ss) h = (let below = h.0.0 in ground arith, fresh_before n ss h.1)

Apart-append :
    (ss : List Session) (t : Session)
    → Apart ss
    → All (λ s. (s.id == t.id) ≡ false) ss
    → Apart (ss ++ t ∷ [])
Apart-append [] t h new = (tt, tt)
Apart-append (s ∷ ss) t h new =
    (All-append _ ss (t ∷ []) h.0 (new.0, tt), Apart-append ss t h.1 new.1)

-- One element of a list is changed, or taken out.
module _ (P : Session → Type 0) where
  All-change :
      (before : List Session) (s s' : Session) (after : List Session)
      → (P s → P s')
      → All P (before ++ s ∷ after)
      → All P (before ++ s' ∷ after)
  All-change [] s s' after k h = (k h.0, h.1)
  All-change (b ∷ before) s s' after k h = (h.0, All-change before s s' after k h.1)

  All-without :
      (before : List Session) (s : Session) (after : List Session)
      → All P (before ++ s ∷ after)
      → All P (before ++ after)
  All-without [] s after h = h.1
  All-without (b ∷ before) s after h = (h.0, All-without before s after h.1)

Apart-change :
    (before : List Session) (s s' : Session) (after : List Session)
    → s'.id ≡ s.id
    → Apart (before ++ s ∷ after)
    → Apart (before ++ s' ∷ after)
Apart-change [] s s' after e h = (rw e h.0, h.1)
Apart-change (b ∷ before) s s' after e h =
    (All-change _ before s s' after (λ k. rw e k) h.0, Apart-change before s s' after e h.1)

Apart-without :
    (before : List Session) (s : Session) (after : List Session)
    → Apart (before ++ s ∷ after)
    → Apart (before ++ after)
Apart-without [] s after h = h.1
Apart-without (b ∷ before) s after h =
    (All-without _ before s after h.0, Apart-without before s after h.1)

-- A command among the others is changed to one that has not failed.
swap_cmd :
    (before : List CmdState) (c d : CmdState) (after : List CmdState)
    → d ≢ cmd_error
    → All (λ c. c ≢ cmd_error) (before ++ c ∷ after)
    → All (λ c. c ≢ cmd_error) (before ++ d ∷ after)
swap_cmd [] c d after ok h = (ok, h.1)
swap_cmd (b ∷ before) c d after ok h = (h.0, swap_cmd before c d after ok h.1)

ValidAt-new :
    (n : ℕ) (ss : List Session) (s : Session)
    → s.id ≡ n
    → IsFine (suc n) s
    → ValidAt n ss
    → ValidAt (suc n) (ss ++ s ∷ [])
ValidAt-new n ss s e fine h = (
  All-append _ ss (s ∷ []) (IsFine-suc n ss h.0) (fine, tt),
  Apart-append ss s h.1 (rw e (fresh_after n ss h.0)),
)

ValidAt-first :
    (n : ℕ) (s s' : Session) (ss : List Session)
    → s'.id ≡ s.id
    → (IsFine n s → IsFine n s')
    → ValidAt n (s ∷ ss)
    → ValidAt n (s' ∷ ss)
ValidAt-first n s s' ss e k h = ((k h.0.0, h.0.1), Apart-change [] s s' ss e h.1)

to_valid :
    (q : Sessions) (n : ℕ) (ss : List Session)
    → q.next ≡ n
    → q.queue ≡ ss
    → ValidAt n ss
    → IsValid q
to_valid q n ss e f h = rw (e, f) h

from_valid : (q : Sessions) (ss : List Session) → q.queue ≡ ss → IsValid q → ValidAt q.next ss
from_valid q ss e h = subst (ValidAt q.next) e h

pub Move-IsValid : {q q' : Sessions} → Move q q' → IsValid q → IsValid q'
Move-IsValid {q} {q'} (accept s i l st c qq nn) h =
    to_valid q' _ _ nn qq (ValidAt-new q.next q.queue s i (omega (arith, i), rw c tt, inl l) h)
Move-IsValid {q} {q'} (spawn s i l st c qq nn) h = to_valid q' _ _ nn qq (
    ValidAt-new q.next q.queue s i (omega (arith, i), not_failed s.cmds cmd_new (λ e. cc) c, inr st)
      h)
Move-IsValid {q} {q'} (restore s i l st c qq nn) h = to_valid q' _ _ nn qq (
  (
    (omega (arith, i), not_failed s.cmds cmd_new (λ e. cc) c, inr st),
    IsFine-suc q.next q.queue h.0,
  ),
  (rw i (fresh_before q.next q.queue h.0), h.1),
)
Move-IsValid {q} {q'} (skip qq nn) h = to_valid q' _ _ nn qq (IsFine-suc q.next q.queue h.0, h.1)
Move-IsValid {q} {q'} (request before s s' after news l i l' new c e qq nn) h =
    let v = from_valid q _ e h in
    to_valid q' _ _ nn qq (
      All-change _ before s s' after
          (λ fine. (
            rw i fine.0,
            rw c (All-append _ s.cmds news fine.1 (not_failed news cmd_new (λ e. cc) new)),
            inl l',
          ))
          v.0,
      Apart-change before s s' after i v.1,
    )
Move-IsValid {q} {q'} (start s rest before after st done c e qq nn) h = to_valid q' _ _ nn qq (
    ValidAt-first q.next s _ rest refl
      (λ fine. (
        fine.0,
        swap_cmd before cmd_new cmd_executing after (λ e. cc)
            (subst (All (λ c. c ≢ cmd_error)) c fine.1),
        fine.2,
      ))
      (from_valid q _ e h))
Move-IsValid {q} {q'} (finish s rest before after st done c e qq nn) h = to_valid q' _ _ nn qq (
    ValidAt-first q.next s _ rest refl
      (λ fine. (
        fine.0,
        swap_cmd before cmd_executing cmd_executed after (λ e. cc)
            (subst (All (λ c. c ≢ cmd_error)) c fine.1),
        fine.2,
      ))
      (from_valid q _ e h))
Move-IsValid {q} {q'} (reply s rest st done e qq nn) h =
    let v = from_valid q _ e h in to_valid q' _ _ nn qq (v.0.1, v.1.1)
Move-IsValid {q} {q'} (leave before s after l st e qq nn) h =
    let v = from_valid q _ e h in
    to_valid q' _ _ nn qq (All-without _ before s after v.0, Apart-without before s after v.1)

pub Moves-IsValid : {q q' : Sessions} → Moves q q' → IsValid q → IsValid q'
Moves-IsValid stay h = h
Moves-IsValid (ms ▸ m) h = Move-IsValid m (Moves-IsValid ms h)
