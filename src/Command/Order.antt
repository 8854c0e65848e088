-- ===== src/Command/Order.antt =====
-- The order of the commands in a queue: those that are done, then at most one that is executing,
-- then those that are new.
use lorawanatd_canarin.Base.{
  ℕ, ◌≡◌, refl, Bool, true, false, ◌&&◌, List, [], ◌∷◌, ◌++◌, Option, some, arith, Bytes, ok, deref,
  Ensures, returns, faults, Outcome-cases, Option-cases, inl, inr,
}
use lorawanatd_canarin.Command.Types.{
  Command, CommandParam, CmdGroup, cmd_new, cmd_executing, cmd_executed, cmd_error,
}
use lorawanatd_canarin.Command.Make.{make_cmd}
use lorawanatd_canarin.Command.Lookup.{make_cmd_sound}
use lorawanatd_canarin.Command.Queue.{append_response, set_active_cmd_uart_buf, is_new}

unfoldable pub all_new : List Command → Bool
all_new [] = true
all_new (c ∷ cs) = is_new c.state && all_new cs

-- No command is executing, and no new one stands before one that is done.
unfoldable pub is_resting : List Command → Bool
unfolding all_new
is_resting [] = true
is_resting (c ∷ cs) =
    let rest = is_resting cs in
    elim c.state [
      | cmd_new ↦ all_new cs
      | cmd_executed ↦ rest
      | cmd_executing ↦ false
      | cmd_error ↦ false
    ]

-- The same, with one command that may be executing between the two parts.
unfoldable pub in_order : List Command → Bool
unfolding all_new
in_order [] = true
in_order (c ∷ cs) =
    let rest = in_order cs in
    elim c.state [
      | cmd_new ↦ all_new cs
      | cmd_executed ↦ rest
      | cmd_executing ↦ all_new cs
      | cmd_error ↦ false
    ]

pub is_resting-all_new : (cs : List Command) → all_new cs ≡ true → is_resting cs ≡ true
unfolding is_resting
is_resting-all_new [] h = refl
is_resting-all_new (c ∷ cs) h = ground arith

pub in_order-is_resting : (cs : List Command) → is_resting cs ≡ true → in_order cs ≡ true
unfolding in_order is_resting
in_order-is_resting [] h = refl
in_order-is_resting (c ∷ cs) h = ground (arith, in_order-is_resting cs)

pub all_new-cons :
    (c : Command) (cs : List Command)
    → c.state ≡ cmd_new
    → all_new cs ≡ true
    → all_new (c ∷ cs) ≡ true
unfolding all_new
all_new-cons c cs new rest = ground arith

pub all_new-append :
    (xs ys : List Command) → all_new xs ≡ true → all_new ys ≡ true → all_new (xs ++ ys) ≡ true
unfolding all_new
all_new-append [] ys hx hy = hy
all_new-append (c ∷ xs) ys hx hy = ground (arith, all_new-append xs ys)

pub in_order-append :
    (xs ys : List Command) → in_order xs ≡ true → all_new ys ≡ true → in_order (xs ++ ys) ≡ true
unfolding in_order
in_order-append [] ys hx hy = in_order-is_resting ys (is_resting-all_new ys hy)
in_order-append (c ∷ xs) ys hx hy = ground (arith, in_order-append xs ys, all_new-append xs ys)

pub is_resting-append :
    (xs ys : List Command) → is_resting xs ≡ true → all_new ys ≡ true → is_resting (xs ++ ys) ≡ true
unfolding is_resting
is_resting-append [] ys hx hy = is_resting-all_new ys hy
is_resting-append (c ∷ xs) ys hx hy = ground (arith, is_resting-append xs ys, all_new-append xs ys)

pub make_cmd-new :
    (token : Bytes) (n : ℕ) (param : Option CommandParam) (timeout : ℕ) (group : CmdGroup)
    {cmd : Command}
    → make_cmd token n param timeout group ≡ some cmd
    → cmd.state ≡ cmd_new
make_cmd-new token n param timeout group e =
    let (def, m, g, len, tok, made) = make_cmd_sound token n param timeout group e in
    ground (arith, made)

pub deref-make_cmd :
    (token : Bytes) (n : ℕ) (param : Option CommandParam) (timeout : ℕ) (group : CmdGroup)
    → Ensures (λ (c : Command). c.state ≡ cmd_new) (deref (make_cmd token n param timeout group))
deref-make_cmd token n param timeout group =
    elim (Option-cases (make_cmd token n param timeout group)) [
      | inl e ↦ rw e faults
      | inr (cmd, e) ↦ rw e (returns cmd (make_cmd-new token n param timeout group e))
    ]

-- Bytes that are received leave the states alone.
set_active-all_new :
    (cmds : List Command) (buf : Bytes)
    → all_new cmds ≡ true
    → set_active_cmd_uart_buf cmds buf ≡ ok cmds
unfolding set_active_cmd_uart_buf all_new
set_active-all_new [] buf h = refl
set_active-all_new (c ∷ cs) buf h = ground (arith, set_active-all_new cs buf)

pub set_active-in_order :
    (cmds : List Command) (buf : Bytes) {cmds' : List Command}
    → in_order cmds ≡ true
    → set_active_cmd_uart_buf cmds buf ≡ ok cmds'
    → in_order cmds' ≡ true
unfolding set_active_cmd_uart_buf in_order append_response
set_active-in_order [] buf h e = ground arith
set_active-in_order (c ∷ cs) buf {cmds'} h e =
    elim (Outcome-cases (set_active_cmd_uart_buf cs buf)) [
      | inl (cs', done) ↦
          ground (arith, set_active-all_new cs buf, set_active-in_order cs buf {cmds' = cs'})
      | inr stopped ↦ ground (arith, set_active-all_new cs buf)
    ]
