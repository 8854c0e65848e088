-- ===== src/Command/Responses.antt =====
-- When a command is answered, and that a command that is late is over.
use lorawanatd_canarin.Base.{
  ℕ, ◌≡◌, ◌≢◌, ◌≤◌, ◌↔◌, ◌⊎◌, inl, inr, refl, true, List, [], ◌∷◌, Bytes, ok, arith, length,
  c_prefix, Bool-cases,
}
use lorawanatd_canarin.Util.Contains.{OccursIn, is_buffer_contains, is_buffer_contains_iff}
use lorawanatd_canarin.Command.Types.{
  Command, ProcessCmd, cmd_res_ok, cmd_res_timeout, wait_for_good_timeout, wait_for_ok_or_timeout,
  wait_for_joined_or_timeout, null_process,
}
use lorawanatd_canarin.Command.Wait.{
  response, contains_any, wait_for_ok, wait_for_timeout, good_timeout, ok_or_timeout,
  joined_or_timeout, process,
}

-- One of the texts occurs in what the command has received, up to a NUL.
abbrev pub OneOccurs : List Bytes → Command → Type 0
OneOccurs [] cmd = ⊥
OneOccurs (r ∷ rs) cmd = OccursIn r (c_prefix (length cmd.buf) cmd.buf) ⊎ OneOccurs rs cmd

contains_any_sound :
    (cmd : Command) (rs : List Bytes) → contains_any cmd rs ≡ true → OneOccurs rs cmd
unfolding contains_any
contains_any_sound cmd [] h = absurd (cc)
contains_any_sound cmd (r ∷ rs) h =
    elim (Bool-cases (is_buffer_contains cmd.buf (length cmd.buf) r)) [
      | inl here ↦ inl ((is_buffer_contains_iff cmd.buf (length cmd.buf) r).0 here)
      | inr later ↦ inr (contains_any_sound cmd rs (rw later at h))
    ]

contains_any_complete :
    (cmd : Command) (rs : List Bytes) → OneOccurs rs cmd → contains_any cmd rs ≡ true
unfolding contains_any
contains_any_complete cmd [] h = absurd h
contains_any_complete cmd (r ∷ rs) (inl here) =
    rw ((is_buffer_contains_iff cmd.buf (length cmd.buf) r).1 here) refl
contains_any_complete cmd (r ∷ rs) (inr later) = ground (arith, contains_any_complete cmd rs later)

-- A command that waits for an answer or its timeout is done as soon as one of the five responses
-- of the board occurs in what it has received, and not before.
pub ok_or_timeout_iff :
    (cmd : Command) (now : ℕ) → (ok_or_timeout cmd now ≡ cmd_res_ok) ↔ OneOccurs response cmd
unfolding ok_or_timeout wait_for_ok wait_for_timeout
ok_or_timeout_iff cmd now = (
  (λ h. contains_any_sound cmd response (ground arith)),
  λ o. rw (contains_any_complete cmd response o) refl,
)

-- Whichever way a command of the table is waited for, once its time is over the wait is over too,
-- with success or with a timeout.
pub process-late :
    (p : ProcessCmd) (cmd : Command) (now : ℕ)
    → p ≢ null_process
    → cmd.epoc_timeout ≤ now
    → (process p cmd now ≡ ok cmd_res_ok) ⊎ (process p cmd now ≡ ok cmd_res_timeout)
unfolding process good_timeout ok_or_timeout joined_or_timeout wait_for_timeout wait_for_ok
process-late wait_for_good_timeout cmd now real late = ground arith
process-late wait_for_ok_or_timeout cmd now real late = ground arith
process-late wait_for_joined_or_timeout cmd now real late = ground arith
process-late null_process cmd now real late = absurd (real refl)
