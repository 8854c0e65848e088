-- ===== src/Command/Modes.antt =====
-- The network join mode and the confirmation mode: `set_njm_cmd` and `set_cfm_cmd` store what
-- `get_njm_cmd` and `get_cfm_cmd` answer and what `construct_join_cmd` sends.
use lorawanatd_canarin.Base.{
  ℕ, zero, suc, ◌%◌, ◌^◌, ◌≡◌, ◌≤◌, ◌<◌, refl, ◌++◌, Bytes, codes, Outcome, ok, ◌>>=◌, print_u,
  EndsNumber, arith,
}
use lorawanatd_canarin.LwanContext.{LwanContext}
use lorawanatd_canarin.Command.Types.{
  Command, param_of, param_len_of, construct_join_cmd, get_njm_cmd, get_cfm_cmd, set_njm_cmd,
  set_cfm_cmd,
}
use lorawanatd_canarin.Command.Construct.{Built, construct, join_text}
use lorawanatd_canarin.Command.Params.{set_mode-number, with_njm}

-- The text of one command, in the context that another one leaves behind.
abbrev pub text_after : Outcome Built → (LwanContext → Outcome Built) → Outcome Bytes
text_after first second = first >>= λ b. second b.lwan_ctx >>= λ c. ok c.text

join_text-with_njm :
    (ctx : LwanContext) (now mode : ℕ) (cmd : Command)
    → cmd.def.cmd ≡ codes "AT+JOIN"
    → mode ≤ 1
    → (construct construct_join_cmd (with_njm mode ctx) now cmd >>= λ c. ok c.text)
      ≡ ok (codes "AT+JOIN=" ++ print_u mode)
unfolding construct join_text print_u
join_text-with_njm ctx now zero cmd join small = rw join refl
join_text-with_njm ctx now (suc zero) cmd join small = rw join refl
join_text-with_njm ctx now (suc (suc n)) cmd join small = absurd (omega (arith, small))

-- A mode that is set to a number below 2^32, which modulo 256 is 0 or 1, is what the command that
-- reads it answers then, in front of "OK"; the join that follows sends it to the board as well.
pub set_mode-get_mode :
    (ctx : LwanContext) (now later : ℕ) (cmd get join : Command) (value : ℕ) (rest : Bytes)
    → param_of cmd.param ≡ print_u value ++ rest
    → param_len_of cmd.param < 16
    → value < 2 ^ 32
    → EndsNumber rest
    → value % 2 ^ 8 ≤ 1
    → join.def.cmd ≡ codes "AT+JOIN"
    → (text_after (construct set_njm_cmd ctx now cmd) (λ c. construct get_njm_cmd c later get)
        ≡ ok (print_u (value % 2 ^ 8) ++ codes "\r\nOK\r\n"))
      × (text_after (construct set_cfm_cmd ctx now cmd) (λ c. construct get_cfm_cmd c later get)
          ≡ ok (print_u (value % 2 ^ 8) ++ codes "\r\nOK\r\n"))
      × (text_after
            (construct set_njm_cmd ctx now cmd)
            (λ c. construct construct_join_cmd c later join)
          ≡ ok (codes "AT+JOIN=" ++ print_u (value % 2 ^ 8)))
unfolding construct
set_mode-get_mode ctx now later cmd get join value rest text short small ends mode joins =
    let stored = set_mode-number ctx now cmd value rest text short small ends mode in
    (
      rw stored.0 refl,
      rw stored.1 refl,
      rw stored.0 (join_text-with_njm ctx later (value % 2 ^ 8) join joins mode),
    )
