-- ===== src/Context/Reset.antt =====
-- What a reset of the context leaves of the join mode.
use lorawanatd_canarin.Base.{
  ◌+◌, ◌≡◌, refl, Bool, true, ◌++◌, codes, ok, arith, leb, length, length-append, NoNul, All-append,
  print_u-digit, c_prefix-all,
}
use lorawanatd_canarin.Command.Types.{Command}
use lorawanatd_canarin.Command.Construct.{join_text}
use lorawanatd_canarin.State.{Lw}
use lorawanatd_canarin.Context.File.{reset_lwan_ctx}

-- After a reset of the context a join asks for the mode 0, although the reset has set the mode
-- to 1 in between: the text ends in "=0".
pub join_text-reset_lwan_ctx :
    (delete : Bool) (lw : Lw) (cmd : Command)
    → NoNul cmd.def.cmd
    → join_text (reset_lwan_ctx delete lw).lwan_ctx cmd ≡ ok (cmd.def.cmd ++ codes "=0")
unfolding join_text
join_text-reset_lwan_ctx delete lw cmd clean =
    rw (mode, print_u-digit 0 (omega arith))
      (rw
        (
          fits,
          c_prefix-all (length cmd.def.cmd + 2) (cmd.def.cmd ++ codes "=0")
              (All-append _ cmd.def.cmd (codes "=0") clean (refl, (refl, tt))) (omega (arith, len)),
        )
        refl)
  where
    mode : (reset_lwan_ctx delete lw).lwan_ctx.mac_params.network_join_mode ≡ 0
    mode = unfold reset_lwan_ctx in ground arith

    len : length (cmd.def.cmd ++ codes "=0") ≡ length cmd.def.cmd + 2
    len = omega (arith, length-append cmd.def.cmd (codes "=0"))

    fits : leb (length (cmd.def.cmd ++ codes "=0")) (length cmd.def.cmd + 2) ≡ true
    fits = ground (arith, len)
