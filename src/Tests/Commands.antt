-- ===== src/Tests/Commands.antt =====
-- Commands at concrete values.
use lorawanatd_canarin.Base.{
  ◌≡◌, ◌%◌, ◌^◌, ◌↔◌, refl, [], codes, ok, print_u, arith, leb, if◌then◌else◌,
}
use lorawanatd_canarin.Command.Types.{
  Command, set, zeroed, cmd_new, cmd_executing, cmd_res_ok, construct_join_cmd, get_njm_cmd,
  get_cfm_cmd, set_njm_cmd, set_cfm_cmd,
}
use lorawanatd_canarin.Command.Wait.{ok_or_timeout, response}
use lorawanatd_canarin.Command.Construct.{
  construct, build_mac_param, build_set_njm, build_set_cfm, started, response_ok,
  response_param_error,
}
use lorawanatd_canarin.Command.Params.{
  build_mac_param-number, set_mode-number, with_param, with_njm, with_cfm,
}
use lorawanatd_canarin.Command.Modes.{text_after, set_mode-get_mode}
use lorawanatd_canarin.Command.Responses.{OneOccurs, ok_or_timeout_iff}
use lorawanatd_canarin.Tests.Samples.{cmd_of, dr_def, njm_def, status_def, join_def, waiting_ctx}

-- The value 5 and the rest of the request behind it.
abbrev set_dr : Command
set_dr = cmd_of dr_def (set (codes "5\"}") 1) cmd_new []

build_mac_param-number_example :
    build_mac_param waiting_ctx 100 set_dr
    ≡ ok (
        if leb 5 7
        then started (with_param 1 5 waiting_ctx) 100 set_dr response_ok
        else started waiting_ctx 100 set_dr response_param_error)
unfolding print_u
build_mac_param-number_example =
    build_mac_param-number waiting_ctx 100 set_dr 1 7 5 (codes "\"}") refl refl refl (omega arith)
      refl

abbrev set_njm_256 : Command
set_njm_256 = cmd_of njm_def (set (codes "256\"}") 3) cmd_new []

set_mode-number_example :
    (build_set_njm waiting_ctx 100 set_njm_256
      ≡ ok (started (with_njm (256 % 2 ^ 8) waiting_ctx) 100 set_njm_256 response_ok))
    × (build_set_cfm waiting_ctx 100 set_njm_256
        ≡ ok (started (with_cfm (256 % 2 ^ 8) waiting_ctx) 100 set_njm_256 response_ok))
unfolding print_u
set_mode-number_example =
    set_mode-number waiting_ctx 100 set_njm_256 256 (codes "\"}") refl (omega arith) (omega arith)
      refl (omega arith)

abbrev any_get : Command
any_get = cmd_of status_def zeroed cmd_new []

abbrev new_join : Command
new_join = cmd_of join_def zeroed cmd_new []

set_mode-get_mode_example :
    (text_after
        (construct set_njm_cmd waiting_ctx 100 set_njm_256)
        (λ c. construct get_njm_cmd c 101 any_get)
      ≡ ok (codes "0\r\nOK\r\n"))
    × (text_after
          (construct set_cfm_cmd waiting_ctx 100 set_njm_256)
          (λ c. construct get_cfm_cmd c 101 any_get)
        ≡ ok (codes "0\r\nOK\r\n"))
    × (text_after
          (construct set_njm_cmd waiting_ctx 100 set_njm_256)
          (λ c. construct construct_join_cmd c 101 new_join)
        ≡ ok (codes "AT+JOIN=0"))
unfolding print_u
set_mode-get_mode_example =
    set_mode-get_mode waiting_ctx 100 101 set_njm_256 any_get new_join 256 (codes "\"}") refl
      (omega arith) (omega arith) refl (omega arith) refl

abbrev answered : Command
answered = cmd_of status_def zeroed cmd_executing (codes "\r\nOK\r\n")

ok_or_timeout_example : (ok_or_timeout answered 3 ≡ cmd_res_ok) ↔ OneOccurs response answered
ok_or_timeout_example = ok_or_timeout_iff answered 3
