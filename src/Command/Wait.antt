-- ===== src/Command/Wait.antt =====
-- The functions behind `process_cmd` in src/command.c: is the response to a command complete?
use lorawanatd_canarin.Base.{
  ℕ, Bool, true, false, ◌||◌, List, [], ◌∷◌, Bytes, codes, Outcome, ok, fault, leb, if◌then◌else◌,
  length,
}
use lorawanatd_canarin.Util.Contains.{is_buffer_contains}
use lorawanatd_canarin.Command.Types.{
  Command, CmdResCode, ProcessCmd, cmd_res_ok, cmd_res_waiting, cmd_res_timeout,
  wait_for_good_timeout, wait_for_ok_or_timeout, wait_for_joined_or_timeout, null_process,
}

abbrev pub response : List Bytes
response =
    codes "\r\nOK\r\n"
    ∷ codes "\r\nAT_PARAM_ERROR\r\n"
    ∷ codes "\r\nAT_ERROR\r\n"
    ∷ codes "\r\nAT_BUSY_ERROR\r\n"
    ∷ codes "\r\nAT_NO_NETWORK_JOINED\r\n"
    ∷ []

abbrev pub joined_response : Bytes
joined_response = codes "+EVT:JOINED\r\n"

abbrev pub join_failed_response : Bytes
join_failed_response = codes "+EVT:JOIN FAILED\r\n"

abbrev received : Command → Bytes → Bool
received cmd str = is_buffer_contains cmd.buf (length cmd.buf) str

-- The loop of `wait_for_ok` over the known responses.
unfoldable pub contains_any : Command → List Bytes → Bool
contains_any cmd [] = false
contains_any cmd (r ∷ rs) = received cmd r || contains_any cmd rs

unfoldable pub wait_for_ok : Command → CmdResCode
unfolding contains_any
wait_for_ok cmd = if contains_any cmd response then cmd_res_ok else cmd_res_waiting

unfoldable pub wait_for_timeout : Command → ℕ → CmdResCode
wait_for_timeout cmd now = if leb cmd.epoc_timeout now then cmd_res_timeout else cmd_res_waiting

unfoldable pub good_timeout : Command → ℕ → CmdResCode
good_timeout cmd now = if leb cmd.epoc_timeout now then cmd_res_ok else cmd_res_waiting

abbrev is_ok : CmdResCode → Bool
is_ok cmd_res_ok = true
is_ok _ = false

unfoldable pub ok_or_timeout : Command → ℕ → CmdResCode
unfolding wait_for_ok wait_for_timeout
ok_or_timeout cmd now = if is_ok (wait_for_ok cmd) then cmd_res_ok else wait_for_timeout cmd now

unfoldable pub joined_or_timeout : Command → ℕ → CmdResCode
unfolding wait_for_timeout
joined_or_timeout cmd now =
    if received cmd joined_response
    then cmd_res_ok
    else if received cmd join_failed_response
    then cmd_res_timeout
    else wait_for_timeout cmd now

-- The call `cmd->def.process_cmd(cmd)`; the asynchronous entries have NULL there.
unfoldable pub process : ProcessCmd → Command → ℕ → Outcome CmdResCode
unfolding good_timeout ok_or_timeout joined_or_timeout
process wait_for_good_timeout cmd now = ok (good_timeout cmd now)
process wait_for_ok_or_timeout cmd now = ok (ok_or_timeout cmd now)
process wait_for_joined_or_timeout cmd now = ok (joined_or_timeout cmd now)
process null_process cmd now = fault
