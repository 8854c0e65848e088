-- ===== src/Command/Table.antt =====
-- `cmd_def_list` of src/command.c, in its order.
use lorawanatd_canarin.Base.{◌++◌, [], ◌∷◌, List, Bool, true, false, codes, Bytes}
use lorawanatd_canarin.Command.Types.{
  CommandDef, CmdType, CmdGroup, ConstructCmd, ProcessCmd, AsyncCmd, async_has_more_tx, async_recv,
  cmd_acquire_context, cmd_action, cmd_async, cmd_async_more_tx, cmd_async_recv, cmd_delay,
  cmd_force_update, cmd_get, cmd_get_adr, cmd_get_appeui, cmd_get_appkey, cmd_get_cfm, cmd_get_cfs,
  cmd_get_class, cmd_get_daddr, cmd_get_deui, cmd_get_dr, cmd_get_jn1dl, cmd_get_jn2dl, cmd_get_njm,
  cmd_get_njs, cmd_get_nwkid, cmd_get_rssi, cmd_get_rx1dl, cmd_get_rx2dl, cmd_get_rx2dr,
  cmd_get_rx2fq, cmd_get_snr, cmd_get_txp, cmd_hard_reset, cmd_internal, cmd_join, cmd_reset,
  cmd_restore_context, cmd_send, cmd_send_binary, cmd_send_text, cmd_set, cmd_set_adr,
  cmd_set_appeui, cmd_set_appkey, cmd_set_appskey, cmd_set_cfm, cmd_set_class, cmd_set_daddr,
  cmd_set_dr, cmd_set_fcnt, cmd_set_jn1dl, cmd_set_jn2dl, cmd_set_njm, cmd_set_nwkid,
  cmd_set_nwkskey, cmd_set_rx1dl, cmd_set_rx2dl, cmd_set_rx2dr, cmd_set_rx2fq, cmd_set_txp,
  cmd_status, construct_context_restore_cmd, construct_delay_cmd, construct_force_update_cmd,
  construct_get_cmd, construct_join_cmd, construct_mac_param_cmd, construct_raw_cmd,
  construct_send_cmd, construct_set_cmd, get_cfm_cmd, get_njm_cmd, null_async, null_construct,
  null_process, set_cfm_cmd, set_njm_cmd, wait_for_good_timeout, wait_for_joined_or_timeout,
  wait_for_ok_or_timeout,
}

-- An entry that a caller can ask for: its `async_cmd` is NULL.
abbrev entry : CmdType → CmdGroup → Bytes → Bytes → ConstructCmd → ProcessCmd → Bool → CommandDef
entry t g token cmd c p l = record {
  type = t;
  group = g;
  token = token;
  cmd = cmd;
  construct_cmd = c;
  process_cmd = p;
  async_cmd = null_async;
  local_state = l;
}

-- An entry for what the board sends by itself: its token and its other functions are NULL.
abbrev async_entry : CmdType → AsyncCmd → CommandDef
async_entry t a = record {
  type = t;
  group = cmd_async;
  token = [];
  cmd = [];
  construct_cmd = null_construct;
  process_cmd = null_process;
  async_cmd = a;
  local_state = false;
}

-- the one-shot commands
abbrev pub action_defs : List CommandDef
action_defs =
    entry cmd_reset cmd_action (codes "reset") (codes "ATZ") construct_raw_cmd wait_for_good_timeout
      false
    ∷ entry cmd_hard_reset cmd_action (codes "hard_reset") (codes "ATZ") construct_raw_cmd
        wait_for_good_timeout false
    ∷ entry cmd_status cmd_action (codes "status") (codes "AT") construct_raw_cmd
        wait_for_ok_or_timeout false
    ∷ entry cmd_join cmd_action (codes "join") (codes "AT+JOIN") construct_join_cmd
        wait_for_joined_or_timeout false
    ∷ []

-- read the identity, the rates and the windows
abbrev pub get_identity_defs : List CommandDef
get_identity_defs =
    entry cmd_get_deui cmd_get (codes "device_eui") (codes "AT+DEUI") construct_get_cmd
      wait_for_ok_or_timeout false
    ∷ entry cmd_get_daddr cmd_get (codes "device_address") (codes "AT+DADDR") construct_get_cmd
        wait_for_ok_or_timeout false
    ∷ entry cmd_get_appkey cmd_get (codes "application_key") (codes "AT+APPKEY") construct_get_cmd
        wait_for_ok_or_timeout false
    ∷ entry cmd_get_appeui cmd_get (codes "application_eui") (codes "AT+APPEUI") construct_get_cmd
        wait_for_ok_or_timeout false
    ∷ entry cmd_get_adr cmd_get (codes "adaptive_data_rate") (codes "AT+ADR") construct_get_cmd
        wait_for_ok_or_timeout false
    ∷ entry cmd_get_txp cmd_get (codes "transmit_power") (codes "AT+TXP") construct_get_cmd
        wait_for_ok_or_timeout false
    ∷ entry cmd_get_dr cmd_get (codes "data_rate") (codes "AT+DR") construct_get_cmd
        wait_for_ok_or_timeout false
    ∷ entry cmd_get_rx2fq cmd_get (codes "rx2_frequency") (codes "AT+RX2FQ") construct_get_cmd
        wait_for_ok_or_timeout false
    ∷ entry cmd_get_rx2dr cmd_get (codes "rx2_data_rate") (codes "AT+RX2DR") construct_get_cmd
        wait_for_ok_or_timeout false
    ∷ entry cmd_get_rx1dl cmd_get (codes "rx1_delay") (codes "AT+RX1DL") construct_get_cmd
        wait_for_ok_or_timeout false
    ∷ entry cmd_get_rx2dl cmd_get (codes "rx2_delay") (codes "AT+RX2DL") construct_get_cmd
        wait_for_ok_or_timeout false
    ∷ entry cmd_get_jn1dl cmd_get (codes "join1_delay") (codes "AT+JN1DL") construct_get_cmd
        wait_for_ok_or_timeout false
    ∷ entry cmd_get_jn2dl cmd_get (codes "join2_delay") (codes "AT+JN2DL") construct_get_cmd
        wait_for_ok_or_timeout false
    ∷ []

-- read the modes and the status
abbrev pub get_status_defs : List CommandDef
get_status_defs =
    entry cmd_get_njm cmd_get (codes "network_join_mode") (codes "AT+NJM") get_njm_cmd
      wait_for_ok_or_timeout true
    ∷ entry cmd_get_nwkid cmd_get (codes "network_id") (codes "AT+NWKID") construct_get_cmd
        wait_for_ok_or_timeout false
    ∷ entry cmd_get_class cmd_get (codes "class") (codes "AT+CLASS") construct_get_cmd
        wait_for_ok_or_timeout false
    ∷ entry cmd_get_njs cmd_get (codes "network_join_status") (codes "AT+NJS") construct_get_cmd
        wait_for_ok_or_timeout false
    ∷ entry cmd_get_cfm cmd_get (codes "confirmation_mode") (codes "AT+CFM") get_cfm_cmd
        wait_for_ok_or_timeout true
    ∷ entry cmd_get_cfs cmd_get (codes "confirmation_status") (codes "AT+CFS") construct_get_cmd
        wait_for_ok_or_timeout false
    ∷ entry cmd_get_snr cmd_get (codes "snr") (codes "AT+SNR") construct_get_cmd
        wait_for_ok_or_timeout false
    ∷ entry cmd_get_rssi cmd_get (codes "rssi") (codes "AT+RSSI") construct_get_cmd
        wait_for_ok_or_timeout false
    ∷ []

-- write the keys and the parameters that the MAC layer resets
abbrev pub set_identity_defs : List CommandDef
set_identity_defs =
    entry cmd_set_daddr cmd_set (codes "device_address") (codes "AT+DADDR") construct_set_cmd
      wait_for_ok_or_timeout false
    ∷ entry cmd_set_appkey cmd_set (codes "application_key") (codes "AT+APPKEY") construct_set_cmd
        wait_for_ok_or_timeout false
    ∷ entry cmd_set_nwkskey cmd_set (codes "network_session_key") (codes "AT+NWKSKEY")
        construct_set_cmd wait_for_ok_or_timeout false
    ∷ entry cmd_set_appskey cmd_set (codes "application_session_key") (codes "AT+APPSKEY")
        construct_set_cmd wait_for_ok_or_timeout false
    ∷ entry cmd_set_appeui cmd_set (codes "application_eui") (codes "AT+APPEUI") construct_set_cmd
        wait_for_ok_or_timeout false
    ∷ entry cmd_set_adr cmd_set (codes "adaptive_data_rate") (codes "AT+ADR")
        construct_mac_param_cmd wait_for_ok_or_timeout true
    ∷ entry cmd_set_txp cmd_set (codes "transmit_power") (codes "AT+TXP") construct_mac_param_cmd
        wait_for_ok_or_timeout true
    ∷ entry cmd_set_dr cmd_set (codes "data_rate") (codes "AT+DR") construct_mac_param_cmd
        wait_for_ok_or_timeout true
    ∷ entry cmd_set_rx2fq cmd_set (codes "rx2_frequency") (codes "AT+RX2FQ") construct_set_cmd
        wait_for_ok_or_timeout false
    ∷ entry cmd_set_rx2dr cmd_set (codes "rx2_data_rate") (codes "AT+RX2DR") construct_mac_param_cmd
        wait_for_ok_or_timeout true
    ∷ entry cmd_set_rx1dl cmd_set (codes "rx1_delay") (codes "AT+RX1DL") construct_mac_param_cmd
        wait_for_ok_or_timeout true
    ∷ entry cmd_set_rx2dl cmd_set (codes "rx2_delay") (codes "AT+RX2DL") construct_mac_param_cmd
        wait_for_ok_or_timeout true
    ∷ []

-- write the delays of a join and the modes
abbrev pub set_mode_defs : List CommandDef
set_mode_defs =
    entry cmd_set_jn1dl cmd_set (codes "join1_delay") (codes "AT+JN1DL") construct_set_cmd
      wait_for_ok_or_timeout false
    ∷ entry cmd_set_jn2dl cmd_set (codes "join2_delay") (codes "AT+JN2DL") construct_set_cmd
        wait_for_ok_or_timeout false
    ∷ entry cmd_set_njm cmd_set (codes "network_join_mode") (codes "AT+NJM") set_njm_cmd
        wait_for_ok_or_timeout true
    ∷ entry cmd_set_nwkid cmd_set (codes "network_id") (codes "AT+NWKID") construct_set_cmd
        wait_for_ok_or_timeout false
    ∷ entry cmd_set_class cmd_set (codes "class") (codes "AT+CLASS") construct_set_cmd
        wait_for_ok_or_timeout false
    ∷ entry cmd_set_cfm cmd_set (codes "confirmation_mode") (codes "AT+CFM") set_cfm_cmd
        wait_for_ok_or_timeout true
    ∷ entry cmd_set_fcnt cmd_set (codes "frame_counter") (codes "AT+FCNT") construct_set_cmd
        wait_for_ok_or_timeout false
    ∷ []

-- send, asynchronous and internal commands
abbrev pub other_defs : List CommandDef
other_defs =
    entry cmd_send_text cmd_send (codes "send") (codes "AT+SEND") construct_send_cmd
      wait_for_ok_or_timeout false
    ∷ entry cmd_send_binary cmd_send (codes "sendb") (codes "AT+SEND") construct_send_cmd
        wait_for_ok_or_timeout false
    ∷ async_entry cmd_async_recv async_recv
    ∷ async_entry cmd_async_more_tx async_has_more_tx
    ∷ entry cmd_acquire_context cmd_internal (codes "context_acquire") (codes "AT+CTX")
        construct_get_cmd wait_for_ok_or_timeout false
    ∷ entry cmd_restore_context cmd_internal (codes "context_restore") (codes "AT")
        construct_context_restore_cmd wait_for_ok_or_timeout false
    ∷ entry cmd_delay cmd_internal (codes "delay") (codes "DELAY") construct_delay_cmd
        wait_for_good_timeout true
    ∷ entry cmd_force_update cmd_internal (codes "force_update") (codes "FORCE_UPDATE")
        construct_force_update_cmd wait_for_good_timeout true
    ∷ []

unfoldable pub cmd_def_list : List CommandDef
cmd_def_list =
    action_defs
    ++ (get_identity_defs
        ++ (get_status_defs ++ (set_identity_defs ++ (set_mode_defs ++ (other_defs)))))
