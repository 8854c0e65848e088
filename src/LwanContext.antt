-- ===== src/LwanContext.antt =====
-- The state that src/include/context_manager.h declares: MAC parameters and firmware contexts.
pub mod Bits
use lorawanatd_canarin.Base.{ℕ, ◌+◌, ◌-◌, ◌/◌, ◌%◌, ◌^◌, Bool, List, Bytes, ◌==◌, if◌then◌else◌}

-- `enum mac_pram_type_e`, as the indices of the array `params`
abbrev pub mac_param_adr : ℕ
mac_param_adr = 0

abbrev pub mac_param_data_rate : ℕ
mac_param_data_rate = 1

abbrev pub mac_param_transmit_power : ℕ
mac_param_transmit_power = 2

abbrev pub mac_param_rx1_delay : ℕ
mac_param_rx1_delay = 3

abbrev pub mac_param_rx2_delay : ℕ
mac_param_rx2_delay = 4

abbrev pub mac_param_rx2_data_rate : ℕ
mac_param_rx2_data_rate = 5

abbrev pub param_uninit : ℕ
param_uninit = 255

-- `dirty` is a `uint16_t`, the modes are `uint8_t`, the six `params` are `uint32_t`.
pub record MacParams : Type 0 where
  pub dirty : ℕ
  pub network_join_mode : ℕ
  pub confirmation_mode : ℕ
  pub params : List ℕ

-- Seven firmware contexts: their texts, and their lengths without the terminator.
pub record LwanContext : Type 0 where
  pub mac_params : MacParams
  pub ctx_len : List ℕ
  pub ctx : List Bytes

-- The bit `MAC_PARAM_BIT(i)` of `dirty`: `dirty & bit`, `dirty |= bit` and `dirty &= ~bit`.
abbrev pub test_bit : ℕ → ℕ → Bool
test_bit dirty i = dirty / 2 ^ i % 2 == 1

abbrev pub set_bit : ℕ → ℕ → ℕ
set_bit dirty i = if test_bit dirty i then dirty else dirty + 2 ^ i

abbrev pub clear_bit : ℕ → ℕ → ℕ
clear_bit dirty i = if test_bit dirty i then dirty - 2 ^ i else dirty
