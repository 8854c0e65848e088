-- ===== src/Process/Sockets.antt =====
-- The listening sockets: `init_tcp_listen_sock` and `set_nonblock_sock` of src/util.c.
use lorawanatd_canarin.Base.{ℕ, Bool, true, false, Option, none, some, if◌then◌else◌}
use lorawanatd_canarin.LwanContext.{set_bit}

-- What the system calls for one socket return; `none` is -1.
pub record Calls : Type 0 where
  pub socket : Option ℕ
  pub setsockopt : Bool
  pub bind : Bool
  pub listen : Bool
  pub getfl : Option ℕ
  pub setfl : Bool

pub data Address : Type 0 where
  inaddr_any inaddr_loopback : Address

-- A socket that listens, and its file status flags.
pub record Listener : Type 0 where
  pub fd : ℕ
  pub address : Address
  pub port : ℕ
  pub flags : ℕ

-- `O_NONBLOCK` is bit 11.
abbrev pub nonblock_bit : ℕ
nonblock_bit = 11

-- The new flags, or `none` for an error.
unfoldable pub set_nonblock_sock : Calls → Option ℕ
set_nonblock_sock calls = elim calls.getfl [
  | none ↦ none
  | some flags ↦ if calls.setfl then some (set_bit flags nonblock_bit) else none
]

unfoldable pub init_tcp_listen_sock : Calls → ℕ → Bool → Option Listener
unfolding set_nonblock_sock
init_tcp_listen_sock calls port remote_mode = elim calls.socket [
  | none ↦ none
  | some fd ↦ elim calls.setsockopt [
    | false ↦ none
    | true ↦ elim calls.bind [
      | false ↦ none
      | true ↦ elim calls.listen [
        | false ↦ none
        | true ↦ elim (set_nonblock_sock calls) [
          | none ↦ none
          | some flags ↦ some (record {
            fd = fd;
            address = if remote_mode then inaddr_any else inaddr_loopback;
            port = port;
            flags = flags;
          })
        ]
      ]
    ]
  ]
]
