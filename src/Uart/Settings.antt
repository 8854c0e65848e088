-- ===== src/Uart/Settings.antt =====
-- The settings of the serial device: `set_interface_attribs` of src/uart.c, as `uart_reset` calls
-- it. The flags are numbers; their bits are those of <termios.h> on Linux.
use lorawanatd_canarin.Base.{ℕ, Bool, List, [], ◌∷◌, Option, none, some, if◌then◌else◌}
use lorawanatd_canarin.LwanContext.{set_bit, clear_bit}

-- `struct termios`, with the speeds apart from the flags, and two of the control characters.
pub record Termios : Type 0 where
  pub c_iflag : ℕ
  pub c_oflag : ℕ
  pub c_cflag : ℕ
  pub c_lflag : ℕ
  pub ispeed : ℕ
  pub ospeed : ℕ
  pub vmin : ℕ
  pub vtime : ℕ

-- What `tcgetattr` reads, if it succeeds, and whether `tcsetattr` does.
pub record TermiosCalls : Type 0 where
  pub tcgetattr : Option Termios
  pub tcsetattr : Bool

-- `flags |= …` and `flags &= ~…` for some bits.
unfoldable pub set_bits : List ℕ → ℕ → ℕ
set_bits [] flags = flags
set_bits (i ∷ is) flags = set_bits is (set_bit flags i)

unfoldable pub clear_bits : List ℕ → ℕ → ℕ
clear_bits [] flags = flags
clear_bits (i ∷ is) flags = clear_bits is (clear_bit flags i)

-- CLOCAL and CREAD; CSIZE and CS8; PARENB, CSTOPB and CRTSCTS.
abbrev pub local_read : List ℕ
local_read = 11 ∷ 7 ∷ []

abbrev pub csize : List ℕ
csize = 4 ∷ 5 ∷ []

abbrev pub parenb : List ℕ
parenb = 8 ∷ []

abbrev pub cstopb : List ℕ
cstopb = 6 ∷ []

abbrev pub crtscts : List ℕ
crtscts = 31 ∷ []

-- IGNBRK, BRKINT, PARMRK, ISTRIP, INLCR, IGNCR, ICRNL and IXON.
abbrev pub input_modes : List ℕ
input_modes = 0 ∷ 1 ∷ 3 ∷ 5 ∷ 6 ∷ 7 ∷ 8 ∷ 10 ∷ []

-- ECHO, ECHONL, ICANON, ISIG and IEXTEN.
abbrev pub local_modes : List ℕ
local_modes = 3 ∷ 6 ∷ 1 ∷ 0 ∷ 15 ∷ []

abbrev pub opost : List ℕ
opost = 0 ∷ []

unfoldable pub control_flags : ℕ → ℕ
unfolding set_bits clear_bits
control_flags flags = clear_bits crtscts (
    clear_bits cstopb
      (clear_bits parenb (set_bits csize (clear_bits csize (set_bits local_read flags)))))

-- The settings that are handed to `tcsetattr`.
unfoldable pub raw : ℕ → Termios → Termios
unfolding control_flags clear_bits
raw speed tty = record {
  c_iflag = clear_bits input_modes tty.c_iflag;
  c_oflag = clear_bits opost tty.c_oflag;
  c_cflag = control_flags tty.c_cflag;
  c_lflag = clear_bits local_modes tty.c_lflag;
  ispeed = speed;
  ospeed = speed;
  vmin = 0;
  vtime = 2;
}

-- What the device is set to, or `none` for RETURN_ERROR.
unfoldable pub set_interface_attribs : TermiosCalls → ℕ → Option Termios
unfolding raw
set_interface_attribs calls speed = elim calls.tcgetattr [
  | none ↦ none
  | some tty ↦ if calls.tcsetattr then some (raw speed tty) else none
]

-- `BAUDRATE` is B9600.
abbrev pub baudrate : ℕ
baudrate = 13

-- The call in `uart_reset`, whose result is not looked at.
unfoldable pub uart_settings : TermiosCalls → Option Termios
unfolding set_interface_attribs
uart_settings calls = set_interface_attribs calls baudrate
