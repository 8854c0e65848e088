-- ===== src/Uart/Raw.antt =====
-- The serial device is raw, with eight bits, no parity and one stop bit.
use lorawanatd_canarin.Base.{ℕ, Bool, false, ◌||◌, List, [], ◌∷◌, ◌==◌}

abbrev pub mem : ℕ → List ℕ → Bool
mem i [] = false
mem i (j ∷ js) = j == i || mem i js

abbrev pub cleared_control : List ℕ
cleared_control = 31 ∷ 6 ∷ 8 ∷ []

abbrev pub set_control : List ℕ
set_control = 11 ∷ 7 ∷ 4 ∷ 5 ∷ []
