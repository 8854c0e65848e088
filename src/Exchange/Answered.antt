-- ===== src/Exchange/Answered.antt =====
-- A command from its start to its answer.
use lorawanatd_canarin.Command.Types.{Command}
