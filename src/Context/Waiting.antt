-- ===== src/Context/Waiting.antt =====
-- A MAC parameter that is set is written to the board by the next join or force update.
use lorawanatd_canarin.Base.{List}
use lorawanatd_canarin.LwanContext.{LwanContext}
use lorawanatd_canarin.Command.Types.{Command}
