-- ===== src/Context/Counter.antt =====
-- Every tenth send or receive saves the contexts of the board.
use lorawanatd_canarin.Base.{ℕ, zero, suc, if◌then◌else◌}
use lorawanatd_canarin.State.{ContextManager}
use lorawanatd_canarin.Context.Params.{update_cntr}

-- So many sends and receives, and how many of them were a tenth.
unfoldable pub count_updates : ℕ → ContextManager → ContextManager × ℕ
count_updates zero m = (m, 0)
count_updates (suc n) m =
    let rest = count_updates n (update_cntr m).0 in
    (rest.0, if (update_cntr m).1 then suc rest.1 else rest.1)
