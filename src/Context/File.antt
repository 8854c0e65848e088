-- ===== src/Context/File.antt =====
-- The context file: `read_context`, `write_context` and `reset_lwan_ctx`.
use lorawanatd_canarin.Base.{Bool, [], ◌∷◌, Option, none, some, replicate, if◌then◌else◌}
use lorawanatd_canarin.LwanContext.{LwanContext, MacParams, param_uninit}
use lorawanatd_canarin.State.{Lw, Env, FileWrite, written, cannot_open, cannot_write}

-- With no file that can be read whole the context stays as it is.
abbrev read_file : Option LwanContext → Lw → Lw
read_file none lw = lw
read_file (some ctx) lw = record lw { lwan_ctx = ctx }

unfoldable pub read_context : Lw → Lw
read_context lw = read_file lw.file lw

-- `fopen(_, "wb")` empties the file, so a write that fails leaves one that cannot be read whole.
abbrev write_file : FileWrite → Lw → Lw
write_file written lw = record lw { file = some lw.lwan_ctx }
write_file cannot_open lw = lw
write_file cannot_write lw = record lw { file = none }

unfoldable pub write_context : Env → Lw → Lw
write_context env lw = write_file env.file_write lw

-- The structure that `reset_lwan_ctx` writes over the whole of `mac_params`: the initialiser
-- names the first parameter only, and neither of the modes.
abbrev pub reset_mac_params : MacParams
reset_mac_params = record {
  dirty = 0;
  network_join_mode = 0;
  confirmation_mode = 0;
  params = param_uninit ∷ replicate 5 0;
}

abbrev pub zeroed_lwan_ctx : LwanContext
zeroed_lwan_ctx = record {
  mac_params = record {
    dirty = 0;
    network_join_mode = 0;
    confirmation_mode = 0;
    params = replicate 6 0;
  };
  ctx_len = replicate 7 0;
  ctx = replicate 7 [];
}

-- `memset`, the two assignments to the modes, and the assignment of the structure.
abbrev assign_mac_params : MacParams → LwanContext → LwanContext
assign_mac_params mac ctx = record ctx { mac_params = mac }

abbrev with_modes : MacParams → MacParams
with_modes mac = record mac { network_join_mode = 1; confirmation_mode = 0 }

unfoldable pub reset_lwan_ctx : Bool → Lw → Lw
reset_lwan_ctx delete lw =
    let ctx = assign_mac_params (with_modes zeroed_lwan_ctx.mac_params) zeroed_lwan_ctx in
    let lw' = record lw { lwan_ctx = assign_mac_params reset_mac_params ctx } in
    if delete then record lw' { file = none } else lw'
