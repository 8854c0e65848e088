-- ===== src/Http/Reply.antt =====
-- `reply_get_cmds`: the responses as a JSON list.
use lorawanatd_canarin.Base.{
  ℕ, List, [], ◌∷◌, ◌++◌, Bytes, codes, strncpy, Outcome, ok, in_bounds, ◌>>=◌, ◌>>◌, ltb, length,
}
use lorawanatd_canarin.Util.Trim.{trim}
use lorawanatd_canarin.Command.Types.{Command, cmd_buf_size}

-- One line for each command, and a comma behind all but the last. `sptr` moves on by the whole
-- length, also where `strncpy` pads behind a NUL of the response.
unfoldable pub reply_lines : List Command → Outcome Bytes
unfolding trim strncpy
reply_lines [] = ok []
reply_lines (cmd ∷ []) = do
  text ← trim cmd_buf_size cmd.buf
  ok (codes "\"" ++ (strncpy (length text) text ++ codes "\"\n"))
reply_lines (cmd ∷ c ∷ cs) = do
  text ← trim cmd_buf_size cmd.buf
  rest ← reply_lines (c ∷ cs)
  ok (codes "\"" ++ (strncpy (length text) text ++ (codes "\",\n" ++ rest)))

abbrev pub reply_size : ℕ
reply_size = 8196

-- The text is built in a buffer of 8196 bytes.
unfoldable pub reply_get_cmds : List Command → Outcome Bytes
unfolding reply_lines
reply_get_cmds cmds = do
  lines ← reply_lines cmds
  let text = codes "[\n" ++ (lines ++ codes "]\n")
  in_bounds (ltb (length text) reply_size)
  ok text
