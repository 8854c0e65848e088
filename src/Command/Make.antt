-- ===== src/Command/Make.antt =====
-- `make_cmd` of src/command.c.
use lorawanatd_canarin.Base.{
  ℕ, Bool, ◌&&◌, List, [], ◌∷◌, Option, none, some, Bytes, ◌==◌, if◌then◌else◌, length, strncmp_eq,
}
use lorawanatd_canarin.Command.Types.{
  CmdGroup, CommandDef, CommandParam, Command, group_eq, zeroed, cmd_new,
}
use lorawanatd_canarin.Command.Table.{cmd_def_list}

abbrev pub default_timeout : ℕ
default_timeout = 15

-- The test of the loop of `make_cmd`.
unfoldable pub is_wanted : Bytes → ℕ → CmdGroup → CommandDef → Bool
is_wanted token token_len group def =
    group_eq group def.group
    && (token_len == length def.token && strncmp_eq token def.token token_len)

-- The first entry that passes the test.
unfoldable pub find_def : List CommandDef → Bytes → ℕ → CmdGroup → Option CommandDef
find_def [] token token_len group = none
find_def (def ∷ defs) token token_len group =
    if is_wanted token token_len group def then some def else find_def defs token token_len group

-- `param` is NULL for `none`.
abbrev param_or_zeroed : Option CommandParam → CommandParam
param_or_zeroed none = zeroed
param_or_zeroed (some p) = p

abbrev pub new_cmd : Option CommandParam → ℕ → CommandDef → Command
new_cmd param timeout_in_sec def = record {
  def = def;
  epoc_timeout = 0;
  timeout = if timeout_in_sec == 0 then default_timeout else timeout_in_sec;
  param = param_or_zeroed param;
  buf = [];
  state = cmd_new;
}

abbrev from_def : Option CommandParam → ℕ → Option CommandDef → Option Command
from_def param timeout_in_sec none = none
from_def param timeout_in_sec (some def) = some (new_cmd param timeout_in_sec def)

unfoldable pub make_cmd : Bytes → ℕ → Option CommandParam → ℕ → CmdGroup → Option Command
unfolding find_def is_wanted
make_cmd token token_len param timeout_in_sec group =
    from_def param timeout_in_sec (find_def cmd_def_list token token_len group)
