-- ===== src/Http/Listing.antt =====
-- The reply to a client: the answers to its commands as a JSON list.
use lorawanatd_canarin.Base.{
  ◌+◌, ◌≡◌, ◌≤◌, ◌<◌, refl, subst, true, List, [], ◌∷◌, ◌++◌, append-nil, Bytes, codes, ok, arith,
  All, NoNul, length, ltb, strncpy, strncpy-whole, length-append,
}
use lorawanatd_canarin.Util.Trim.{trim, trim_lem, IsWspace, IsTrimmed}
use lorawanatd_canarin.Command.Types.{Command, cmd_buf_size}
use lorawanatd_canarin.Http.Reply.{reply_lines, reply_get_cmds, reply_size}

-- A command whose answer is a text between white space.
pub record Answered (cmd : Command) (text : Bytes) : Type 0 where
  pub before : Bytes
  pub after : Bytes
  pub received : cmd.buf ≡ before ++ (text ++ after)
  pub blank_before : All IsWspace before
  pub blank_after : All IsWspace after
  pub trimmed : IsTrimmed text
  pub clean : NoNul text
  pub fits : length before + length text ≤ cmd_buf_size
  pub room : length text < cmd_buf_size

abbrev pub AllAnswered : List Command → List Bytes → Type 0
AllAnswered [] [] = Unit
AllAnswered [] (t ∷ ts) = ⊥
AllAnswered (c ∷ cs) [] = ⊥
AllAnswered (c ∷ cs) (t ∷ ts) = Answered c t × AllAnswered cs ts

-- The lines of the list: quoted texts, with commas between them.
abbrev pub quoted : List Bytes → Bytes
quoted [] = []
quoted (t ∷ []) = codes "\"" ++ (t ++ codes "\"\n")
quoted (t ∷ u ∷ ts) = codes "\"" ++ (t ++ (codes "\",\n" ++ quoted (u ∷ ts)))

trim-Answered :
    (cmd : Command) (text : Bytes) → Answered cmd text → trim cmd_buf_size cmd.buf ≡ ok text
trim-Answered cmd text a = rw a.received (
    trim_lem cmd_buf_size a.before text a.after a.blank_before a.blank_after a.trimmed a.fits a.room
      (omega arith))

strncpy-text : (t : Bytes) → NoNul t → strncpy (length t) t ≡ t
strncpy-text t h = subst (λ u. strncpy (length t) u ≡ t) (append-nil t) (strncpy-whole t [] h)

reply_lines-quoted :
    (cs : List Command) (ts : List Bytes) → AllAnswered cs ts → reply_lines cs ≡ ok (quoted ts)
unfolding reply_lines
reply_lines-quoted [] [] h = refl
reply_lines-quoted [] (t ∷ ts) h = absurd h
reply_lines-quoted (c ∷ cs) [] h = absurd h
reply_lines-quoted (c ∷ []) (t ∷ []) h =
    rw (trim-Answered c t h.0) (rw (strncpy-text t h.0.clean) refl)
reply_lines-quoted (c ∷ []) (t ∷ u ∷ ts) h = absurd h.1
reply_lines-quoted (c ∷ d ∷ cs) (t ∷ []) h = absurd h.1
reply_lines-quoted (c ∷ d ∷ cs) (t ∷ u ∷ ts) h =
    rw (trim-Answered c t h.0)
      (rw (reply_lines-quoted (d ∷ cs) (u ∷ ts) h.1) (rw (strncpy-text t h.0.clean) refl))

-- The reply to a client is the list of the answers to its commands, without the white space
-- around them, quoted, with a comma and a line break between two, if the list fits into the
-- buffer.
pub reply_get_cmds-quoted :
    (cs : List Command) (ts : List Bytes)
    → AllAnswered cs ts
    → length (quoted ts) + 4 < reply_size
    → reply_get_cmds cs ≡ ok (codes "[\n" ++ (quoted ts ++ codes "]\n"))
unfolding reply_get_cmds
reply_get_cmds-quoted cs ts h fits = rw (reply_lines-quoted cs ts h) (
    let e : ltb (length (codes "[\n" ++ (quoted ts ++ codes "]\n"))) reply_size ≡ true =
      ground (arith, length-append (quoted ts) (codes "]\n"), fits) in
    rw e refl)
