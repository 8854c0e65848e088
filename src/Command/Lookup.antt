-- ===== src/Command/Lookup.antt =====
-- What `make_cmd` finds: the entry for a token in a group, and no other.
use mathlib.Core.List.{Memᴰ}
use lorawanatd_canarin.Base.{
  All-Memᴰ, ℕ, ◌≡◌, refl, sym, ◌∙◌, inl, inr, Bool, true, false, not, ◌&&◌, ◌||◌, List, [], ◌∷◌,
  ◌++◌, Option, some, arith, Bytes, ◌==◌, ==_refl, if◌then◌else◌, Bool-cases, Option-cases, length,
  take, strncmp_eq, take-length-append, subst, all, All, all-All,
}
use lorawanatd_canarin.Command.Types.{
  CmdGroup, CommandDef, CommandParam, Command, group_eq, cmd_async,
}
use lorawanatd_canarin.Command.Table.{cmd_def_list}
use lorawanatd_canarin.Command.Make.{is_wanted, find_def, make_cmd, new_cmd}

bytes_eq : Bytes → Bytes → Bool
bytes_eq [] [] = true
bytes_eq (c ∷ s) (d ∷ t) = c == d && bytes_eq s t
bytes_eq _ _ = false

bytes_eq_refl : (s : Bytes) → bytes_eq s s ≡ true
unfolding bytes_eq
bytes_eq_refl [] = refl
bytes_eq_refl (c ∷ s) = ground (arith, ==_refl c, bytes_eq_refl s)

abbrev nonzero : ℕ → Bool
nonzero c = not (c == 0)

-- A comparison over the whole of a token that holds no NUL.
strncmp_eq-take :
    (s t : Bytes) → all nonzero t ≡ true → strncmp_eq s t (length t) ≡ true → take (length t) s ≡ t
unfolding strncmp_eq
strncmp_eq-take s [] nz h = refl
strncmp_eq-take [] (d ∷ t) nz h = ground arith
strncmp_eq-take (c ∷ s) (d ∷ t) nz h = ground (arith, strncmp_eq-take s t)

strncmp_eq-append : (t rest : Bytes) → strncmp_eq (t ++ rest) t (length t) ≡ true
unfolding strncmp_eq
strncmp_eq-append [] rest = refl
strncmp_eq-append (c ∷ t) rest = ground (arith, ==_refl c, strncmp_eq-append t rest)

group_eq_refl : (g : CmdGroup) → group_eq g g ≡ true
group_eq_refl g = ground arith

group_eq-eq : (g h : CmdGroup) → group_eq g h ≡ true → g ≡ h
group_eq-eq g h e = ground arith

-- Two entries that the same token and group would find.
abbrev same_key : CommandDef → CommandDef → Bool
same_key a b = group_eq a.group b.group && bytes_eq a.token b.token

keys_distinct : List CommandDef → Bool
keys_distinct [] = true
keys_distinct (d ∷ ds) =
    (group_eq d.group cmd_async || all (λ e. not (same_key e d)) ds) && keys_distinct ds

abbrev no_nul : CommandDef → Bool
no_nul d = all nonzero d.token

cmd_def_list-distinct : keys_distinct cmd_def_list ≡ true
unfolding keys_distinct cmd_def_list bytes_eq
cmd_def_list-distinct = refl

cmd_def_list-no_nul : all no_nul cmd_def_list ≡ true
unfolding cmd_def_list
cmd_def_list-no_nul = refl

find_def_sound :
    (defs : List CommandDef) (token : Bytes) (n : ℕ) (group : CmdGroup) {def : CommandDef}
    → find_def defs token n group ≡ some def
    → Memᴰ def defs × (is_wanted token n group def ≡ true)
unfolding find_def
find_def_sound [] token n group e = cc
find_def_sound (d ∷ ds) token n group {def} e = elim (Bool-cases (is_wanted token n group d)) [
  | inl hit ↦
      let found : d ≡ def = ground arith in
      (Memᴰ.head (sym found), subst (λ x. is_wanted token n group x ≡ true) found hit)
  | inr miss ↦
      let (m, wanted) = find_def_sound ds token n group {def = def} (rw miss at e) in
      (Memᴰ.tail m, wanted)
]

-- What an entry says of the token that was looked up.
wanted-token :
    (def : CommandDef) (token : Bytes) (n : ℕ) (group : CmdGroup)
    → no_nul def ≡ true
    → is_wanted token n group def ≡ true
    → (def.group ≡ group) × (n ≡ length def.token) × (take n token ≡ def.token)
unfolding is_wanted
wanted-token def token n group nz h =
    let same_len : n ≡ length def.token = ground arith in
    let compared : strncmp_eq token def.token (length def.token) ≡ true =
      rw (← same_len) (ground arith) in
    (
      sym (group_eq-eq group def.group (ground arith)),
      same_len,
      rw same_len (strncmp_eq-take token def.token nz compared),
    )

-- An entry is found by its own token, whatever stands behind it.
token-wanted :
    (def : CommandDef) (rest : Bytes)
    → is_wanted (def.token ++ rest) (length def.token) def.group def ≡ true
unfolding is_wanted
token-wanted def rest =
    ground
      (arith, group_eq_refl def.group, ==_refl (length def.token), strncmp_eq-append def.token rest)

-- An entry that the token of another finds has its key.
wanted-same_key :
    (d def : CommandDef) (rest : Bytes)
    → no_nul d ≡ true
    → is_wanted (def.token ++ rest) (length def.token) def.group d ≡ true
    → same_key def d ≡ true
wanted-same_key d def rest nz h =
    let (g, len, tok) = wanted-token d (def.token ++ rest) (length def.token) def.group nz h in
    let same : def.token ≡ d.token = sym (take-length-append def.token rest) ∙ tok in
    rw (g, group_eq_refl def.group)
      (subst (λ t. bytes_eq def.token t ≡ true) same (bytes_eq_refl def.token))

clash :
    (d : CommandDef) (ds : List CommandDef) (def : CommandDef)
    → same_key def d ≡ true
    → group_eq def.group cmd_async ≡ false
    → (group_eq d.group cmd_async || all (λ e. not (same_key e d)) ds) ≡ true
    → Memᴰ def ds
    → ⊥
clash d ds def key sync distinct m =
    let same : def.group ≡ d.group = group_eq-eq def.group d.group (ground arith) in
    let others : all (λ e. not (same_key e d)) ds ≡ true = ground arith in
    let other : not (same_key def d) ≡ true =
      All-Memᴰ (λ e. not (same_key e d) ≡ true) ds (all-All _ ds others) m in
    ground arith

find_def_complete :
    (defs : List CommandDef) (def : CommandDef) (rest : Bytes)
    → keys_distinct defs ≡ true
    → All (λ d. no_nul d ≡ true) defs
    → group_eq def.group cmd_async ≡ false
    → Memᴰ def defs
    → find_def defs (def.token ++ rest) (length def.token) def.group ≡ some def
unfolding find_def keys_distinct
find_def_complete [] def rest distinct nz sync m = elim m [ ]
find_def_complete (d ∷ ds) def rest distinct nz sync (Memᴰ.head e) =
    subst
      (λ x.
        (if is_wanted (def.token ++ rest) (length def.token) def.group x
          then some x
          else find_def ds (def.token ++ rest) (length def.token) def.group)
        ≡ some def)
      e (rw (token-wanted def rest))
find_def_complete (d ∷ ds) def rest distinct nz sync (Memᴰ.tail m) =
    elim (Bool-cases (is_wanted (def.token ++ rest) (length def.token) def.group d)) [
      | inr miss ↦ rw miss (find_def_complete ds def rest (ground arith) nz.1 sync m)
      | inl hit ↦
          let key : same_key def d ≡ true = wanted-same_key d def rest nz.0 hit in
          absurd (clash d ds def key sync (ground arith) m)
    ]

pub make_cmd_sound :
    (token : Bytes) (n : ℕ) (param : Option CommandParam) (timeout : ℕ) (group : CmdGroup)
    {cmd : Command}
    → make_cmd token n param timeout group ≡ some cmd
    → (def : CommandDef) × Memᴰ def cmd_def_list
      × (def.group ≡ group)
      × (n ≡ length def.token)
      × (take n token ≡ def.token)
      × (cmd ≡ new_cmd param timeout def)
unfolding make_cmd
make_cmd_sound token n param timeout group {cmd} e =
    elim (Option-cases (find_def cmd_def_list token n group)) [
      | inl missing ↦ absurd (ground arith)
      | inr (def, found) ↦
          let (m, wanted) = find_def_sound cmd_def_list token n group found in
          let nz : no_nul def ≡ true =
            All-Memᴰ (λ d. no_nul d ≡ true) cmd_def_list
              (all-All no_nul cmd_def_list cmd_def_list-no_nul) m in
          let (g, len, tok) = wanted-token def token n group nz wanted in
          (def, m, g, len, tok, ground arith)
    ]

-- Every entry but the asynchronous ones can be asked for: its group and its token, whatever
-- stands behind the token in the text, make a new command of that very entry.
pub make_cmd_complete :
    (def : CommandDef) (rest : Bytes) (param : Option CommandParam) (timeout : ℕ)
    → Memᴰ def cmd_def_list
    → group_eq def.group cmd_async ≡ false
    → make_cmd (def.token ++ rest) (length def.token) param timeout def.group
      ≡ some (new_cmd param timeout def)
unfolding make_cmd
make_cmd_complete def rest param timeout m sync = rw (
    find_def_complete cmd_def_list def rest cmd_def_list-distinct
      (all-All no_nul cmd_def_list cmd_def_list-no_nul) sync m)
