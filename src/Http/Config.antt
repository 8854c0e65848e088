-- ===== src/Http/Config.antt =====
-- The commands that `/config/get` and `/config/set` add.
use lorawanatd_canarin.Base.{
  ℕ, suc, ◌+◌, ◌≡◌, refl, ap, subst, sym, ◌∙◌, true, List, [], ◌∷◌, ◌++◌, append_assoc, append-nil,
  Option, some, none, Bytes, ok, >>=-ok, arith, length, length-append, get_elem?,
}
use lorawanatd_canarin.Command.Types.{Command, set, cmd_get, cmd_set}
use lorawanatd_canarin.Command.Make.{make_cmd}
use lorawanatd_canarin.Http.Json.{
  JsmnTok, jsmn_string, jsmn_array, jsmn_object, done, rejected, tok_at, tok_text, tok_len,
  all_strings, add_gets, get_config, add_sets, set_config,
}

get_elem?-append :
    {A : Type 0} (xs : List A) (y : A) (ys : List A) → get_elem? (xs ++ y ∷ ys) (length xs) ≡ some y
get_elem?-append [] y ys = refl
get_elem?-append (x ∷ xs) y ys = get_elem?-append xs y ys

tok_at-append :
    (pre : List JsmnTok) (tok : JsmnTok) (post : List JsmnTok) (i : ℕ)
    → i ≡ length pre
    → tok_at (pre ++ tok ∷ post) i ≡ ok tok
tok_at-append pre tok post i e = rw (e, get_elem?-append pre tok post) refl

-- Each token is a string that names a parameter that can be read, with this command for it.
abbrev pub Gets : Bytes → List JsmnTok → List Command → Type 0
Gets content [] [] = Unit
Gets content [] (c ∷ cs) = ⊥
Gets content (tok ∷ ts) [] = ⊥
Gets content (tok ∷ ts) (c ∷ cs) =
    (tok.type ≡ jsmn_string)
    × (make_cmd (tok_text content tok) (tok_len tok) none 60 cmd_get ≡ some c)
    × Gets content ts cs

all_strings-Gets :
    (content : Bytes) (toks : List JsmnTok) (cs : List Command) (pre post : List JsmnTok) (i : ℕ)
    → i ≡ length pre
    → Gets content toks cs
    → all_strings (pre ++ (toks ++ post)) (length toks) i ≡ ok true
unfolding all_strings
all_strings-Gets content [] cs pre post i e g = refl
all_strings-Gets content (tok ∷ toks) [] pre post i e g = absurd g
all_strings-Gets content (tok ∷ toks) (c ∷ cs) pre post i e g =
    rw (tok_at-append pre tok (toks ++ post) i e) (
      rw (g.0, all_strings)
        (subst (λ t. all_strings t (length toks) (i + 1) ≡ ok true)
          (append_assoc pre (tok ∷ []) (toks ++ post))
          (all_strings-Gets content toks cs (pre ++ tok ∷ []) post (i + 1)
            (omega (arith, e, length-append pre (tok ∷ []))) g.2)))

add_gets-next :
    (content : Bytes) (t : List JsmnTok) (n i : ℕ) (cmds : List Command) (tok : JsmnTok)
    (c : Command)
    → tok_at t i ≡ ok tok
    → make_cmd (tok_text content tok) (tok_len tok) none 60 cmd_get ≡ some c
    → add_gets content t (suc n) i cmds ≡ add_gets content t n (i + 1) (cmds ++ c ∷ [])
unfolding add_gets
add_gets-next content t n i cmds tok c at made =
    >>=-ok (tok_at t i)
      (λ (u : JsmnTok). elim (make_cmd (tok_text content u) (tok_len u) none 60 cmd_get) [
        | none ↦ ok (rejected cmds)
        | some cmd ↦ add_gets content t n (i + 1) (cmds ++ cmd ∷ [])
      ])
      at
    ∙ rw made refl

add_gets-Gets :
    (content : Bytes) (toks : List JsmnTok) (cs cmds : List Command) (pre post : List JsmnTok)
    (i : ℕ)
    → i ≡ length pre
    → Gets content toks cs
    → add_gets content (pre ++ (toks ++ post)) (length toks) i cmds ≡ ok (done (cmds ++ cs))
unfolding add_gets
add_gets-Gets content [] [] cmds pre post i e g =
    ap (λ (q : List Command). ok (done q)) (sym (append-nil cmds))
add_gets-Gets content [] (c ∷ cs) cmds pre post i e g = absurd g
add_gets-Gets content (tok ∷ toks) [] cmds pre post i e g = absurd g
add_gets-Gets content (tok ∷ toks) (c ∷ cs) cmds pre post i e g =
    add_gets-next content _ (length toks) i cmds tok c (tok_at-append pre tok (toks ++ post) i e)
      g.1
    ∙ (subst
        (λ t.
          add_gets content t (length toks) (i + 1) (cmds ++ c ∷ []) ≡ ok (done (cmds ++ c ∷ cs)))
        (append_assoc pre (tok ∷ []) (toks ++ post))
        (add_gets-Gets content toks cs (cmds ++ c ∷ []) (pre ++ tok ∷ []) post (i + 1)
            (omega (arith, e, length-append pre (tok ∷ []))) g.2
          ∙ ap (λ (q : List Command). ok (done q)) (append_assoc cmds (c ∷ []) cs)))

-- A list of strings that each name a parameter that can be read adds one command for each name,
-- in the order of the list, behind the commands that are there.
pub get_config-Gets :
    (content : Bytes) (top : JsmnTok) (toks post : List JsmnTok) (cs cmds : List Command)
    → top.type ≡ jsmn_array
    → top.size ≡ length toks
    → Gets content toks cs
    → get_config content (top ∷ (toks ++ post)) cmds ≡ ok (done (cmds ++ cs))
unfolding get_config
get_config-Gets content top toks post cs cmds array size g =
    rw (array, get_config)
      (rw strings (
        subst (λ n. add_gets content (top ∷ (toks ++ post)) n 1 cmds ≡ ok (done (cmds ++ cs)))
          (sym size) (add_gets-Gets content toks cs cmds (top ∷ []) post 1 refl g)))
  where
    strings : all_strings (top ∷ (toks ++ post)) top.size 1 ≡ ok true
    strings =
        subst (λ n. all_strings (top ∷ (toks ++ post)) n 1 ≡ ok true) (sym size)
          (all_strings-Gets content toks cs (top ∷ []) post 1 refl g)

-- The tokens are pairs of a name that can be set and a value, with this command for each.
abbrev pub Sets : Bytes → List (JsmnTok × JsmnTok) → List Command → Type 0
Sets content [] [] = Unit
Sets content [] (c ∷ cs) = ⊥
Sets content (p ∷ ps) [] = ⊥
Sets content (p ∷ ps) (c ∷ cs) =
    (make_cmd (tok_text content p.0) (tok_len p.0) (some (set (tok_text content p.1) (tok_len p.1)))
        60 cmd_set
      ≡ some c)
    × Sets content ps cs

abbrev pub flat : List (JsmnTok × JsmnTok) → List JsmnTok
flat [] = []
flat (p ∷ ps) = p.0 ∷ p.1 ∷ flat ps

add_sets-next :
    (content : Bytes) (t : List JsmnTok) (n i : ℕ) (cmds : List Command) (p : JsmnTok × JsmnTok)
    (c : Command)
    → tok_at t i ≡ ok p.0
    → tok_at t (i + 1) ≡ ok p.1
    → make_cmd
        (tok_text content p.0)
        (tok_len p.0)
        (some (set (tok_text content p.1) (tok_len p.1)))
        60
        cmd_set
      ≡ some c
    → add_sets content t (suc n) i cmds ≡ add_sets content t n (i + 2) (cmds ++ c ∷ [])
unfolding add_sets
add_sets-next content t n i cmds p c at at' made =
    rw (at, at')
      (by_cmd
        (make_cmd (tok_text content p.0) (tok_len p.0)
          (some (set (tok_text content p.1) (tok_len p.1))) 60 cmd_set)
        made)
  where
    by_cmd :
        (o : Option Command)
        → o ≡ some c
        → (elim o [
          | none ↦ ok (rejected cmds)
          | some cmd ↦ add_sets content t n (i + 2) (cmds ++ cmd ∷ [])
        ])
          ≡ add_sets content t n (i + 2) (cmds ++ c ∷ [])
    by_cmd none e = absurd (cc)
    by_cmd (some d) e =
        ap (λ (x : Command). add_sets content t n (i + 2) (cmds ++ x ∷ [])) (ground arith)

add_sets-Sets :
    (content : Bytes) (ps : List (JsmnTok × JsmnTok)) (cs cmds : List Command)
    (pre post : List JsmnTok) (i : ℕ)
    → i ≡ length pre
    → Sets content ps cs
    → add_sets content (pre ++ (flat ps ++ post)) (length ps) i cmds ≡ ok (done (cmds ++ cs))
unfolding add_sets
add_sets-Sets content [] [] cmds pre post i e g =
    ap (λ (q : List Command). ok (done q)) (sym (append-nil cmds))
add_sets-Sets content [] (c ∷ cs) cmds pre post i e g = absurd g
add_sets-Sets content (p ∷ ps) [] cmds pre post i e g = absurd g
add_sets-Sets content (p ∷ ps) (c ∷ cs) cmds pre post i e g =
    add_sets-next content _ (length ps) i cmds p c
      (tok_at-append pre p.0 (p.1 ∷ (flat ps ++ post)) i e) second g.0
    ∙ (subst
        (λ t. add_sets content t (length ps) (i + 2) (cmds ++ c ∷ []) ≡ ok (done (cmds ++ c ∷ cs)))
        (append_assoc pre (p.0 ∷ p.1 ∷ []) (flat ps ++ post))
        (add_sets-Sets content ps cs (cmds ++ c ∷ []) (pre ++ p.0 ∷ p.1 ∷ []) post (i + 2)
            (omega (arith, e, length-append pre (p.0 ∷ p.1 ∷ []))) g.1
          ∙ ap (λ (q : List Command). ok (done q)) (append_assoc cmds (c ∷ []) cs)))
  where
    second : tok_at (pre ++ (p.0 ∷ p.1 ∷ (flat ps ++ post))) (i + 1) ≡ ok p.1
    second =
        subst (λ t. tok_at t (i + 1) ≡ ok p.1)
          (append_assoc pre (p.0 ∷ []) (p.1 ∷ (flat ps ++ post)))
          (tok_at-append (pre ++ p.0 ∷ []) p.1 (flat ps ++ post) (i + 1)
            (omega (arith, e, length-append pre (p.0 ∷ []))))

-- An object whose names can all be set adds one command for each pair, with the value as its
-- parameter, in the order of the object, behind the commands that are there.
pub set_config-Sets :
    (content : Bytes) (top : JsmnTok) (ps : List (JsmnTok × JsmnTok)) (post : List JsmnTok)
    (cs cmds : List Command)
    → top.type ≡ jsmn_object
    → top.size ≡ length ps
    → Sets content ps cs
    → set_config content (top ∷ (flat ps ++ post)) cmds ≡ ok (done (cmds ++ cs))
unfolding set_config
set_config-Sets content top ps post cs cmds object size g =
    rw (object, set_config)
      (subst (λ n. add_sets content (top ∷ (flat ps ++ post)) n 1 cmds ≡ ok (done (cmds ++ cs)))
        (sym size) (add_sets-Sets content ps cs cmds (top ∷ []) post 1 refl g))
