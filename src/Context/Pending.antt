-- ===== src/Context/Pending.antt =====
-- Every MAC parameter that waits is written to the board, and none waits any more.
use lorawanatd_canarin.Base.{
  ℕ, ◌≡◌, refl, sym, ap, ◌∙◌, true, false, List, [], ◌∷◌, ◌++◌, Bytes, some, codes, ok, All, arith,
  length, get_or, print_u, NoNul, NoNul-print_u, c_string-whole, strncpy, strncpy-whole, append-nil,
  subst, Bool-cases, inl, inr, All-append, if◌then◌else◌, if-true, strncmp_eq, ◌==◌,
}
use lorawanatd_canarin.LwanContext.{MacParams, test_bit, clear_bit}
use lorawanatd_canarin.LwanContext.Bits.{test_bit-clear_bit, test_bit-clear_bit_same}
use lorawanatd_canarin.Command.Types.{Command, CommandParam, set, cmd_set}
use lorawanatd_canarin.Command.Make.{make_cmd, find_def, is_wanted}
use lorawanatd_canarin.Command.Table.{cmd_def_list}
use lorawanatd_canarin.Command.Construct.{set_text}
use lorawanatd_canarin.Context.Params.{collect_dirty, to_hardware}

-- A parameter: its index, its token and its AT command.
abbrev pub Row : Type 0
Row = ℕ × (Bytes × Bytes)

abbrev pub rows : List Row
rows =
    (0, (codes "adaptive_data_rate", codes "AT+ADR"))
    ∷ (1, (codes "data_rate", codes "AT+DR"))
    ∷ (2, (codes "transmit_power", codes "AT+TXP"))
    ∷ (3, (codes "rx1_delay", codes "AT+RX1DL"))
    ∷ (4, (codes "rx2_delay", codes "AT+RX2DL"))
    ∷ (5, (codes "rx2_data_rate", codes "AT+RX2DR"))
    ∷ []

abbrev tokens : List Row → List (ℕ × Bytes)
tokens [] = []
tokens ((i, (token, at)) ∷ rs) = (i, token) ∷ tokens rs

-- The texts for the parameters that wait, in their order.
abbrev pub pending : List Row → MacParams → List Bytes
pending [] mac = []
pending ((i, (token, at)) ∷ rs) mac =
    let rest = pending rs mac in
    if test_bit mac.dirty i
    then (at ++ (codes "=" ++ print_u (get_or mac.params i 0))) ∷ rest
    else rest

abbrev pub set_texts : List Command → List Bytes
set_texts [] = []
set_texts (c ∷ cs) = set_text c ∷ set_texts cs

abbrev Makes : Row → Type 0
Makes (i, (token, at)) =
    (p : CommandParam)
    → (cmd : Command) × (make_cmd token (length token) (some p) 0 cmd_set ≡ some cmd)
      × (cmd.def.cmd ≡ at)
      × (cmd.param ≡ p)

-- What the proof uses of a parameter and of those behind it.
record Good (r : Row) (rs : List Row) : Type 0 where
  makes : Makes r
  clean : NoNul r.1.1
  apart : All (λ s. (r.0 == s.0) ≡ false) rs

abbrev AllGood : List Row → Type 0
AllGood [] = Unit
AllGood (r ∷ rs) = Good r rs × AllGood rs

-- What `set_mac_params` comes to before it queues its client.
pub record Written (rs : List Row) (mac : MacParams) : Type 0 where
  pub cmds : List Command
  pub mac' : MacParams
  pub collected : collect_dirty (tokens rs) mac ≡ ok (cmds, mac')
  pub texts : set_texts cmds ≡ pending rs mac
  pub on_board : All (λ c. c.def.local_state ≡ false) cmds
  pub clear : All (λ r. test_bit mac'.dirty r.0 ≡ false) rs
  others : (i : ℕ) → All (λ r. (i == r.0) ≡ false) rs → test_bit mac'.dirty i ≡ test_bit mac.dirty i

set_text-number :
    (cmd : Command) (at text : Bytes)
    → cmd.def.cmd ≡ at
    → cmd.param ≡ set text (length text)
    → NoNul at
    → NoNul text
    → set_text cmd ≡ at ++ (codes "=" ++ text)
unfolding set_text strncpy
set_text-number cmd at text e p ha ht =
    rw (e, p)
      (rw (whole at ha, whole text ht)
        (c_string-whole (at ++ (codes "=" ++ text))
          (All-append _ at (codes "=" ++ text) ha (refl, ht))))
  where
    whole : (s : Bytes) → NoNul s → strncpy (length s) s ≡ s
    whole s h = subst (λ t. strncpy (length s) t ≡ s) (append-nil s) (strncpy-whole s [] h)

pending-dirty :
    (i : ℕ) (rs : List Row) (mac : MacParams)
    → All (λ s. (i == s.0) ≡ false) rs
    → pending rs (record mac { dirty = clear_bit mac.dirty i }) ≡ pending rs mac
pending-dirty i [] mac h = refl
pending-dirty i ((j, (token, at)) ∷ rs) mac h =
    rw (test_bit-clear_bit mac.dirty i j h.0, pending-dirty i rs mac h.1) refl

collect_dirty-first :
    (i : ℕ) (token : Bytes) (params : List (ℕ × Bytes)) (mac : MacParams) (cmds : List Command)
    (mac' : MacParams) (cmd : Command)
    → test_bit mac.dirty i ≡ true
    → (let text = print_u (get_or mac.params i 0) in
        make_cmd token (length token) (some (set text (length text))) 0 cmd_set ≡ some cmd)
    → collect_dirty params (record mac { dirty = clear_bit mac.dirty i }) ≡ ok (cmds, mac')
    → collect_dirty ((i, token) ∷ params) mac ≡ ok (to_hardware cmd ∷ cmds, mac')
unfolding collect_dirty
collect_dirty-first i token params mac cmds mac' cmd dirty made rest =
    rw (dirty, collect_dirty) (rw made (rw rest refl))

rows-Written : (rs : List Row) (mac : MacParams) → AllGood rs → Written rs mac
unfolding collect_dirty
rows-Written [] mac good = record {
  cmds = [];
  mac' = mac;
  collected = refl;
  texts = refl;
  on_board = tt;
  clear = tt;
  others = λ i h. refl;
}
rows-Written ((i, (token, at)) ∷ rs) mac (good, goods) = elim (Bool-cases (test_bit mac.dirty i)) [
  | inr settled ↦
      let w = rows-Written rs mac goods in
      record {
        cmds = w.cmds;
        mac' = w.mac';
        collected = rw (settled, collect_dirty) w.collected;
        texts = rw settled w.texts;
        on_board = w.on_board;
        clear = (w.others i good.apart ∙ settled, w.clear);
        others = λ j h. w.others j h.1;
      }
  | inl dirty ↦
      let text = print_u (get_or mac.params i 0) in
      let (cmd, made, at', param) = good.makes (set text (length text)) in
      let w = rows-Written rs (record mac { dirty = clear_bit mac.dirty i }) goods in
      record {
        cmds = to_hardware cmd ∷ w.cmds;
        mac' = w.mac';
        collected =
            collect_dirty-first i token (tokens rs) mac w.cmds w.mac' cmd dirty made w.collected;
        texts =
            ap (◌∷◌ (set_text (to_hardware cmd))) (w.texts ∙ pending-dirty i rs mac good.apart)
            ∙ ap (λ (t : Bytes). t ∷ pending rs mac)
                (set_text-number (to_hardware cmd) at text at' param good.clean
                  (NoNul-print_u (get_or mac.params i 0)))
            ∙ sym (if-true _ _ (test_bit mac.dirty i) dirty);
        on_board = (refl, w.on_board);
        clear = (w.others i good.apart ∙ test_bit-clear_bit_same mac.dirty i, w.clear);
        others = λ j h. w.others j h.1 ∙ test_bit-clear_bit mac.dirty i j (ground (arith, h.0));
      }
]

rows-AllGood : AllGood rows
unfolding make_cmd find_def is_wanted cmd_def_list strncmp_eq
rows-AllGood = (
  record {
    makes = λ p. (_, refl, refl, refl);
    clean = ground arith;
    apart = (refl, (refl, (refl, (refl, (refl, tt)))));
  },
  (
    record {
      makes = λ p. (_, refl, refl, refl);
      clean = ground arith;
      apart = (refl, (refl, (refl, (refl, tt))));
    },
    (
      record {
        makes = λ p. (_, refl, refl, refl);
        clean = ground arith;
        apart = (refl, (refl, (refl, tt)));
      },
      (
        record {
          makes = λ p. (_, refl, refl, refl);
          clean = ground arith;
          apart = (refl, (refl, tt));
        },
        (
          record { makes = λ p. (_, refl, refl, refl); clean = ground arith; apart = (refl, tt) },
          (record { makes = λ p. (_, refl, refl, refl); clean = ground arith; apart = tt }, tt),
        ),
      ),
    ),
  ),
)

pub collect_dirty-Written : (mac : MacParams) → Written rows mac
collect_dirty-Written mac = rows-Written rows mac rows-AllGood
