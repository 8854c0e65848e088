-- ===== src/Command/Send.antt =====
-- The text of a send command: `AT+SEND=port:mode:data`.
use lorawanatd_canarin.Base.{
  ℕ, suc, ◌+◌, ◌≡◌, ◌≤◌, ◌<◌, refl, ap, ◌∙◌, sym, true, [], ◌∷◌, ◌++◌, append_assoc, Bytes, codes,
  ok, in_bounds, ◌>>◌, arith, leb, ◌==◌, false, length, length-append, print_u-digit, NoNul,
  All-append, c_prefix, c_prefix-whole,
}
use lorawanatd_canarin.LwanContext.{LwanContext}
use lorawanatd_canarin.Command.Types.{Command, send}
use lorawanatd_canarin.Command.Construct.{send_text}

c_prefix-more :
    (s more : Bytes) → NoNul s → c_prefix (suc (length s)) (s ++ more) ≡ s ++ c_prefix 1 more
unfolding c_prefix
c_prefix-more [] more h = refl
c_prefix-more (c ∷ s) more h = rw h.0 (ap (◌∷◌ c) (c_prefix-more s more h.1))

length-c_prefix : (s : Bytes) → length (c_prefix 1 s) ≤ 1
unfolding c_prefix
length-c_prefix [] = omega arith
length-c_prefix (c ∷ s) = ground arith

-- The end of `send_text`, once the text is known.
cut_text :
    (line extra text : Bytes) (buflen : ℕ)
    → text ≡ line ++ extra
    → length line ≡ buflen
    → NoNul line
    → length extra ≤ 1
    → (in_bounds (leb (length text + 1) (buflen + 4)) >> ok (c_prefix buflen text)) ≡ ok line
cut_text line extra text buflen e len clean one =
    rw (e) (rw fits (ap (λ (t : Bytes). ok t) (rw⁻¹ len (c_prefix-whole line extra clean))))
  where
    fits : leb (length (line ++ extra) + 1) (buflen + 4) ≡ true
    fits = ground (arith, length-append line extra, len, one)

-- The text that is asked for.
abbrev pub send_line : Bytes → Bytes → ℕ → Bytes → Bytes
send_line at port mode payload =
    at ++ (codes "=" ++ (port ++ (codes ":" ++ ((b'0' + mode) ∷ (codes ":" ++ payload)))))

-- The text for a send is the command, the port, the confirmation mode and the data, whatever
-- stands behind the port and the data in the request, if they hold no NUL and the mode has one
-- digit.
pub send_text-line :
    (ctx : LwanContext) (cmd : Command) (payload after port after' : Bytes)
    → cmd.param ≡ send (payload ++ after) (length payload) (port ++ after') (length port)
    → ctx.mac_params.confirmation_mode < 10
    → NoNul cmd.def.cmd
    → NoNul port
    → NoNul payload
    → send_text ctx cmd ≡ ok (send_line cmd.def.cmd port ctx.mac_params.confirmation_mode payload)
unfolding send_text
send_text-line ctx cmd payload after port after' e mode hc hp hd =
    rw
      (
        e,
        c_prefix-whole port after' hp,
        c_prefix-more payload after hd,
        print_u-digit ctx.mac_params.confirmation_mode mode,
      )
      (cut_text (send_line cmd.def.cmd port ctx.mac_params.confirmation_mode payload)
        (c_prefix 1 after) _ _ (sym assoc) len clean (length-c_prefix after))
  where
    tail : Bytes
    tail = codes ":" ++ ((b'0' + ctx.mac_params.confirmation_mode) ∷ (codes ":" ++ payload))

    assoc :
        send_line cmd.def.cmd port ctx.mac_params.confirmation_mode payload ++ c_prefix 1 after
        ≡ cmd.def.cmd ++ (codes "=" ++ (port ++ (tail ++ c_prefix 1 after)))
    assoc =
        append_assoc cmd.def.cmd (codes "=" ++ (port ++ tail)) (c_prefix 1 after)
        ∙ ap (λ (r : Bytes). cmd.def.cmd ++ (codes "=" ++ r))
            (append_assoc port tail (c_prefix 1 after))

    len :
        length (send_line cmd.def.cmd port ctx.mac_params.confirmation_mode payload)
        ≡ length cmd.def.cmd + 1 + length port + 3 + length payload
    len =
        omega
          (arith, length-append cmd.def.cmd (codes "=" ++ (port ++ tail)), length-append port tail)

    digit : ((b'0' + ctx.mac_params.confirmation_mode) == 0) ≡ false
    digit = ground arith

    clean : NoNul (send_line cmd.def.cmd port ctx.mac_params.confirmation_mode payload)
    clean =
        All-append _ cmd.def.cmd (codes "=" ++ (port ++ tail)) hc
          (refl, All-append _ port tail hp (refl, (digit, (refl, hd))))
