-- ===== src/Push/Delivery.antt =====
-- Who is told what: `push_recv`, and the clients that `remove_disconnected_push_clients` keeps.
use lorawanatd_canarin.Base.{
  ◌≡◌, refl, ap, ◌∙◌, append-nil, sym, true, List, [], ◌∷◌, ◌++◌, Bytes, codes, Bool-cases, inl,
  inr, All, if◌then◌else◌, ℕ,
}
use lorawanatd_canarin.State.{Lw, PushClient, Effect, push_written}
use lorawanatd_canarin.Push.{
  is_active, push_recv, push_recv_to, keep_connected, remove_disconnected_push_clients,
}

-- The descriptors of the active clients, in the order of the queue.
abbrev pub active_fds : List PushClient → List ℕ
active_fds [] = []
active_fds (c ∷ cs) = let rest = active_fds cs in if is_active c.state then c.fd ∷ rest else rest

-- `<rx=`, the message and `>` on each descriptor.
abbrev pub messages : Bytes → List ℕ → List Effect
messages buf [] = []
messages buf (fd ∷ fds) =
    push_written fd (codes "<rx=")
    ∷ push_written fd buf
    ∷ push_written fd (codes ">")
    ∷ messages buf fds

append-three :
    (es rest : List Effect) (a b c : Effect)
    → (((es ++ a ∷ []) ++ b ∷ []) ++ c ∷ []) ++ rest ≡ es ++ (a ∷ b ∷ c ∷ rest)
append-three [] rest a b c = refl
append-three (e ∷ es) rest a b c = ap (◌∷◌ e) (append-three es rest a b c)

push_recv_to-messages :
    (cs : List PushClient) (buf : Bytes) (lw : Lw)
    → push_recv_to cs buf lw ≡ record lw { effects = lw.effects ++ messages buf (active_fds cs) }
unfolding push_recv_to
push_recv_to-messages [] buf lw =
    ap (λ (es : List Effect). record lw { effects = es }) (sym (append-nil lw.effects))
push_recv_to-messages (c ∷ cs) buf lw = elim (Bool-cases (is_active c.state)) [
  | inl active ↦ rw active (
      push_recv_to-messages cs buf _
      ∙ ap (λ (es : List Effect). record lw { effects = es })
          (append-three lw.effects (messages buf (active_fds cs)) _ _ _))
  | inr gone ↦ rw gone (push_recv_to-messages cs buf lw)
]

-- A received message is written to every active push client and to no other, to each as `<rx=`,
-- the message and `>`, in the order of the queue, and nothing else changes.
pub push_recv-messages :
    (buf : Bytes) (lw : Lw)
    → push_recv buf lw ≡ record lw { effects = lw.effects ++ messages buf (active_fds lw.push) }
unfolding push_recv
push_recv-messages buf lw = push_recv_to-messages lw.push buf lw

keep_connected-active :
    (cs : List PushClient)
    → All (λ c. is_active c.state ≡ true) (keep_connected cs)
      × (active_fds (keep_connected cs) ≡ active_fds cs)
unfolding keep_connected
keep_connected-active [] = (tt, refl)
keep_connected-active (c ∷ cs) = elim (Bool-cases (is_active c.state)) [
  | inl active ↦
      let (all_active, same) = keep_connected-active cs in
      rw active ((active, all_active), rw active (ap (◌∷◌ c.fd) same))
  | inr gone ↦ rw gone (keep_connected-active cs)
]

-- After the disconnected push clients are removed, every client is active, and the descriptors
-- of those that were active before are all there, in their order.
remove_disconnected-active :
    (lw : Lw)
    → All (λ c. is_active c.state ≡ true) (remove_disconnected_push_clients lw).push
      × (active_fds (remove_disconnected_push_clients lw).push ≡ active_fds lw.push)
unfolding remove_disconnected_push_clients
remove_disconnected-active lw = keep_connected-active lw.push
