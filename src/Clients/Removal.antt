-- ===== src/Clients/Removal.antt =====
-- Which clients `remove_disconnected_http_clients` removes.
use lorawanatd_canarin.Base.{
  ◌≡◌, refl, subst, sym, ◌∙◌, append_assoc, false, List, [], ◌∷◌, ◌++◌, ok, All, Bool-cases, inl,
  inr, ◌==◌, ==_refl, if◌then◌else◌,
}
use lorawanatd_canarin.State.{Lw, HttpClient}
use lorawanatd_canarin.Clients.{
  is_disconnected, stailq_remove, free_http_client, remove_disconnected_from,
  remove_disconnected_http_clients,
}

-- No two clients have the same address.
abbrev pub Distinct : List HttpClient → Type 0
Distinct [] = Unit
Distinct (c ∷ cs) = All (λ d. (c.id == d.id) ≡ false) cs × Distinct cs

abbrev pub connected : List HttpClient → List HttpClient
connected [] = []
connected (c ∷ cs) = let rest = connected cs in if is_disconnected c.state then rest else c ∷ rest

pub stailq_remove-at :
    (before : List HttpClient) (c : HttpClient) (after : List HttpClient)
    → Distinct (before ++ c ∷ after)
    → stailq_remove c.id (before ++ c ∷ after) ≡ ok (before ++ after)
unfolding stailq_remove
stailq_remove-at [] c after h = rw (==_refl c.id, stailq_remove) refl
stailq_remove-at (b ∷ before) c after h =
    rw (All-at before c after h.0, stailq_remove) (rw (stailq_remove-at before c after h.1) refl)
  where
    All-at :
        (xs : List HttpClient) (d : HttpClient) (ys : List HttpClient)
        → All (λ e. (b.id == e.id) ≡ false) (xs ++ d ∷ ys)
        → (b.id == d.id) ≡ false
    All-at [] d ys h = h.0
    All-at (x ∷ xs) d ys h = All-at xs d ys h.1

All-without :
    (b : HttpClient) (xs : List HttpClient) (d : HttpClient) (ys : List HttpClient)
    → All (λ e. (b.id == e.id) ≡ false) (xs ++ d ∷ ys)
    → All (λ e. (b.id == e.id) ≡ false) (xs ++ ys)
All-without b [] d ys h = h.1
All-without b (x ∷ xs) d ys h = (h.0, All-without b xs d ys h.1)

pub Distinct-without :
    (before : List HttpClient) (c : HttpClient) (after : List HttpClient)
    → Distinct (before ++ c ∷ after)
    → Distinct (before ++ after)
Distinct-without [] c after h = h.1
Distinct-without (b ∷ before) c after h =
    (All-without b before c after h.0, Distinct-without before c after h.1)

remove_from-connected :
    (cs before : List HttpClient) (lw : Lw)
    → lw.http ≡ before ++ cs
    → Distinct (before ++ cs)
    → (lw' : Lw) × (remove_disconnected_from cs lw ≡ ok lw') × (lw'.http ≡ before ++ connected cs)
unfolding remove_disconnected_from free_http_client
remove_from-connected [] before lw e h = (lw, refl, e)
remove_from-connected (c ∷ cs) before lw e h = elim (Bool-cases (is_disconnected c.state)) [
  | inl gone ↦
      let removed : stailq_remove c.id lw.http ≡ ok (before ++ cs) =
        rw e (stailq_remove-at before c cs h) in
      rw (gone, remove_disconnected_from)
        (rw removed (remove_from-connected cs before _ refl (Distinct-without before c cs h)))
  | inr here ↦
      rw (here, remove_disconnected_from)
        (let (lw', done, kept) =
            remove_from-connected cs (before ++ c ∷ []) lw
              (e ∙ sym (append_assoc before (c ∷ []) cs))
              (subst Distinct (sym (append_assoc before (c ∷ []) cs)) h) in
          (lw', done, kept ∙ append_assoc before (c ∷ []) (connected cs)))
]

-- The disconnected clients leave the queue, and the others stay in their order: no client is
-- looked for that is not there, if no two have the same address.
pub remove_disconnected-connected :
    (lw : Lw)
    → Distinct lw.http
    → (lw' : Lw) × (remove_disconnected_http_clients lw ≡ ok lw') × (lw'.http ≡ connected lw.http)
unfolding remove_disconnected_http_clients
remove_disconnected-connected lw h = remove_from-connected lw.http [] lw refl h
