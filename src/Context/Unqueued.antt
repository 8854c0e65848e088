-- ===== src/Context/Unqueued.antt =====
-- What the context manager does with a client that it made and did not queue.
use lorawanatd_canarin.Base.{
  ℕ, ◌≡◌, refl, false, List, [], ◌∷◌, Bytes, Option, ok, fault, All, ◌==◌,
}
use lorawanatd_canarin.LwanContext.{MacParams, test_bit}
use lorawanatd_canarin.Command.Types.{Command, cmd_join, cmd_force_update}
use lorawanatd_canarin.State.{Lw, Env, HttpClient}
use lorawanatd_canarin.Clients.{stailq_remove, free_http_client, create_http_client}
use lorawanatd_canarin.Context.Params.{collect_dirty, set_mac_params, mac_tokens, queue_or_free}
use lorawanatd_canarin.Context.Event.{context_manager_event}

collect_dirty-clean :
    (params : List (ℕ × Bytes)) (mac : MacParams)
    → All (λ p. test_bit mac.dirty p.0 ≡ false) params
    → collect_dirty params mac ≡ ok ([], mac)
unfolding collect_dirty
collect_dirty-clean [] mac h = refl
collect_dirty-clean ((i, token) ∷ params) mac h =
    rw (h.0, collect_dirty) (collect_dirty-clean params mac h.1)

pub stailq_remove-missing :
    (id : ℕ) (cs : List HttpClient)
    → All (λ c. (c.id == id) ≡ false) cs
    → stailq_remove id cs ≡ fault
unfolding stailq_remove
stailq_remove-missing id [] h = refl
stailq_remove-missing id (c ∷ cs) h =
    rw (h.0, stailq_remove) (rw (stailq_remove-missing id cs h.1) refl)

-- With no MAC parameter to be written, `set_mac_params` takes its client out of a queue that does
-- not hold it: it faults, if no queued client has the address of the new one.
set_mac_params-clean :
    (lw : Lw)
    → All (λ p. test_bit lw.lwan_ctx.mac_params.dirty p.0 ≡ false) mac_tokens
    → All (λ c. (c.id == lw.next_id) ≡ false) lw.http
    → set_mac_params lw ≡ fault
unfolding set_mac_params queue_or_free free_http_client create_http_client
set_mac_params-clean lw clean fresh =
    rw (collect_dirty-clean mac_tokens lw.lwan_ctx.mac_params clean)
      (rw (stailq_remove-missing lw.next_id lw.http fresh) refl)

-- So a join that succeeds, or a `/force_update`, when no MAC parameter has been set since the last
-- one, ends in undefined behaviour.
pub join-no_params :
    (env : Env) (cmd : Option Command) (lw : Lw)
    → All (λ p. test_bit lw.lwan_ctx.mac_params.dirty p.0 ≡ false) mac_tokens
    → All (λ c. (c.id == lw.next_id) ≡ false) lw.http
    → (context_manager_event env cmd_join cmd lw ≡ fault)
      × (context_manager_event env cmd_force_update cmd lw ≡ fault)
unfolding context_manager_event
join-no_params env cmd lw clean fresh =
    let e : set_mac_params lw ≡ fault = set_mac_params-clean lw clean fresh in (rw e refl, e)
