-- ===== src/Http/Prefix.antt =====
-- Which requests lead to which action.
use lorawanatd_canarin.Base.{
  ◌≡◌, ◌≤◌, ◌⊎◌, inl, inr, refl, sym, subst, ◌∙◌, ◌↔◌, true, false, ◌&&◌, List, [], ◌∷◌, codes,
  arith, length, take, NoNul, starts_with, strncmp_eq-prefix, Bool-cases,
}
use lorawanatd_canarin.State.{HttpRequest, HttpAction, http_undefined, http_reset}
use lorawanatd_canarin.Http.Route.{
  Route, routes, matches, first_match, get_action_from_http_request,
}

-- The method and the path of the request, with no NUL in them.
pub record IsText (r : HttpRequest) : Type 0 where
  pub method_in : r.method_len ≤ length r.method
  pub method_clean : NoNul (take r.method_len r.method)
  pub path_in : r.path_len ≤ length r.path
  pub path_clean : NoNul (take r.path_len r.path)

-- The route begins with the method and with the path of the request.
abbrev pub Begins : HttpRequest → Route → Type 0
Begins r route =
    (starts_with (take r.method_len r.method) route.method ≡ true)
    × (starts_with (take r.path_len r.path) route.path ≡ true)

-- The first of the routes that begin with them has the action; with no such route the action is
-- undefined.
abbrev pub FirstBegins : HttpRequest → HttpAction → List Route → Type 0
FirstBegins r a [] = a ≡ http_undefined
FirstBegins r a (route ∷ rs) =
    (Begins r route × (route.action ≡ a)) ⊎ ((Begins r route → ⊥) × FirstBegins r a rs)

pub matches-starts_with :
    (route : Route) (r : HttpRequest)
    → IsText r
    → matches route r ≡ (
        starts_with (take r.method_len r.method) route.method
        && starts_with (take r.path_len r.path) route.path)
unfolding matches
matches-starts_with route r text =
    rw
      (
        strncmp_eq-prefix route.method r.method r.method_len text.method_clean text.method_in,
        strncmp_eq-prefix route.path r.path r.path_len text.path_clean text.path_in,
      )
      refl

matches_iff :
    (route : Route) (r : HttpRequest) → IsText r → (matches route r ≡ true) ↔ Begins r route
matches_iff route r text = (
  (λ h. ground (arith, matches-starts_with route r text)),
  (λ h. matches-starts_with route r text ∙ ground arith),
)

first_match-miss :
    (route : Route) (rs : List Route) (r : HttpRequest)
    → matches route r ≡ false
    → first_match (route ∷ rs) r ≡ first_match rs r
unfolding first_match
first_match-miss route rs r miss = rw miss refl

first_match_sound :
    (rs : List Route) (r : HttpRequest) → IsText r → FirstBegins r (first_match rs r) rs
unfolding first_match
first_match_sound [] r text = refl
first_match_sound (route ∷ rs) r text = elim (Bool-cases (matches route r)) [
  | inl hit ↦ inl ((matches_iff route r text).0 hit, rw (hit, first_match) refl)
  | inr miss ↦ inr (
    λ b. absurd (false≢true (sym miss ∙ (matches_iff route r text).1 b)),
    subst (λ a. FirstBegins r a rs) (sym (first_match-miss route rs r miss))
        (first_match_sound rs r text),
  )
]
  where
    false≢true : false ≡ true → ⊥
    false≢true e = cc

-- The action of a request is that of the first route that begins with the method and the path
-- that were sent, and it is undefined where there is no such route.
pub get_action-FirstBegins :
    (r : HttpRequest) → IsText r → FirstBegins r (get_action_from_http_request r) routes
unfolding get_action_from_http_request
get_action-FirstBegins r text = first_match_sound routes r text

-- Any path that is a beginning of `/reset`, such as `/`, makes a GET request reset the board.
pub get_action-short_path :
    (r : HttpRequest)
    → IsText r
    → take r.method_len r.method ≡ codes "GET"
    → starts_with (take r.path_len r.path) (codes "/reset") ≡ true
    → get_action_from_http_request r ≡ http_reset
unfolding get_action_from_http_request first_match starts_with
get_action-short_path r text method path = rw (first_route) refl
  where
    is_get : starts_with (take r.method_len r.method) (codes "GET") ≡ true
    is_get = rw method refl

    first_route :
        matches (record { method = codes "GET"; path = codes "/reset"; action = http_reset }) r
        ≡ true
    first_route =
        (matches_iff (record { method = codes "GET"; path = codes "/reset"; action = http_reset }) r
            text).1
          (is_get, path)
