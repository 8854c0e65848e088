-- ===== src/Http/Headers.antt =====
-- What the headers of a request tell the daemon.
use lorawanatd_canarin.Base.{
  ℕ, ◌≡◌, ◌<◌, ◌^◌, refl, ap, ◌∙◌, Bool, true, false, ◌||◌, Bool-cases, inl, inr, if◌then◌else◌,
  List, [], ◌∷◌, ◌++◌, Bytes, codes, ok, print_u, strncmp_eq, All, length,
}
use lorawanatd_canarin.State.{HttpClient}
use lorawanatd_canarin.Http.Request.{
  PhrHeader, is_named, set_content_len, read_header, read_headers, tmp_size,
}
use lorawanatd_canarin.Http.Length.{content_length-number}

abbrev pub names_length : PhrHeader → Bool
names_length h = is_named (codes "Content-Length") h

abbrev pub names_type : PhrHeader → Bool
names_type h = is_named (codes "Content-Type") h

-- If the header is a Content-Length it is this number, and if it is a Content-Type it is JSON.
abbrev pub Announces : ℕ → PhrHeader → Type 0
Announces n h =
    (names_length h ≡ true
      → (rest : Bytes) × (h.value ≡ print_u n ++ rest) × (h.value_len ≡ length (print_u n)))
    × (names_type h ≡ true → strncmp_eq (codes "application/json") h.value h.value_len ≡ true)

abbrev pub any_header : (PhrHeader → Bool) → List PhrHeader → Bool
any_header p [] = false
any_header p (h ∷ hs) = p h || any_header p hs

-- The client that has been told of a JSON body of this length, as far as it has.
abbrev pub told : ℕ → Bool → Bool → HttpClient → HttpClient
told n length_named type_named client =
    let client' = if length_named then set_content_len n client else client in
    if type_named then record client' { is_json = true } else client'

read_header-told :
    (n : ℕ) (h : PhrHeader) (client : HttpClient)
    → length (print_u n) < tmp_size
    → n < 2 ^ 31
    → Announces n h
    → read_header h client ≡ ok (told n (names_length h) (names_type h) client)
unfolding read_header
read_header-told n h client short small (len, json) = elim (Bool-cases (names_length h)) [
  | inl here ↦
      let (rest, value, size) = len here in
      elim (Bool-cases (names_type h)) [
        | inl typed ↦
            rw (here, content_length-number h n rest value size short small)
              (rw (typed, json typed) refl)
        | inr other ↦
            rw (here, content_length-number h n rest value size short small) (rw other refl)
      ]
  | inr not_here ↦ elim (Bool-cases (names_type h)) [
    | inl typed ↦ rw not_here (rw (typed, json typed) refl)
    | inr other ↦ rw not_here (rw other refl)
  ]
]

told-told :
    (n : ℕ) (l t l' t' : Bool) (client : HttpClient)
    → told n l' t' (told n l t client) ≡ told n (l || l') (t || t') client
told-told n true true true true client = refl
told-told n true true true false client = refl
told-told n true true false true client = refl
told-told n true true false false client = refl
told-told n true false true true client = refl
told-told n true false true false client = refl
told-told n true false false true client = refl
told-told n true false false false client = refl
told-told n false true true true client = refl
told-told n false true true false client = refl
told-told n false true false true client = refl
told-told n false true false false client = refl
told-told n false false l' t' client = refl

-- After the headers, in any order and with any others between them, the client has been told what
-- one of them announces.
pub read_headers-told :
    (n : ℕ) (hs : List PhrHeader) (client : HttpClient)
    → length (print_u n) < tmp_size
    → n < 2 ^ 31
    → All (Announces n) hs
    → read_headers hs client
      ≡ ok (told n (any_header names_length hs) (any_header names_type hs) client)
unfolding read_headers
read_headers-told n [] client short small h = refl
read_headers-told n (g ∷ hs) client short small h =
    rw (read_header-told n g client short small h.0) (
      read_headers-told n hs (told n (names_length g) (names_type g) client) short small h.1
      ∙ ap (λ (c : HttpClient). ok c)
          (told-told n (names_length g) (names_type g) (any_header names_length hs)
            (any_header names_type hs) client))
