-- ===== src/Base/Faults.antt =====
-- What a piece of C code comes to: a value, undefined behaviour, or the end of the process.
use mathlib.Core.Path.{◌≡◌, refl, subst, ap}
use mathlib.Core.Logic.{◌⊎◌, inl, inr}
use native.Mathlib.Omega.{arith}
use mathlib.Core.Bool.{Bool, true, false}
use mathlib.Core.Option.{Option, none, some}

-- `fault` is undefined behaviour: a write past a buffer, a null or dangling pointer that is read.
-- `exited` is a call of `exit` or a failed `assert`. `unfinished` is a loop that still runs when
-- the fuel that it was given is used up.
pub data Outcome {ℓ} (A : Type ℓ) : Type ℓ where
  ok : A → Outcome A
  fault : Outcome A
  exited : Outcome A
  unfinished : Outcome A

infixl 5 ◌>>=◌
abbrev pub ◌>>=◌ {ℓ κ} : {A : Type ℓ} {B : Type κ} → Outcome A → (A → Outcome B) → Outcome B
ok a >>= f = f a
fault >>= f = fault
exited >>= f = exited
unfinished >>= f = unfinished

infixl 5 ◌>>◌
abbrev pub ◌>>◌ {ℓ} : {B : Type ℓ} → Outcome (Unit {0}) → Outcome B → Outcome B
m >> k = m >>= λ _. k

-- A write that has to stay within a buffer.
abbrev pub in_bounds : Bool → Outcome (Unit {0})
in_bounds true = ok tt
in_bounds false = fault

abbrev pub assert : Bool → Outcome (Unit {0})
assert true = ok tt
assert false = exited

-- A pointer that is read without a check.
abbrev pub deref {ℓ} : {A : Type ℓ} → Option A → Outcome A
deref none = fault
deref (some a) = ok a

-- What holds of the value, whenever there is one.
pub data Ensures {ℓ κ} {A : Type ℓ} (P : A → Type κ) : Outcome A → Type (ℓ ⊔ κ) where
  returns : (a : A) → P a → Ensures P (ok a)
  faults : Ensures P fault
  exits : Ensures P exited
  runs_on : Ensures P unfinished

pub >>=-ok {ℓ κ} :
    {A : Type ℓ} {B : Type κ} (m : Outcome A) (f : A → Outcome B) {a : A}
    → m ≡ ok a
    → (m >>= f) ≡ f a
>>=-ok m f h = ap (λ n. n >>= f) h

pub >>=_assoc {ℓ κ μ} :
    {A : Type ℓ} {B : Type κ} {C : Type μ} (m : Outcome A) (f : A → Outcome B) (g : B → Outcome C)
    → ((m >>= f) >>= g) ≡ (m >>= λ a. f a >>= g)
>>=_assoc (ok a) f g = refl
>>=_assoc fault f g = refl
>>=_assoc exited f g = refl
>>=_assoc unfinished f g = refl

pub >>=_ext {ℓ κ} :
    {A : Type ℓ} {B : Type κ} (m : Outcome A) (f g : A → Outcome B)
    → ((a : A) → f a ≡ g a)
    → (m >>= f) ≡ (m >>= g)
>>=_ext (ok a) f g h = h a
>>=_ext fault f g h = refl
>>=_ext exited f g h = refl
>>=_ext unfinished f g h = refl

pub Ensures->>= {ℓ κ μ ν} :
    {A : Type ℓ} {B : Type κ} {P : A → Type μ} {Q : B → Type ν} {m : Outcome A} {f : A → Outcome B}
    → Ensures P m
    → ((a : A) → P a → Ensures Q (f a))
    → Ensures Q (m >>= f)
Ensures->>= (returns a h) k = k a h
Ensures->>= faults k = faults
Ensures->>= exits k = exits
Ensures->>= runs_on k = runs_on

-- A split on whether there is a value.
pub Outcome-cases {ℓ} :
    {A : Type ℓ} (m : Outcome A)
    → ((a : A) × (m ≡ ok a)) ⊎ ((m ≡ fault) ⊎ ((m ≡ exited) ⊎ (m ≡ unfinished)))
Outcome-cases (ok a) = inl (a, refl)
Outcome-cases fault = inr (inl refl)
Outcome-cases exited = inr (inr (inl refl))
Outcome-cases unfinished = inr (inr (inr refl))

-- `Ensures` by its equation, and back.
pub Ensures-eq {ℓ κ} :
    {A : Type ℓ} {P : A → Type κ} (m : Outcome A) → ((a : A) → m ≡ ok a → P a) → Ensures P m
Ensures-eq (ok a) h = returns a (h a refl)
Ensures-eq fault h = faults
Ensures-eq exited h = exits
Ensures-eq unfinished h = runs_on

pub Ensures-ok {ℓ κ} :
    {A : Type ℓ} {P : A → Type κ} {m : Outcome A} {a : A} → Ensures P m → m ≡ ok a → P a
Ensures-ok {P = P} (returns b h) e = subst P (ground arith) h
Ensures-ok faults e = absurd (cc)
Ensures-ok exits e = absurd (cc)
Ensures-ok runs_on e = absurd (cc)

-- A weaker postcondition.
pub Ensures-mono {ℓ κ μ} :
    {A : Type ℓ} {P : A → Type κ} {Q : A → Type μ} {m : Outcome A}
    → ((a : A) → P a → Q a)
    → Ensures P m
    → Ensures Q m
Ensures-mono k (returns a h) = returns a (k a h)
Ensures-mono k faults = faults
Ensures-mono k exits = exits
Ensures-mono k runs_on = runs_on

pub Ensures-any {ℓ} : {A : Type ℓ} (m : Outcome A) → Ensures (λ (a : A). Unit {0}) m
Ensures-any m = Ensures-eq m (λ a e. tt)
