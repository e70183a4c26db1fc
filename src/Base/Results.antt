-- ===== src/Base/Results.antt =====
-- Results of functions that may fail. `stuck` is what a model gives where its fuel runs out or
-- where the program would panic.
use mathlib.Core.Path.{◌≡◌, refl}
use mathlib.Core.Bool.{Bool, true, false}
use mathlib.Core.Logic.{◌⊎◌, inl, inr}

pub data Outcome {ℓ} (E : Type 0) (A : Type ℓ) : Type ℓ where
  ok : A → Outcome E A
  err : E → Outcome E A
  stuck : Outcome E A

-- The first failure ends a chain.
infixl 5 ◌>>=◌ ◌>>◌
abbrev pub ◌>>=◌ {ℓ κ} :
    {E : Type 0} {A : Type ℓ} {B : Type κ} → Outcome E A → (A → Outcome E B) → Outcome E B
stuck >>= next = stuck
err e >>= next = err e
ok a >>= next = next a

-- An early return of an error.
abbrev pub fail_if : {E : Type 0} → Bool → E → Outcome E (Unit {0})
fail_if false e = ok tt
fail_if true e = err e

abbrev pub ◌>>◌ {ℓ} : {E : Type 0} {B : Type ℓ} → Outcome E (Unit {0}) → Outcome E B → Outcome E B
check >> next = check >>= λ done. next

-- Inversion of a chain that succeeds, for proofs where its parts stay shut.
pub >>=-eq-ok {ℓ κ} :
    {E : Type 0} {A : Type ℓ} {B : Type κ} (first : Outcome E A) (next : A → Outcome E B)
    {result : B}
    → (first >>= next) ≡ ok result
    → (middle : A) × (first ≡ ok middle) × (next middle ≡ ok result)
>>=-eq-ok stuck next ended = cc
>>=-eq-ok (err e) next ended = cc
>>=-eq-ok (ok middle) next ended = (middle, refl, ended)

-- A chain whose second part is pure fails where its first part does.
pub >>=-eq-err :
    {E A B : Type 0} (first : Outcome E A) (f : A → B) {e : E}
    → (first >>= λ a. ok (f a)) ≡ err e
    → first ≡ err e
>>=-eq-err stuck f ended = cc
>>=-eq-err (err e) f ended = cc
>>=-eq-err (ok a) f ended = cc

pub >>=-eq-stuck :
    {E A B : Type 0} (first : Outcome E A) (f : A → B)
    → (first >>= λ a. ok (f a)) ≡ stuck
    → first ≡ stuck
>>=-eq-stuck stuck f ended = refl
>>=-eq-stuck (err e) f ended = cc
>>=-eq-stuck (ok a) f ended = cc

-- The same for a check, which returns nothing.
pub >>-eq-ok {ℓ} :
    {E : Type 0} {B : Type ℓ} (check : Outcome E (Unit {0})) (next : Outcome E B) {result : B}
    → (check >> next) ≡ ok result
    → (check ≡ ok tt) × (next ≡ ok result)
>>-eq-ok stuck next ended = cc
>>-eq-ok (err e) next ended = cc
>>-eq-ok (ok done) next ended = (refl, ended)

-- A check is not stuck, nor is what follows it: nor is the chain.
pub >>-total {ℓ} :
    {E : Type 0} {B : Type ℓ} (check : Outcome E (Unit {0})) (next : Outcome E B)
    → ¬ (check ≡ stuck)
    → (check ≡ ok tt → ¬ (next ≡ stuck))
    → ¬ ((check >> next) ≡ stuck)
>>-total stuck next a b h = a refl
>>-total (err e) next a b h = cc
>>-total (ok done) next a b h = b refl h

-- Two results that are equal hold equal values.
pub ok-injective : {E A : Type 0} {a b : A} → ◌≡◌ {A = Outcome E A} (ok a) (ok b) → a ≡ b
ok-injective h = cc

pub err-injective : {E A : Type 0} {a b : E} → ◌≡◌ {A = Outcome E A} (err a) (err b) → a ≡ b
err-injective h = cc

pub Outcome-cases :
    {E : Type 0} {A : Type 0} (o : Outcome E A)
    → ((a : A) × (o ≡ ok a)) ⊎ ((e : E) × (o ≡ err e)) ⊎ (o ≡ stuck)
Outcome-cases (ok a) = inl (a, refl)
Outcome-cases (err e) = inr (inl (e, refl))
Outcome-cases stuck = inr (inr refl)
