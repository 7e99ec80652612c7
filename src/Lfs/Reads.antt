-- ===== src/Lfs/Reads.antt =====
-- How a function of os/kernel/lfs.c can end: with a result, with the result 0, or with a read outside
-- the array that it was given.
use lardos.Base.{
  get_elem?, ℕ, none, some, Option, List, ◌<◌, ◌≡◌, ◌≢◌, refl, length, get_elem?-eq-get_or, Bool,
  true, false, if◌then◌else◌,
}
use mathlib.Core.Path.{subst}

pub data Outcome {ℓ} (A : Type ℓ) : Type ℓ where
  ok : A → Outcome A
  fail fault : Outcome A

infixl 5 ◌>>=◌
abbrev pub ◌>>=◌ {ℓ κ} : {A : Type ℓ} {B : Type κ} → Outcome A → (A → Outcome B) → Outcome B
ok a >>= f = f a
fail >>= f = fail
fault >>= f = fault

abbrev pub of_option {ℓ} : {A : Type ℓ} → Option A → Outcome A
of_option (some a) = ok a
of_option none = fault

-- `a[i]`
unfoldable pub read : List ℕ → ℕ → Outcome ℕ
read a i = of_option (get_elem? a i)

-- It ends without a fault, and the result has the property.
abbrev pub Ends {ℓ} : {A : Type ℓ} → Outcome A → (A → Type 0) → Type 0
Ends (ok a) P = P a
Ends fail P = Unit {0}
Ends fault P = ⊥

pub Ends->>= {ℓ κ} :
    {A : Type ℓ} {B : Type κ} (m : Outcome A) (f : A → Outcome B) (P : A → Type 0) (Q : B → Type 0)
    → Ends m P
    → ((a : A) → P a → Ends (f a) Q)
    → Ends (m >>= f) Q
Ends->>= (ok a) f P Q h next = next a h
Ends->>= fail f P Q h next = tt
Ends->>= fault f P Q h next = absurd h

pub Ends-weaken {ℓ} :
    {A : Type ℓ} (m : Outcome A) (P Q : A → Type 0) → Ends m P → ((a : A) → P a → Q a) → Ends m Q
Ends-weaken (ok a) P Q h imp = imp a h
Ends-weaken fail P Q h imp = tt
Ends-weaken fault P Q h imp = h

pub read-Ends : (a : List ℕ) (i : ℕ) → i < length a → Ends (read a i) (λ x. get_elem? a i ≡ some x)
unfolding read
read-Ends a i h = rw (get_elem?-eq-get_or a i 0 h) refl

-- A run that ends without a fault is no fault.
pub Ends-ne-fault {ℓ} : {A : Type ℓ} (m : Outcome A) (P : A → Type 0) → Ends m P → m ≢ fault
Ends-ne-fault m P h e = subst (λ r. Ends r P) e h

pub Ends-ok {ℓ} : {A : Type ℓ} (m : Outcome A) (P : A → Type 0) (a : A) → Ends m P → m ≡ ok a → P a
Ends-ok m P a h e = subst (λ r. Ends r P) e h

-- `if (b) return 0;`
pub Ends-guard {ℓ} :
    {A : Type ℓ} (b : Bool) (m : Outcome A) (Q : A → Type 0)
    → (b ≡ false → Ends m Q)
    → Ends (if b then fail else m) Q
Ends-guard true m Q h = tt
Ends-guard false m Q h = h refl
