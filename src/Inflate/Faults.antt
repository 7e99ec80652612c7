-- ===== src/Inflate/Faults.antt =====
-- How a function of os/kernel/lard_inflate.c can end: with a result, with an error code, or with a
-- fault: a read or a write outside an array, or a loop that does not end.
use lardos.Base.Int.{ℤ}
use lardos.Base.{
  ℕ, ◌<◌, ◌≡◌, refl, Bool, true, false, none, some, List, if◌then◌else◌, get_elem?, ltb, length,
  set, get_or, lt→ltb, get_elem?-eq-get_or, length-set,
}

pub data Run {ℓ} (A : Type ℓ) : Type ℓ where
  ok : A → Run A
  error : ℤ → Run A
  fault : Run A

infixl 5 ◌>>=◌
abbrev pub ◌>>=◌ {ℓ κ} : {A : Type ℓ} {B : Type κ} → Run A → (A → Run B) → Run B
ok a >>= f = f a
error e >>= f = error e
fault >>= f = fault

-- `a[i]`
unfoldable pub read : List ℕ → ℕ → Run ℕ
read a i = elim (get_elem? a i) [ none ↦ fault | some v ↦ ok v ]

-- `a[i] = v`
unfoldable pub write : List ℕ → ℕ → ℕ → Run (List ℕ)
write a i v = if ltb i (length a) then ok (set a i v) else fault

-- It ends without a fault, and a result has the property.
abbrev pub Ends {ℓ} : {A : Type ℓ} → Run A → (A → Type 0) → Type 0
Ends (ok a) P = P a
Ends (error e) P = Unit {0}
Ends fault P = ⊥

pub Ends->>= {ℓ κ} :
    {A : Type ℓ} {B : Type κ} (m : Run A) (f : A → Run B) (P : A → Type 0) (Q : B → Type 0)
    → Ends m P
    → ((a : A) → P a → Ends (f a) Q)
    → Ends (m >>= f) Q
Ends->>= (ok a) f P Q h next = next a h
Ends->>= (error e) f P Q h next = tt
Ends->>= fault f P Q h next = absurd h

pub Ends-weaken {ℓ} :
    {A : Type ℓ} (m : Run A) (P Q : A → Type 0) → Ends m P → ((a : A) → P a → Q a) → Ends m Q
Ends-weaken (ok a) P Q h imp = imp a h
Ends-weaken (error e) P Q h imp = tt
Ends-weaken fault P Q h imp = h

-- `if (b) return e;`
pub Ends-guard {ℓ} :
    {A : Type ℓ} (b : Bool) (e : ℤ) (m : Run A) (Q : A → Type 0)
    → (b ≡ false → Ends m Q)
    → Ends (if b then error e else m) Q
Ends-guard true e m Q h = tt
Ends-guard false e m Q h = h refl

pub read-Ends : (a : List ℕ) (i : ℕ) → i < length a → Ends (read a i) (λ v. v ≡ get_or a i 0)
unfolding read
read-Ends a i h = rw (get_elem?-eq-get_or a i 0 h, Ends) refl

pub write-Ends :
    (a : List ℕ) (i v : ℕ) → i < length a → Ends (write a i v) (λ b. length b ≡ length a)
unfolding write
write-Ends a i v h = rw (lt→ltb i (length a) h, Ends) (length-set a i v)
