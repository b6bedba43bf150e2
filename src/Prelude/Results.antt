-- ===== src/Prelude/Results.antt =====
-- What a Python function that may raise gives back.
use mathlib.Core.Path.{◌≡◌, refl, subst}
use mathlib.Core.Logic.{◌⊎◌, inl, inr}
use Prim.Native.String.{String}

-- `ValueError` with its message is the only exception of the modelled pure code that callers see.
pub data Result {ℓ} (A : Type ℓ) : Type ℓ where
  ok : A → Result A
  value_error : String → Result A

infixl 10 ◌>>=◌
abbrev pub ◌>>=◌ {ℓ κ} : {A : Type ℓ} {B : Type κ} → Result A → (A → Result B) → Result B
ok a >>= f = f a
value_error m >>= f = value_error m

pub Result-cases {ℓ} :
    {A : Type ℓ} (r : Result A) → ((m : String) × (r ≡ value_error m)) ⊎ ((a : A) × (r ≡ ok a))
Result-cases (value_error m) = inl (m, refl)
Result-cases (ok a) = inr (a, refl)

-- To take apart what did not raise.
pub bind-ok {ℓ κ} :
    {A : Type ℓ} {B : Type κ} (r : Result A) (f : A → Result B) {b : B}
    → (r >>= f) ≡ ok b
    → (a : A) × (r ≡ ok a) × (f a ≡ ok b)
bind-ok (ok a) f e = (a, refl, e)
bind-ok (value_error m) f e = absurd (cc)

-- `P` holds of what is returned, and a call raises only where `Q` holds.
pub data Ensures {ℓ κ} {A : Type ℓ} (P : A → Type κ) (Q : Type κ) : Result A → Type (ℓ ⊔ κ) where
  returns : {a : A} → P a → Ensures P Q (ok a)
  raises : {m : String} → Q → Ensures P Q (value_error m)

pub ok_injective {ℓ} : {A : Type ℓ} {a b : A} → ok a ≡ ok b → a ≡ b
ok_injective {A} {a} {b} e = cc

pub Ensures-ok {ℓ κ} :
    {A : Type ℓ} {P : A → Type κ} {Q : Type κ} {r : Result A} {a : A}
    → Ensures P Q r
    → r ≡ ok a
    → P a
Ensures-ok {P = P} (returns p) e = subst P (ok_injective e) p
Ensures-ok (raises q) e = absurd (cc)

pub Ensures-value_error {ℓ κ} :
    {A : Type ℓ} {P : A → Type κ} {Q : Type κ} {r : Result A} {m : String}
    → Ensures P Q r
    → r ≡ value_error m
    → Q
Ensures-value_error (returns p) e = absurd (cc)
Ensures-value_error (raises q) e = q
