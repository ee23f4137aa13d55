-- ===== src/Prelude/Results.antt =====
-- A Go call that may return an error: its value or the error.
use mathlib.Core.Path.{◌≡◌, refl, sym, ap}
use mathlib.Core.Bool.{Bool, true, false}
use mathlib.Core.Logic.{◌⊎◌, inl, inr}

pub data Result {ℓ κ} (E : Type ℓ) (A : Type κ) : Type (ℓ ⊔ κ) where
  ok : A → Result E A
  err : E → Result E A

infixl 5 ◌>>=◌ ◌>>◌
abbrev pub ◌>>=◌ {ℓ κ μ} :
    {E : Type ℓ} {A : Type κ} {B : Type μ} → Result E A → (A → Result E B) → Result E B
ok a >>= f = f a
err e >>= f = err e

abbrev pub ◌>>◌ {ℓ κ} : {E : Type ℓ} {B : Type κ} → Result E (Unit {0}) → Result E B → Result E B
ok u >> k = k
err e >> k = err e

-- The early return `if !b { return e }`.
abbrev pub guard {ℓ} : {E : Type ℓ} → Bool → E → Result E (Unit {0})
guard true e = ok tt
guard false e = err e

-- `fmt.Errorf("…: %w", err)`
abbrev pub map_err {ℓ κ μ} :
    {E : Type ℓ} {F : Type κ} {A : Type μ} → (E → F) → Result E A → Result F A
map_err f (ok a) = ok a
map_err f (err e) = err (f e)

abbrev pub is_ok {ℓ κ} : {E : Type ℓ} {A : Type κ} → Result E A → Bool
is_ok (ok a) = true
is_ok (err e) = false

-- A chain that succeeds had a first part that did.
pub >>=-eq-ok {ℓ κ μ} :
    {E : Type ℓ} {A : Type κ} {B : Type μ} (first : Result E A) (rest : A → Result E B) {last : B}
    → (first >>= rest) ≡ ok last
    → (middle : A) × (first ≡ ok middle) × (rest middle ≡ ok last)
>>=-eq-ok (ok middle) rest passed = (middle, refl, passed)
>>=-eq-ok (err e) rest passed = absurd (let z : ⊥ = cc in z)

pub >>-eq-ok {ℓ κ} :
    {E : Type ℓ} {B : Type κ} (m : Result E (Unit {0})) (k : Result E B) {b : B}
    → (m >> k) ≡ ok b
    → (m ≡ ok tt) × (k ≡ ok b)
>>-eq-ok (ok tt) k h = (refl, h)
>>-eq-ok (err e) k h = absurd (let z : ⊥ = cc in z)

abbrev value {ℓ κ} : {E : Type ℓ} {A : Type κ} → A → Result E A → A
value d (ok a) = a
value d (err e) = d

pub ok-injective {ℓ κ} :
    {E : Type ℓ} {A : Type κ} (a b : A) → ◌≡◌ {A = Result E A} (ok a) (ok b) → a ≡ b
ok-injective {A = A} a b h = ap (value a) h

-- A check before a value.
pub checked-eq-ok {ℓ κ μ} :
    {E : Type ℓ} {F : Type κ} {A : Type μ} (f : E → F) (c : Result E (Unit {0})) (a b : A)
    → (map_err f c >> ok a) ≡ ok b
    → (c ≡ ok tt) × (b ≡ a)
checked-eq-ok f (ok tt) a b h = (refl, sym (ok-injective a b h))
checked-eq-ok f (err e) a b h = absurd (let z : ⊥ = cc in z)

pub map_err-eq-ok {ℓ κ μ} :
    {E : Type ℓ} {F : Type κ} {A : Type μ} (f : E → F) (c : Result E A) (a : A)
    → map_err f c ≡ ok a
    → c ≡ ok a
map_err-eq-ok f (ok b) a h = ap ok (ok-injective b a h)
map_err-eq-ok f (err e) a h = absurd (let z : ⊥ = cc in z)

pub guard-eq-ok {ℓ} : {E : Type ℓ} (b : Bool) (e : E) → guard b e ≡ ok tt → b ≡ true
guard-eq-ok true e h = refl
guard-eq-ok false e h = absurd (let z : ⊥ = cc in z)

pub Result-cases {ℓ κ} :
    {E : Type ℓ} {A : Type κ} (r : Result E A) → ((a : A) × (r ≡ ok a)) ⊎ ((e : E) × (r ≡ err e))
Result-cases (ok a) = inl (a, refl)
Result-cases (err e) = inr (e, refl)

pub ok≢err {ℓ κ μ} :
    {E : Type ℓ} {A : Type κ} {P : Type μ} (e : E) (a : A) → ◌≡◌ {A = Result E A} (err e) (ok a) → P
ok≢err e a h = absurd (let z : ⊥ = cc in z)
