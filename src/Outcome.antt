-- ===== src/Outcome.antt =====
-- The results of Go code: a value, an error, or a run-time panic that unwinds the goroutine.
use xds_relay.Prelude.{String, ◌≡◌, refl, ◌≢◌, ◌⊎◌, inl, inr}

pub data Outcome {ℓ} (A : Type ℓ) : Type ℓ where
  panic : Outcome A
  err : String → Outcome A
  ok : A → Outcome A

infixl 5 ◌>>=◌
abbrev pub ◌>>=◌ {ℓ κ} : {X : Type ℓ} {Y : Type κ} → Outcome X → (X → Outcome Y) → Outcome Y
panic >>= next = panic
err e >>= next = err e
ok x >>= next = next x

abbrev pub map_ok {ℓ κ} : {X : Type ℓ} {Y : Type κ} → (X → Y) → Outcome X → Outcome Y
map_ok g panic = panic
map_ok g (err e) = err e
map_ok g (ok x) = ok (g x)

-- The inversion of a chain that succeeds.
pub >>=-eq-ok {ℓ κ} :
    {X : Type ℓ} {Y : Type κ} (first : Outcome X) (next : X → Outcome Y) {y : Y}
    → (first >>= next) ≡ ok y
    → (x : X) × (first ≡ ok x) × (next x ≡ ok y)
>>=-eq-ok panic next success = cc
>>=-eq-ok (err e) next success = cc
>>=-eq-ok (ok x) next success = (x, refl, success)

-- A chain panics only if a part of it does.
pub >>=-ne-panic {ℓ κ} :
    {A : Type ℓ} {B : Type κ} (m : Outcome A) (f : A → Outcome B)
    → m ≢ panic
    → ((a : A) → m ≡ ok a → f a ≢ panic)
    → (m >>= f) ≢ panic
>>=-ne-panic (ok a) f h k = k a refl
>>=-ne-panic (err e) f h k = λ p. cc
>>=-ne-panic panic f h k = absurd (h refl)

pub >>=-assoc {ℓ κ ι} :
    {A : Type ℓ} {B : Type κ} {C : Type ι} (m : Outcome A) (f : A → Outcome B) (g : B → Outcome C)
    → ((m >>= f) >>= g) ≡ (m >>= λ a. f a >>= g)
>>=-assoc (ok a) f g = refl
>>=-assoc (err e) f g = refl
>>=-assoc panic f g = refl

-- What does not panic returns a value or an error.
pub Outcome-cases {ℓ} :
    {A : Type ℓ} (m : Outcome A) → m ≢ panic → ((a : A) × (m ≡ ok a)) ⊎ ((e : String) × (m ≡ err e))
Outcome-cases (ok a) h = inl (a, refl)
Outcome-cases (err e) h = inr (e, refl)
Outcome-cases panic h = absurd (h refl)

pub ok-inj {ℓ} : {A : Type ℓ} {a b : A} → ok a ≡ ok b → a ≡ b
ok-inj h = cc h
