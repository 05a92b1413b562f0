-- ===== src/Validation/Decides.antt =====
-- Tests that return an error, as the Validate methods (aggregation.pb.validate.go,
-- bootstrap.pb.validate.go) chain them, and the predicates that they decide.
use xds_relay.Prelude.{
  All, ℕ, ◌+◌, ◌≤◌, String, ◌≡◌, ◌≢◌, ◌↔◌, refl, inl, inr, Bool, true, false, not, Option, none,
  some, List, [], ◌∷◌, ltb, arith, str_eq, Bool-cases, eq_iff,
}
use xds_relay.Validation.Violation.{
  Violation, Field, item, reject_if, ◌then◌, embedded, of_message, validate_items,
}
use xds_relay.Validation.Validity.{IfSet}

-- A test that has no error exactly if a predicate holds.
abbrev pub Decides : Option Violation → Type 0 → Type 0
Decides o P = (o ≡ none) ↔ P

pub both :
    {a b : Option Violation} {P Q : Type 0} → Decides a P → Decides b Q → Decides (a then b) (P × Q)
both {a = none} p q = (λ e. (p.0 refl, q.0 e), λ h. q.1 h.1)
both {a = some v} p q = (λ e. cc, λ h. cc (p.1 h.0))

pub within :
    (f : Field) {o : Option Violation} {P : Type 0} → Decides o P → Decides (embedded f o) P
within f {o = none} p = p
within f {o = some v} p = (λ e. cc, λ h. cc (p.1 h))

pub always : Decides none (Unit {0})
always = (λ e. tt, λ h. refl)

pub never : (v : Violation) → Decides (some v) ⊥
never v = (λ e. cc, λ h. absurd h)

pub at_least : (n k : ℕ) (v : Violation) → Decides (reject_if (ltb n k) v) (k ≤ n)
at_least n k v = (λ e. ground (arith, e), λ h. ground arith)

pub must : (b : Bool) (v : Violation) → Decides (reject_if (not b) v) (b ≡ true)
must true v = (λ e. refl, λ h. refl)
must false v = (λ e. cc, λ h. cc)

pub must_not : (b : Bool) (v : Violation) → Decides (reject_if b v) (b ≡ false)
must_not false v = (λ e. refl, λ h. refl)
must_not true v = (λ e. cc, λ h. cc)

pub nonempty : (s : String) (v : Violation) → Decides (reject_if (str_eq s "") v) (s ≢ "")
nonempty s v = elim (Bool-cases (str_eq s "")) [
  | inl e ↦ rw e (λ q. cc q, λ h. absurd (h ((eq_iff s "").0 e)))
  | inr e ↦ rw e (λ _ q. cc (e, (eq_iff s "").1 q), λ h. refl)
]

pub if_set :
    {A : Type 0} {validate : A → Option Violation} {P : A → Type 0}
    → ((a : A) → Decides (validate a) (P a))
    → (o : Option A) → Decides (of_message validate o) (IfSet P o)
if_set h none = always
if_set h (some a) = h a

pub each :
    {A : Type 0} {validate : A → Option Violation} {P : A → Type 0}
    → ((a : A) → Decides (validate a) (P a))
    → (name : String) (i : ℕ) (xs : List A) → Decides (validate_items validate name i xs) (All P xs)
unfolding validate_items
each h name i [] = always
each h name i (x ∷ xs) = both (within (item name i) (h x)) (each h name (i + 1) xs)
