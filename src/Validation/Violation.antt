-- ===== src/Validation/Violation.antt =====
-- The errors of the Validate methods (aggregation.pb.validate.go, bootstrap.pb.validate.go), and how they are chained.
use xds_relay.Prelude.{ℕ, ◌+◌, String, Bool, true, false, Option, none, some, List, [], ◌∷◌}

-- A field, or an item of a repeated one.
pub data Field : Type 0 where
  field : String → Field
  item : String → ℕ → Field

-- The reason and, for an embedded message that failed, the field and the cause. A required oneof with
-- nothing in it is `required` of its message; the oneof's own name is left out.
pub data Violation : Type 0 where
  required : Violation
  too_few_items : ℕ → Violation
  too_short : ℕ → Violation
  not_true : Violation
  negative : Violation
  undefined_value : Violation
  invalid_duration : String → Violation
  invalid_address : Violation
  too_large : ℕ → Violation
  inside : Field → Violation → Violation

-- `if <test> { return <error> }`.
abbrev pub reject_if : Bool → Violation → Option Violation
reject_if true v = some v
reject_if false v = none

-- The first error of two tests in turn.
infixl 4 ◌then◌
abbrev pub ◌then◌ : Option Violation → Option Violation → Option Violation
some v then rest = some v
none then rest = rest

-- `if err := v.Validate(); err != nil { return …{field: …, cause: err} }`.
abbrev pub embedded : Field → Option Violation → Option Violation
embedded f none = none
embedded f (some v) = some (inside f v)

-- Validate of a nil message is nil.
abbrev pub of_message {ℓ} : {A : Type ℓ} → (A → Option Violation) → Option A → Option Violation
of_message validate none = none
of_message validate (some m) = validate m

-- The loop over a repeated field, from an index on.
unfoldable pub validate_items {ℓ} :
    {A : Type ℓ} → (A → Option Violation) → String → ℕ → List A → Option Violation
validate_items validate name i [] = none
validate_items validate name i (m ∷ ms) =
    embedded (item name i) (validate m) then validate_items validate name (i + 1) ms
