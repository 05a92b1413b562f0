-- ===== src/Orchestrator/Assoc.antt =====
-- Go maps as association lists, each key at most once by construction.
use xds_relay.Prelude.{
  ℕ, Bool, true, ◌≡◌, ◌≢◌, refl, sym, ap, ◌∙◌, Option, none, some, List, [], ◌∷◌, arith,
  if◌then◌else◌, ◌↔◌, ◌==◌, ==_iff, ◌⊎◌, inl, inr, Bool-cases, String, str_eq, eq_iff,
}

-- An equality test on keys.
pub record Key (K : Type 0) : Type 0 where
  pub beq : K → K → Bool
  pub beq_iff : (a b : K) → (beq a b ≡ true) ↔ (a ≡ b)

instance abbrev pub nat_key : Key ℕ
nat_key = record { beq = ◌==◌; beq_iff = ==_iff }

instance abbrev pub string_key : Key String
string_key = record { beq = str_eq; beq_iff = eq_iff }

pub Key-cases : {K : Type 0} ⦃k : Key K⦄ (a b : K) → (a ≡ b) ⊎ (a ≢ b)
Key-cases ⦃k⦄ a b = elim (Bool-cases (k.beq a b)) [
  | inl same ↦ inl ((k.beq_iff a b).0 same)
  | inr differ ↦ inr (λ p. cc ((k.beq_iff a b).1 p))
]

module _ {K V : Type 0} ⦃k : Key K⦄ where
  unfoldable pub lookup : K → List (K × V) → Option V
  lookup a [] = none
  lookup a ((b, v) ∷ m) = if k.beq b a then some v else lookup a m

  unfoldable pub remove : K → List (K × V) → List (K × V)
  remove a [] = []
  remove a ((b, v) ∷ m) = let rest = remove a m in if k.beq b a then rest else (b, v) ∷ rest

  -- A map with an entry for a key that has none.
  abbrev pub add : K → V → List (K × V) → List (K × V)
  add a v m = (a, v) ∷ m

  pub lookup-remove_self : (a : K) (m : List (K × V)) → lookup a (remove a m) ≡ none
  unfolding lookup remove
  lookup-remove_self a [] = refl
  lookup-remove_self a ((b, v) ∷ m) = ground (arith, lookup-remove_self a m)

  pub lookup-remove_ne : (a c : K) (m : List (K × V)) → a ≢ c → lookup c (remove a m) ≡ lookup c m
  unfolding lookup remove
  lookup-remove_ne a c [] n = refl
  lookup-remove_ne a c ((b, v) ∷ m) n =
      ground (arith, lookup-remove_ne a c m n, k.beq_iff b a, k.beq_iff b c)

  pub lookup-add_self : (a : K) (v : V) (m : List (K × V)) → lookup a (add a v m) ≡ some v
  unfolding lookup
  lookup-add_self a v m = ground (arith, k.beq_iff a a)

  pub lookup-add_ne :
      (a c : K) (v : V) (m : List (K × V)) → a ≢ c → lookup c (add a v m) ≡ lookup c m
  unfolding lookup
  lookup-add_ne a c v m n = ground (arith, k.beq_iff a c)

  -- No key twice.
  abbrev pub AreDistinct : List (K × V) → Type 0
  AreDistinct [] = Unit
  AreDistinct ((a, v) ∷ m) = (lookup a m ≡ none) × AreDistinct m

  lookup-remove_none :
      (a c : K) (m : List (K × V)) → lookup c m ≡ none → lookup c (remove a m) ≡ none
  lookup-remove_none a c m absent = elim (Key-cases a c) [
    | inl same ↦ ap (λ x. lookup x (remove a m)) (sym same) ∙ lookup-remove_self a m
    | inr other ↦ lookup-remove_ne a c m other ∙ absent
  ]

  pub AreDistinct-remove : (a : K) (m : List (K × V)) → AreDistinct m → AreDistinct (remove a m)
  unfolding remove
  AreDistinct-remove a [] h = tt
  AreDistinct-remove a ((b, v) ∷ m) h = elim (Bool-cases (k.beq b a)) [
    | inl hit ↦ rw hit (AreDistinct-remove a m h.1)
    | inr miss ↦ rw miss (lookup-remove_none a b m h.0, AreDistinct-remove a m h.1)
  ]

  remove-absent : (a : K) (m : List (K × V)) → lookup a m ≡ none → remove a m ≡ m
  unfolding lookup remove
  remove-absent a [] h = refl
  remove-absent a ((b, v) ∷ m) h = elim (Bool-cases (k.beq b a)) [
    | inl hit ↦ absurd (ground (arith, hit, h))
    | inr miss ↦ rw miss (ap (λ l. (b, v) ∷ l) (remove-absent a m (sym (rw miss refl) ∙ h)))
  ]

  pub remove-add_self :
      (a : K) (v : V) (m : List (K × V)) → lookup a m ≡ none → remove a (add a v m) ≡ m
  unfolding remove
  remove-add_self a v m absent = rw ((k.beq_iff a a).1 refl) (remove-absent a m absent)
