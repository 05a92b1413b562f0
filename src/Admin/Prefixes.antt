-- ===== src/Admin/Prefixes.antt =====
-- Prefixes and suffixes of texts, and the keys that a wildcard selects (admin/http/cache.go).
use Prim.Native.Char.{Char, code}
use Prim.Native.String.{String, [], ◌∷◌, ◌++◌, count}
use text.Mathlib.TextEquality.{Char-path}
use text.Mathlib.TextPositions.{eq_refl}
use text.Mathlib.TextLemmas.{nil-append, cons-append, length-append, length-cons}
use xds_relay.Prelude.{
  Bool, true, false, ◌&&◌, ◌||◌, ◌≡◌, ◌↔◌, refl, ap, ap₂, sym, ◌∙◌, inl, inr, none, some, List, ◌∷◌,
  [], arith, Bool-cases, Option-cases, ◌==◌, ==_iff, some-inj, str_eq, eq_iff,
}
use xds_relay.Admin.Texts.{after_prefix, before_suffix, has_prefix, trim_suffix}
use xds_relay.Admin.Paths.{after_prefix-append}
use xds_relay.Admin.Keys.{with_prefix, has_wildcard_suffix}
use xds_relay.Orchestrator.Downstream.{has_key}

after_prefix-some : (s p t : String) → after_prefix s p ≡ some t → s ≡ p ++ t
unfolding after_prefix
after_prefix-some s [] t h = some-inj h ∙ sym (nil-append t)
after_prefix-some [] (c ∷ p) t h = cc
after_prefix-some (d ∷ s) (c ∷ p) t h = elim (Bool-cases (code d == code c)) [
  | inl same ↦
      let rest : after_prefix s p ≡ some t = sym (rw (same, after_prefix) refl) ∙ h in
      ap₂ (λ e r. e ∷ r) (Char-path d c ((==_iff (code d) (code c)).0 same))
        (after_prefix-some s p t rest)
      ∙ sym (cons-append c p t)
  | inr other ↦
      (let missing : after_prefix (d ∷ s) (c ∷ p) ≡ none = rw (other, after_prefix) refl in
        absurd (cc (sym missing ∙ h)))
]

-- strings.HasPrefix
pub has_prefix_iff : (s p : String) → (has_prefix s p ≡ true) ↔ ((t : String) × (s ≡ p ++ t))
has_prefix_iff s p = (
  (λ h. elim (Option-cases (after_prefix s p)) [
    | inl n ↦ absurd (cc (n, h))
    | inr (t, e) ↦ (t, after_prefix-some s p t e)
  ]),
  λ (t, e). rw (e, after_prefix-append p t) refl,
)

whole : (t : String) → before_suffix t t ≡ some []
unfolding before_suffix
whole [] = refl
whole (c ∷ t) = rw (eq_refl (c ∷ t), before_suffix) refl

longer : (c : Char) (s t : String) → str_eq (c ∷ (s ++ t)) t ≡ false
longer c s t = elim (Bool-cases (str_eq (c ∷ (s ++ t)) t)) [
  | inr differ ↦ differ
  | inl same ↦ absurd (
      omega (
        arith,
        ap count ((eq_iff (c ∷ (s ++ t)) t).0 same),
        length-cons c (s ++ t),
        length-append s t,
      ))
]

before_suffix-append : (s t : String) → before_suffix (s ++ t) t ≡ some s
unfolding before_suffix
before_suffix-append [] t = ap (λ u. before_suffix u t) (nil-append t) ∙ whole t
before_suffix-append (c ∷ s) t =
    ap (λ u. before_suffix u t) (cons-append c s t)
    ∙ rw (longer c s t, before_suffix-append s t) refl

or_true : (b : Bool) → (b || true) ≡ true
or_true b = ground arith

-- A key that ends in a star selects by what precedes the star.
pub wildcard :
    (root : String)
    → (has_wildcard_suffix (root ++ "*") ≡ true) × (trim_suffix (root ++ "*") "*" ≡ root)
unfolding has_wildcard_suffix
wildcard root = (
  rw (before_suffix-append root "*") (or_true (str_eq (root ++ "*") "")),
  rw (before_suffix-append root "*") refl,
)

-- The keys that the loop keeps are those with the prefix.
pub has_key-with_prefix :
    (root k : String) (ks : List String)
    → has_key k (with_prefix root ks) ≡ (has_key k ks && has_prefix k root)
unfolding has_key with_prefix
has_key-with_prefix root k [] = refl
has_key-with_prefix root k (j ∷ ks) = ground (arith, eq_iff j k, has_key-with_prefix root k ks)
