-- ===== src/Admin/Paths.antt =====
-- What the handlers read from a request's path (admin/http/handler.go: getParam; the keys of
-- versionHandler and edsDumpHandler are filepath.Base of it).
use Prim.Native.Char.{Char, code}
use Prim.Native.String.{String, [], ◌∷◌, ◌++◌, count}
use text.Mathlib.TextEquality.{Char-path}
use text.Mathlib.TextLemmas.{nil-append, cons-append, length-append}
use xds_relay.Prelude.{
  ℕ, true, ◌≡◌, ◌≢◌, ◌↔◌, refl, ap, sym, ◌∙◌, inl, inr, Option, none, some, arith, Bool-cases,
  Option-cases, ◌==◌, if◌then◌else◌, ==_iff, ap₂, some-inj,
}
use xds_relay.Admin.Texts.{
  after_slash, file_of, trim_prefix, base, after_prefix, is_slash, or_slash,
}

abbrev pub log_url : String
log_url = "/log_level"

abbrev pub cache_url : String
cache_url = "/cache"

abbrev pub clear_url : String
clear_url = "/cache/clear"

unfoldable pub get_param : String → String → String
unfolding after_prefix after_slash
get_param path prefix = file_of (trim_prefix path prefix)

-- A text without a slash in it.
abbrev pub IsSlashFree : String → Type 0
IsSlashFree s = (a b : String) → s ≢ a ++ ("/" ++ b)

self_test : (n : ℕ) → (n == n) ≡ true
self_test n = ground arith

pub after_prefix-append : (p s : String) → after_prefix (p ++ s) p ≡ some s
unfolding after_prefix
after_prefix-append [] s = ap some (nil-append s)
after_prefix-append (c ∷ p) s =
    ap (λ t. after_prefix t (c ∷ p)) (cons-append c p s)
    ∙ rw (self_test (code c)) (after_prefix-append p s)

abbrev slash : Char
slash = "/"

slash_first : (s : String) → "/" ++ s ≡ slash ∷ s
slash_first s = cons-append slash "" s ∙ ap (λ t. slash ∷ t) (nil-append s)

-- One step of the search from the end.
last_of : Option String → Char → String → Option String
last_of (some file) c s = some file
last_of none c s = if is_slash c then some s else none

after_slash-step : (c : Char) (s : String) → after_slash (c ∷ s) ≡ last_of (after_slash s) c s
unfolding after_slash last_of
after_slash-step c s = elim (Option-cases (after_slash s)) [
  | inl e ↦ rw e refl
  | inr (f, e) ↦ rw e refl
]

is_slash-eq : (c : Char) → is_slash c ≡ true → c ≡ slash
is_slash-eq c h = Char-path c slash ((==_iff (code c) 47).0 h)

after_slash-some : (s f : String) → after_slash s ≡ some f → (a : String) × (s ≡ a ++ ("/" ++ f))
unfolding after_slash last_of
after_slash-some [] f h = cc
after_slash-some (c ∷ s) f h = elim (Option-cases (after_slash s)) [
  | inr (g, e) ↦
      let same : some g ≡ some f = sym (after_slash-step c s ∙ rw e refl) ∙ h in
      let (a, p) = after_slash-some s f (e ∙ same) in
      (c ∷ a, ap (λ t. c ∷ t) p ∙ sym (cons-append c a ("/" ++ f)))
  | inl e ↦ elim (Bool-cases (is_slash c)) [
    | inl found ↦
        let same : some s ≡ some f = sym (after_slash-step c s ∙ rw (e, found) refl) ∙ h in
        (
          [],
          ap₂ (λ d t. d ∷ t) (is_slash-eq c found) (some-inj same)
              ∙ sym (slash_first f)
              ∙ sym (nil-append ("/" ++ f)),
        )
    | inr isnt ↦
        (let missing : after_slash (c ∷ s) ≡ none = after_slash-step c s ∙ rw (e, isnt) refl in
          absurd (cc (sym missing ∙ h)))
  ]
]

-- The last slash is found, whatever precedes it.
after_slash-append : (a b : String) → (f : String) × (after_slash (a ++ ("/" ++ b)) ≡ some f)
unfolding last_of
after_slash-append [] b =
    let e : after_slash ([] ++ ("/" ++ b)) ≡ last_of (after_slash b) slash b =
      ap after_slash (nil-append ("/" ++ b) ∙ slash_first b) ∙ after_slash-step slash b in
    elim (Option-cases (after_slash b)) [
      | inl n ↦ (b, e ∙ rw n refl)
      | inr (f, n) ↦ (f, e ∙ rw n refl)
    ]
after_slash-append (c ∷ a) b =
    let (f, e) = after_slash-append a b in
    (
      f,
      ap after_slash (cons-append c a ("/" ++ b))
          ∙ after_slash-step c (a ++ ("/" ++ b))
          ∙ rw e refl,
    )

after_slash-cons : (s : String) → after_slash (slash ∷ s) ≡ some (file_of s)
unfolding last_of
after_slash-cons s =
    after_slash-step slash s
    ∙ (elim (Option-cases (after_slash s)) [ inl n ↦ rw n refl | inr (f, n) ↦ rw n refl ])

file_of-none : (s : String) → after_slash s ≡ none → file_of s ≡ s
file_of-none s h = rw h refl

-- The key of a path is what follows the last slash.
get_param-file : (prefix key : String) → get_param (prefix ++ ("/" ++ key)) prefix ≡ file_of key
unfolding get_param
get_param-file prefix key =
    rw
      (
        after_prefix-append prefix ("/" ++ key),
        ap after_slash (slash_first key) ∙ after_slash-cons key,
      )
      refl

longer : (a f : String) → f ≢ a ++ ("/" ++ f)
longer a f e = omega (arith, ap count e, length-append a ("/" ++ f), length-append "/" f)

-- A handler that is called with a key after its pattern reads that key exactly if there is no slash in
-- the key.
pub get_param_roundtrip :
    (prefix key : String) → (get_param (prefix ++ ("/" ++ key)) prefix ≡ key) ↔ IsSlashFree key
get_param_roundtrip prefix key = (
  (λ read a b split.
      let (f, found) = after_slash-append a b in
      let found' : after_slash key ≡ some f = ap after_slash split ∙ found in
      let (c, p) = after_slash-some key f found' in
      let same : f ≡ key = rw found' refl ∙ sym (get_param-file prefix key) ∙ read in
      longer c key (p ∙ ap (λ t. c ++ ("/" ++ t)) same)),
  λ free. elim (Option-cases (after_slash key)) [
    | inl n ↦ get_param-file prefix key ∙ file_of-none key n
    | inr (f, e) ↦ (let (a, p) = after_slash-some key f e in absurd (free a f p))
  ],
)

or_slash-ne-nil : (s : String) → or_slash s ≢ ""
or_slash-ne-nil [] e = cc
or_slash-ne-nil (c ∷ s) e = cc

-- filepath.Base is never empty: the test of versionHandler and edsDumpHandler for an empty key is
-- never true.
pub base-ne-nil : (path : String) → base path ≢ ""
unfolding base
base-ne-nil [] e = cc
base-ne-nil (c ∷ s) e = or_slash-ne-nil _ e
