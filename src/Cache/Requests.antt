-- ===== src/Cache/Requests.antt =====
-- RequestsStore (cache/request_store.go): a set of requests behind a pointer, which all copies of a
-- resource share. A request is its address, as in the map's keys; a store is an address in a heap,
-- and nil is `none`.
use xds_relay.Prelude.{
  ℕ, suc, Bool, false, ◌≡◌, refl, Option, none, some, List, [], ◌∷◌, ◌++◌, ◌==◌, ◌||◌,
  if◌then◌else◌,
}
use xds_relay.Outcome.{Outcome, ok, panic}

pub record Heap : Type 0 where
  pub cell : ℕ → List ℕ
  pub next : ℕ

abbrev pub update : (ℕ → List ℕ) → ℕ → List ℕ → ℕ → List ℕ
update cell a l b = if b == a then l else cell b

unfoldable pub contains : ℕ → List ℕ → Bool
contains r [] = false
contains r (x ∷ l) = x == r || contains r l

-- LoadOrStore and Delete of the map.
unfoldable pub insert : ℕ → List ℕ → List ℕ
unfolding contains
insert r l = if contains r l then l else l ++ r ∷ []

unfoldable pub erase : ℕ → List ℕ → List ℕ
erase r [] = []
erase r (x ∷ l) = let rest = erase r l in if x == r then rest else x ∷ rest

abbrev pub new_requests_store : Heap → Heap × ℕ
new_requests_store h = (record { cell = update h.cell h.next []; next = suc h.next }, h.next)

unfoldable pub set : Heap → Option ℕ → ℕ → Outcome Heap
set h none r = panic
set h (some a) r = ok (record h { cell = update h.cell a (insert r (h.cell a)) })

unfoldable pub delete : Heap → Option ℕ → ℕ → Outcome Heap
delete h none r = panic
delete h (some a) r = ok (record h { cell = update h.cell a (erase r (h.cell a)) })

-- The requests that ForEach visits.
unfoldable pub for_each : Heap → Option ℕ → Outcome (List ℕ)
for_each h none = panic
for_each h (some a) = ok (h.cell a)

-- Through a pointer that is not nil nothing panics.
pub set-some :
    (h : Heap) (p : Option ℕ) (r a : ℕ)
    → p ≡ some a
    → set h p r ≡ ok (record h { cell = update h.cell a (insert r (h.cell a)) })
unfolding set
set-some h p r a e = rw e

pub delete-some :
    (h : Heap) (p : Option ℕ) (r a : ℕ)
    → p ≡ some a
    → delete h p r ≡ ok (record h { cell = update h.cell a (erase r (h.cell a)) })
unfolding delete
delete-some h p r a e = rw e

pub erase-nil : (r : ℕ) → erase r [] ≡ []
unfolding erase
erase-nil r = refl
