-- ===== src/Base/Dict.antt =====
-- The language's `Set` and `Map` with text keys. Both keep the order of insertion; writing an
-- existing key of a map keeps its place.
use Prim.Native.String.{String}
use mathlib.Core.Path.{◌≡◌, refl, ap}
use mathlib.Core.Bool.{Bool, true, false, not, ◌&&◌, ◌||◌}
use mathlib.Core.Logic.{inl, inr, ◌↔◌}
use mathlib.Core.List.{List, [], ◌∷◌, ◌++◌}
use mathlib.Core.Option.{Option, none, some}
use native.Mathlib.Omega.{arith}
use text.Mathlib.Text.{◌==◌}
use text.Mathlib.TextEquality.{eq_iff}
use text.Mathlib.TextPositions.{eq_refl}
use xmtp_broker.Base.Tests.{if◌then◌else◌, Bool-cases}
use xmtp_broker.Base.Lists.{any, filter}

-- `xs.includes(x)`, and `has` of a set
abbrev pub includes : List String → String → Bool
includes [] x = false
includes (y ∷ ys) x = y == x || includes ys x

-- `add` of a set
abbrev pub set_add : List String → String → List String
set_add s x = if includes s x then s else s ++ x ∷ []

-- `new Set(xs)`, by adding each item in turn to the set at hand
abbrev pub set_of : List String → List String → List String
set_of s [] = s
set_of s (x ∷ xs) = set_of (set_add s x) xs

pub includes-append :
    (xs ys : List String) (x : String) → includes (xs ++ ys) x ≡ (includes xs x || includes ys x)
includes-append [] ys x = refl
includes-append (z ∷ zs) ys x = ground (arith, includes-append zs ys x)

pub includes-set_add :
    (s : List String) (y x : String) → includes (set_add s y) x ≡ (includes s x || y == x)
includes-set_add s y x = elim (Bool-cases (y == x)) [
  | inl same ↦ ground (arith, includes-append s (y ∷ []) x, eq_iff y x)
  | inr other ↦ ground (arith, includes-append s (y ∷ []) x)
]

pub includes-set_of :
    (s xs : List String) (x : String) → includes (set_of s xs) x ≡ (includes s x || includes xs x)
includes-set_of s [] x = ground arith
includes-set_of s (y ∷ ys) x =
    ground (arith, includes-set_of (set_add s y) ys x, includes-set_add s y x)

pub includes-filter :
    (p : String → Bool) (xs : List String) (x : String)
    → includes (filter p xs) x ≡ (includes xs x && p x)
includes-filter p [] x = refl
includes-filter p (y ∷ ys) x = elim (Bool-cases (y == x)) [
  | inl here ↦
      let same : p y ≡ p x = ap p ((eq_iff y x).0 here) in ground (arith, includes-filter p ys x)
  | inr elsewhere ↦ ground (arith, includes-filter p ys x)
]

-- No item occurs twice.
abbrev pub all_different : List String → Bool
all_different [] = true
all_different (x ∷ xs) = not (includes xs x) && all_different xs

-- A test passes on some item exactly if an item that passes it is included.
pub any-of_includes :
    (p : String → Bool) (xs : List String) (x : String)
    → includes xs x ≡ true
    → p x ≡ true
    → any p xs ≡ true
any-of_includes p [] x m h = cc
any-of_includes p (y ∷ ys) x m h = ground (arith, eq_iff y x, any-of_includes p ys x)

pub includes-of_any :
    (p : String → Bool) (xs : List String)
    → any p xs ≡ true
    → (x : String) × (includes xs x ≡ true) × (p x ≡ true)
includes-of_any p [] h = cc
includes-of_any p (y ∷ ys) h = elim (Bool-cases (p y)) [
  | inl here ↦ (y, ground (arith, eq_refl y), here)
  | inr later ↦ let (x, m, q) = includes-of_any p ys (ground arith) in (x, ground arith, q)
]

pub any-false_iff :
    (p : String → Bool) (xs : List String)
    → (any p xs ≡ false) ↔ ((x : String) → includes xs x ≡ true → p x ≡ false)
any-false_iff p xs = (
  λ h x m. elim (Bool-cases (p x)) [
    | inl hit ↦ cc (h, any-of_includes p xs x m hit)
    | inr miss ↦ miss
  ],
  λ f. elim (Bool-cases (any p xs)) [
    | inl hit ↦ let (x, m, q) = includes-of_any p xs hit in cc (q, f x m)
    | inr miss ↦ miss
  ],
)

module _ {ℓ} {V : Type ℓ} where
  abbrev pub get : List (String × V) → String → Option V
  get [] k = none
  get ((j, v) ∷ m) k = if j == k then some v else get m k

  abbrev pub put : List (String × V) → String → V → List (String × V)
  put [] k v = (k, v) ∷ []
  put ((j, w) ∷ m) k v = if j == k then (j, v) ∷ m else (j, w) ∷ put m k v

  abbrev pub delete : List (String × V) → String → List (String × V)
  delete [] k = []
  delete ((j, w) ∷ m) k = if j == k then delete m k else (j, w) ∷ delete m k

  abbrev pub values : List (String × V) → List V
  values [] = []
  values ((j, w) ∷ m) = w ∷ values m

module _ {ℓ} {V : Type ℓ} where
  pub get-put :
      (m : List (String × V)) (k : String) (v : V) (j : String)
      → get (put m k v) j ≡ (if k == j then some v else get m j)
  get-put [] k v j = refl
  get-put ((i, w) ∷ m) k v j = ground (arith, eq_iff k j, eq_iff i k, eq_iff i j, get-put m k v j)

  pub get-delete :
      (m : List (String × V)) (k j : String)
      → get (delete m k) j ≡ (if k == j then none else get m j)
  get-delete [] k j = ground arith
  get-delete ((i, w) ∷ m) k j = ground (arith, eq_iff k j, eq_iff i k, eq_iff i j, get-delete m k j)
