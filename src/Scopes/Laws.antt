-- ===== src/Scopes/Laws.antt =====
-- What a scope set resolves to, and how the categories divide the scopes.
use mathlib.Core.Bool.{not}
use xmtp_broker.Base.{
  ℕ, String, Bool, true, false, ◌&&◌, ◌||◌, List, [], ◌∷◌, ◌≡◌, refl, ap, includes, set_add, set_of,
  includes-set_add, includes-set_of, if◌then◌else◌, arith, eq_iff, ◌==◌, Bool-cases, inl, inr, all,
  filter, length, leb,
}
use xmtp_broker.Scopes.{
  ScopeCategory, messaging, group_management, metadata, access, observation, egress,
  permission_scope_values, scopes_by_category, ScopeSet, resolve_from, resolve_scope_set,
  is_scope_allowed, is_scope_in_category,
}

resolve_from-includes :
    (denied result allow : List String) (scope : String)
    → includes (resolve_from denied result allow) scope
      ≡ (includes result scope || includes allow scope && not (includes denied scope))
unfolding resolve_from
resolve_from-includes denied result [] scope = ground arith
resolve_from-includes denied result (s ∷ rest) scope = elim (Bool-cases (s == scope)) [
  | inl same ↦ ground (
    arith,
    eq_iff s scope,
    resolve_from-includes denied result rest scope,
    resolve_from-includes denied (set_add result s) rest scope,
    includes-set_add result s scope,
  )
  | inr other ↦ ground (
    arith,
    resolve_from-includes denied result rest scope,
    resolve_from-includes denied (set_add result s) rest scope,
    includes-set_add result s scope,
  )
]

-- A scope is effective exactly if it is listed under allow and not listed under deny: deny wins,
-- whatever the order and the repetitions of the two lists.
pub resolve_scope_set-deny_wins :
    (scope_set : ScopeSet) (scope : String)
    → is_scope_allowed scope (resolve_scope_set scope_set)
      ≡ (includes scope_set.allow scope && not (includes scope_set.deny scope))
unfolding resolve_scope_set
resolve_scope_set-deny_wins s scope = ground (
  arith,
  resolve_from-includes (set_of [] s.deny) [] s.allow scope,
  includes-set_of [] s.deny scope,
)

all-includes :
    (p : String → Bool) (xs : List String) (x : String)
    → all p xs ≡ true
    → includes xs x ≡ true
    → p x ≡ true
all-includes p (y ∷ ys) x h m = ground (arith, eq_iff y x, all-includes p ys x)
all-includes p [] x h m = ground arith

abbrev pub categories : List ScopeCategory
categories = messaging ∷ group_management ∷ metadata ∷ access ∷ observation ∷ egress ∷ []

abbrev count_categories : String → ℕ
count_categories scope = length (filter (is_scope_in_category scope) categories)

abbrev in_one : String → Bool
in_one s = leb (count_categories s) 1 && leb 1 (count_categories s)

one_category_table : all in_one permission_scope_values ≡ true
unfolding is_scope_in_category
one_category_table = refl

is_scope_in_category-listed :
    (scope : String) (c : ScopeCategory)
    → is_scope_in_category scope c ≡ true
    → includes permission_scope_values scope ≡ true
unfolding is_scope_in_category
is_scope_in_category-listed scope messaging h =
    all-includes (includes permission_scope_values) (scopes_by_category messaging) scope refl h
is_scope_in_category-listed scope group_management h =
    all-includes (includes permission_scope_values) (scopes_by_category group_management) scope refl
      h
is_scope_in_category-listed scope metadata h =
    all-includes (includes permission_scope_values) (scopes_by_category metadata) scope refl h
is_scope_in_category-listed scope access h =
    all-includes (includes permission_scope_values) (scopes_by_category access) scope refl h
is_scope_in_category-listed scope observation h =
    all-includes (includes permission_scope_values) (scopes_by_category observation) scope refl h
is_scope_in_category-listed scope egress h =
    all-includes (includes permission_scope_values) (scopes_by_category egress) scope refl h

filter-none {ℓ} :
    {A : Type ℓ} (p : A → Bool) (xs : List A) → ((x : A) → p x ≡ false) → filter p xs ≡ []
filter-none p [] h = refl
filter-none p (x ∷ xs) h = rw (h x) (filter-none p xs h)

-- Every listed scope lies in exactly one of the six categories, and no other text lies in any.
pub is_scope_in_category-count :
    (scope : String)
    → length (filter (is_scope_in_category scope) categories)
      ≡ (if includes permission_scope_values scope then 1 else 0)
is_scope_in_category-count scope = elim (Bool-cases (includes permission_scope_values scope)) [
  | inl listed ↦ rw listed (
      count-eq-one (count_categories scope)
        (all-includes in_one permission_scope_values scope one_category_table listed))
  | inr unlisted ↦ rw unlisted (
      ap length (
        filter-none (is_scope_in_category scope) categories
          λ c. not-true (λ h. cc (unlisted, is_scope_in_category-listed scope c h))))
]
  where
    count-eq-one : (n : ℕ) → leb n 1 && leb 1 n ≡ true → n ≡ 1
    count-eq-one n h = ground arith

    not-true : {b : Bool} → ¬ (b ≡ true) → b ≡ false
    not-true h = ground arith
