-- ===== src/Sessions/Pending/Laws.antt =====
-- How often an action is handed out by a decision, and what a sweep removes.
use xmtp_broker.Base.{
  ℕ, ◌+◌, ◌≤◌, String, Bool, true, false, not, all, List, [], ◌∷◌, Option, ◌==◌, Bool-cases,
  Option-cases, inl, inr, none, some, ◌≡◌, ◌≢◌, refl, eq_iff, eq_refl, get, delete, put, get-put,
  get-delete, if◌then◌else◌, arith,
}
use xmtp_broker.Sessions.Pending.{
  PendingAction, PendingActions, add, confirm, deny, is_stale, expire_each, expire_stale,
}

module _ {P : Type 0} where
  -- Each id is listed once, as in a map of the language.
  abbrev pub IsMap : PendingActions P → Type 0
  IsMap [] = Unit
  IsMap ((id, a) ∷ rest) = (get rest id ≡ none) × IsMap rest

  module _ (date_ms : String → Option ℕ) where
    -- The action, unless it is stale.
    abbrev pub unless_stale : ℕ → Option (PendingAction P) → Option (PendingAction P)
    unless_stale now none = none
    unless_stale now (some a) = if is_stale date_ms now a then none else some a

    abbrev is_stale_opt : ℕ → Option (PendingAction P) → Bool
    is_stale_opt now none = false
    is_stale_opt now (some a) = is_stale date_ms now a

    expire_each-get :
        (now : ℕ) (actions entries : PendingActions P) (id : String)
        → IsMap entries
        → get (expire_each date_ms now actions entries).0 id
          ≡ (if is_stale_opt now (get entries id) then none else get actions id)
    unfolding expire_each
    expire_each-get now actions [] id u = refl
    expire_each-get now actions ((j, b) ∷ rest) id (once, u) = ground (
      arith,
      eq_iff j id,
      expire_each-get now actions rest id u,
      expire_each-get now (delete actions j) rest id u,
      get-delete actions j id,
    )

    -- Expiring removes the actions whose date has been reached, and no other.
    pub expire_stale-get :
        (actions : PendingActions P) (now : ℕ) (id : String)
        → IsMap actions
        → get (expire_stale date_ms actions now).0 id ≡ unless_stale now (get actions id)
    unfolding expire_stale
    expire_stale-get actions now id u = ground (arith, expire_each-get now actions actions id u)

-- The calls that change the store.
pub data PendingCall (P : Type 0) : Type 0 where
  added : PendingAction P → PendingCall P
  confirmed denied : String → PendingCall P
  swept : ℕ → PendingCall P

module _ {P : Type 0} where
  abbrev pub adds : String → PendingCall P → Bool
  adds id (added a) = a.action_id == id
  adds id (confirmed j) = false
  adds id (denied j) = false
  adds id (swept now) = false

  abbrev pub held : String → PendingActions P → ℕ
  held id actions = elim (get actions id) [ none ↦ 0 | some a ↦ 1 ]

  abbrev given : Option (PendingAction P) → ℕ
  given none = 0
  given (some a) = 1

module _ {P : Type 0} (date_ms : String → Option ℕ) where
  abbrev pub after : PendingActions P → PendingCall P → PendingActions P
  after actions (added a) = add actions a
  after actions (confirmed id) = (confirm actions id).0
  after actions (denied id) = (deny actions id).0
  after actions (swept now) = (expire_stale date_ms actions now).0

  -- Whether the call hands out the action of this id to be carried out or dropped.
  abbrev pub hands_out : String → PendingActions P → PendingCall P → ℕ
  hands_out id actions (added a) = 0
  hands_out id actions (confirmed j) = if j == id then given (confirm actions j).1 else 0
  hands_out id actions (denied j) = if j == id then given (deny actions j).1 else 0
  hands_out id actions (swept now) = 0

  abbrev pub handed_out : String → PendingActions P → List (PendingCall P) → ℕ
  handed_out id actions [] = 0
  handed_out id actions (call ∷ calls) =
      hands_out id actions call + handed_out id (after actions call) calls

  expire_each-none :
      (now : ℕ) (actions entries : PendingActions P) (id : String)
      → get actions id ≡ none
      → get (expire_each date_ms now actions entries).0 id ≡ none
  unfolding expire_each
  expire_each-none now actions [] id gone = gone
  expire_each-none now actions ((j, b) ∷ rest) id gone =
      expire_each-none now (if is_stale date_ms now b then delete actions j else actions) rest id
        (elim (Bool-cases (is_stale date_ms now b)) [
          | inl stale ↦ rw (stale, get-delete actions j id) (ground arith)
          | inr fresh ↦ rw fresh gone
        ])

  after-held :
      (id : String) (actions : PendingActions P) (call : PendingCall P)
      → adds id call ≡ false
      → hands_out id actions call + held id (after actions call) ≤ held id actions
  unfolding confirm deny add expire_stale
  after-held id actions (added a) quiet = ground (arith, get-put actions a.action_id a id)
  after-held id actions (confirmed j) quiet = ground (arith, get-delete actions j id, eq_iff j id)
  after-held id actions (denied j) quiet = ground (arith, get-delete actions j id, eq_iff j id)
  after-held id actions (swept now) quiet = elim (Option-cases (get actions id)) [
    | inl gone ↦ let still = expire_each-none now actions actions id gone in ground arith
    | inr (a, there) ↦ ground arith
  ]

  handed_out-held :
      (id : String) (actions : PendingActions P) (calls : List (PendingCall P))
      → all (λ call. not (adds id call)) calls ≡ true
      → handed_out id actions calls ≤ held id actions
  handed_out-held id actions [] quiet = ground arith
  handed_out-held id actions (call ∷ calls) quiet =
      let one = after-held id actions call (ground arith) in
      let rest = handed_out-held id (after actions call) calls (ground arith) in omega arith

  -- An action that is added can be confirmed or denied, and either returns it; but over all later
  -- calls of the store that do not add its id again, confirmations and denials together return an
  -- action of that id at most once. Deciding one action leaves the others as they stood.
  pub decided-once :
      (actions : PendingActions P) (a : PendingAction P) (calls : List (PendingCall P))
      (id : String)
      → all (λ call. not (adds a.action_id call)) calls ≡ true
      → id ≢ a.action_id
      → ((confirm (add actions a) a.action_id).1 ≡ some a)
        × ((deny (add actions a) a.action_id).1 ≡ some a)
        × (handed_out a.action_id (add actions a) calls ≤ 1)
        × (get (confirm (add actions a) a.action_id).0 id ≡ get actions id)
        × (get (deny (add actions a) a.action_id).0 id ≡ get actions id)
  unfolding confirm deny add
  decided-once actions a calls id quiet other =
      let stored = get-put actions a.action_id a a.action_id in
      let once = handed_out-held a.action_id (add actions a) calls quiet in
      let untouched = get-put actions a.action_id a id in
      let gone = get-delete (put actions a.action_id a) a.action_id id in
      (
        ground (arith, stored, eq_refl a.action_id),
        ground (arith, stored, eq_refl a.action_id),
        ground (arith, once),
        ground (arith, stored, eq_refl a.action_id, eq_iff a.action_id id, gone, untouched),
        ground (arith, stored, eq_refl a.action_id, eq_iff a.action_id id, gone, untouched),
      )
