-- ===== src/Sessions/Pending.antt =====
-- packages/sessions/src/pending-actions.ts: actions that wait for the owner's decision. The reading
-- of a date text is a parameter, `none` where the result is not a number.
pub mod Laws
use xmtp_broker.Base.{
  ℕ, String, Bool, true, false, List, [], ◌∷◌, ◌++◌, Option, none, some, ◌==◌, get, put, delete,
  values, filter, if◌then◌else◌,
}
use xmtp_broker.Policy.Reveal.{time_le}

-- `P` is the payload.
pub record PendingAction (P : Type 0) : Type 0 where
  pub action_id : String
  pub credential_id : String
  pub action_type : String
  pub payload : P
  pub created_at : String
  pub expires_at : String

abbrev pub PendingActions : Type 0 → Type 0
PendingActions P = List (String × PendingAction P)

module _ {P : Type 0} where
  unfoldable pub add : PendingActions P → PendingAction P → PendingActions P
  add actions action = put actions action.action_id action

  unfoldable pub find_action : PendingActions P → String → Option (PendingAction P)
  find_action actions action_id = get actions action_id

  unfoldable pub remove_and_return :
      PendingActions P → String → PendingActions P × Option (PendingAction P)
  remove_and_return actions action_id = elim (get actions action_id) [
    | none ↦ (actions, none)
    | some action ↦ (delete actions action_id, some action)
  ]

  unfoldable pub confirm : PendingActions P → String → PendingActions P × Option (PendingAction P)
  unfolding remove_and_return
  confirm actions action_id = remove_and_return actions action_id

  unfoldable pub deny : PendingActions P → String → PendingActions P × Option (PendingAction P)
  unfolding remove_and_return
  deny actions action_id = remove_and_return actions action_id

  unfoldable pub list_by_credential : PendingActions P → String → List (PendingAction P)
  list_by_credential actions credential_id =
      filter (λ a. a.credential_id == credential_id) (values actions)

  module _ (date_ms : String → Option ℕ) where
    abbrev pub is_stale : ℕ → PendingAction P → Bool
    is_stale now a = time_le (date_ms a.expires_at) (some now)

    -- The loop of `expireStale`, over the entries as they were: what is left and what was removed.
    unfoldable pub expire_each :
        ℕ → PendingActions P → PendingActions P → PendingActions P × List (PendingAction P)
    expire_each now actions [] = (actions, [])
    expire_each now actions ((id, a) ∷ rest) =
        let (left, expired) =
          expire_each now (if is_stale now a then delete actions id else actions) rest in
        (left, if is_stale now a then a ∷ expired else expired)

    unfoldable pub expire_stale : PendingActions P → ℕ → PendingActions P × List (PendingAction P)
    unfolding expire_each
    expire_stale actions now = expire_each now actions actions
