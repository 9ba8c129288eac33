-- ===== src/Sessions/Operators/Laws.antt =====
-- The roles of the operators over a run of calls.
use xmtp_broker.Base.{
  ℕ, String, Bool, false, List, [], ◌∷◌, Option, none, some, ◌≡◌, refl, eq_iff, get, get-put,
  Result, arith, Option-cases, inl, inr,
}
use xmtp_broker.Sessions.Operators.{
  active, OperatorConfig, OperatorRecord, OperatorChanges, Operators, is_superadmin, merged_config,
  mark_removed, create_operator, update_operator, remove_operator,
}

-- The calls that change the store.
pub data OperatorCall (D : Type 0) : Type 0 where
  create_call : ℕ → String → OperatorConfig D → OperatorCall D
  update_call : String → OperatorChanges D → OperatorCall D
  remove_call : String → Option (Result String (Unit {0})) → OperatorCall D

abbrev super_opt : {D : Type 0} → Option (OperatorRecord D) → Bool
super_opt none = false
super_opt (some r) = is_superadmin r.config.role

module _ {D : Type 0} (accepts : OperatorConfig D → Bool) where
  abbrev pub after_call : Operators D → OperatorCall D → Operators D
  after_call store (create_call now id config) = (create_operator accepts store now id config).0
  after_call store (update_call id changes) = (update_operator accepts store id changes).0
  after_call store (remove_call id revoked) = (remove_operator store id revoked).0

  create_operator-super :
      (store : Operators D) (now : ℕ) (j : String) (config : OperatorConfig D) (id : String)
      → super_opt (get store id) ≡ false
      → super_opt (get (create_operator accepts store now j config).0 id) ≡ false
  unfolding create_operator
  create_operator-super store now j config id h = ground (
    arith,
    get-put store j (record { id = j; config = config; created_at = now; status = active }) id,
  )

  update_operator-super :
      (store : Operators D) (j : String) (changes : OperatorChanges D) (id : String)
      → super_opt (get store id) ≡ false
      → super_opt (get (update_operator accepts store j changes).0 id) ≡ false
  unfolding update_operator merged_config
  update_operator-super store j changes id h = elim (Option-cases (get store j)) [
    | inl e ↦ rw (e, update_operator) h
    | inr (r, e) ↦
        rw (e, update_operator)
          (ground (
            arith,
            get-put store j (record r { config = merged_config r.config changes }) id,
            eq_iff j id,
          ))
  ]

  remove_operator-super :
      (store : Operators D) (j : String) (revoked : Option (Result String (Unit {0}))) (id : String)
      → super_opt (get store id) ≡ false
      → super_opt (get (remove_operator store j revoked).0 id) ≡ false
  unfolding remove_operator
  remove_operator-super store j revoked id h = elim (Option-cases (get store j)) [
    | inl e ↦ rw (e, remove_operator) h
    | inr (r, e) ↦
        rw (e, remove_operator) (ground (arith, get-put store j (mark_removed r) id, eq_iff j id))
  ]

  after_call-super :
      (store : Operators D) (c : OperatorCall D) (id : String)
      → super_opt (get store id) ≡ false
      → super_opt (get (after_call store c) id) ≡ false
  after_call-super store (create_call now j config) id h =
      create_operator-super store now j config id h
  after_call-super store (update_call j changes) id h = update_operator-super store j changes id h
  after_call-super store (remove_call j revoked) id h = remove_operator-super store j revoked id h

  abbrev pub after_calls : Operators D → List (OperatorCall D) → Operators D
  after_calls store [] = store
  after_calls store (c ∷ cs) = after_calls (after_call store c) cs

  after_calls-super :
      (store : Operators D) (cs : List (OperatorCall D)) (id : String)
      → super_opt (get store id) ≡ false
      → super_opt (get (after_calls store cs) id) ≡ false
  after_calls-super store [] id h = h
  after_calls-super store (c ∷ cs) id h =
      after_calls-super (after_call store c) cs id (after_call-super store c id h)

  -- Whatever operators are created, updated and removed from an empty store on, no stored operator
  -- has the role superadmin.
  pub after_calls-no_superadmin :
      (cs : List (OperatorCall D)) (id : String) (r : OperatorRecord D)
      → get (after_calls [] cs) id ≡ some r
      → is_superadmin r.config.role ≡ false
  after_calls-no_superadmin cs id r e = ground (arith, after_calls-super [] cs id refl, e)
