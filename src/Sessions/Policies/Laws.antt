-- ===== src/Sessions/Policies/Laws.antt =====
-- What the stored policies satisfy over a run of calls.
use xmtp_broker.Base.{
  ℕ, String, true, ◌≡◌, refl, some, eq_iff, get, put, get-put, get-delete, arith, Option-cases,
  Bool-cases, inl, inr,
}
use xmtp_broker.Sessions.Policies.{
  PolicyConfig, PolicyRecord, PolicyChanges, Policies, is_valid_config, create, merged, update,
  remove,
}

-- Each policy of the store stands under its own id and would be accepted by the schema.
pub record IsSound (store : Policies) : Type 0 where
  pub keyed : (id : String) (r : PolicyRecord) → get store id ≡ some r → r.id ≡ id
  pub valid :
      (id : String) (r : PolicyRecord) → get store id ≡ some r → is_valid_config r.config ≡ true

put-IsSound :
    (store : Policies) (id : String) (r : PolicyRecord)
    → r.id ≡ id
    → is_valid_config r.config ≡ true
    → IsSound store
    → IsSound (put store id r)
put-IsSound store id r same ok_config v = record {
  keyed = λ j s h. ground (arith, get-put store id r j, eq_iff id j, v.keyed j s);
  valid = λ j s h. ground (arith, get-put store id r j, eq_iff id j, v.valid j s);
}

create-IsSound :
    (store : Policies) (now : ℕ) (id : String) (config : PolicyConfig)
    → IsSound store
    → IsSound (create store now id config).0
unfolding create
create-IsSound store now id config v = elim (Bool-cases (is_valid_config config)) [
  | inl fits ↦ rw fits (
      put-IsSound store id (record { id = id; config = config; created_at = now; updated_at = now })
        refl fits v)
  | inr wrong ↦ rw wrong v
]

update-IsSound :
    (store : Policies) (now : ℕ) (id : String) (changes : PolicyChanges)
    → IsSound store
    → IsSound (update store now id changes).0
unfolding update
update-IsSound store now id changes v = elim (Option-cases (get store id)) [
  | inl e ↦ rw (e, update) v
  | inr (r, e) ↦ elim (Bool-cases (is_valid_config (merged r.config changes))) [
    | inl fits ↦ rw (e, update, fits) (put-IsSound store id _ (v.keyed id r e) fits v)
    | inr wrong ↦ rw (e, update, wrong) v
  ]
]

remove-IsSound : (store : Policies) (id : String) → IsSound store → IsSound (remove store id).0
unfolding remove
remove-IsSound store id v = elim (Option-cases (get store id)) [
  | inl e ↦ rw (e, remove) v
  | inr (r, e) ↦
      rw (e, remove)
        (record {
          keyed = λ j s h. ground (arith, get-delete store id j, eq_iff id j, v.keyed j s);
          valid = λ j s h. ground (arith, get-delete store id j, eq_iff id j, v.valid j s);
        })
]

-- Creating, updating and removing a policy all keep the store sound: every policy stands under its
-- own id, has a label, and names only scopes that exist.
pub changes-IsSound :
    (store : Policies)
    → IsSound store
    → ((now : ℕ) (id : String) (config : PolicyConfig) → IsSound (create store now id config).0)
      × ((now : ℕ) (id : String) (changes : PolicyChanges)
          → IsSound (update store now id changes).0)
      × ((id : String) → IsSound (remove store id).0)
changes-IsSound store v = (
  λ now id config. create-IsSound store now id config v,
  λ now id changes. update-IsSound store now id changes v,
  λ id. remove-IsSound store id v,
)
