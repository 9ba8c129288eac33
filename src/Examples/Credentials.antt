-- ===== src/Examples/Credentials.antt =====
-- Two credentials of one operator, of which the first is revoked.
use xmtp_broker.Base.{
  ℕ, String, true, List, [], ◌∷◌, none, some, ◌≡◌, ◌≢◌, ◌≤◌, ◌<◌, refl, ok, arith, length, get, ◌↔◌,
}
use xmtp_broker.Scopes.{ScopeSet, resolve_scope_set}
use xmtp_broker.Policy.Permissions.Laws.{grants}
use xmtp_broker.Sessions.Credentials.Store.{
  CredentialRecord, Manager, default_config, new_manager, merge, revocation, upsert_record,
  mutate_record, active_among, get_active_for_operator, cleanup_reveal_state, after_revoke,
  revoke_record,
}
use xmtp_broker.Sessions.Credentials.Ops.{
  sweep_one, sweep_each, sweep_expired, CredentialConfig, Draw, ttl_of, evict, new_record,
  find_or_create, issue_credential, get_credential_by_token, get_credential_by_id,
  revoke_credential, update_credential_scopes, check_credential_materiality,
}
use xmtp_broker.Sessions.Credentials.Tokens.{IsLive, get_credential_by_token_iff}
use xmtp_broker.Sessions.Credentials.Runs.{
  Call, issue, revoke, after, Run, still, then_call, Run-bounded, Run-never_accepted,
}
use xmtp_broker.Sessions.Materiality.{check_materiality}
use xmtp_broker.Sessions.Policies.{PolicyConfig, PolicyChanges, create, remove}
use xmtp_broker.Sessions.Policies
use xmtp_broker.Sessions.Policies.Laws.{IsSound, changes-IsSound}
use xmtp_broker.Sessions.Service
use xmtp_broker.Sessions.Service.{
  Changes, next_scopes, apply_scopes, to_credential_record, lookup_credential, act, after_lookup,
  update_scopes,
}
use xmtp_broker.Sessions.Service.Laws.{update-no_gain}
use xmtp_broker.Sessions.Service.Action.{update_scopes-no_gain}

abbrev sample_hash : ScopeSet → List String → String
sample_hash s chats = elim s.allow [ [] ↦ "none" | x ∷ xs ↦ x ]

abbrev config_of : String → CredentialConfig
config_of scope = record {
  operator_id = "op_1";
  chat_ids = "conv_1" ∷ [];
  scopes = record { allow = scope ∷ []; deny = [] };
  ttl_seconds = none;
}

abbrev draw_of : String → String → Draw
draw_of id token = record { credential_id = id; token = token; issued_by = "owner" }

abbrev issue_first : Call
issue_first = issue 0 (config_of "send") (draw_of "cred_1" "tok_1")

abbrev issue_second : Call
issue_second = issue 7 (config_of "reply") (draw_of "cred_2" "tok_2")

abbrev first_issued : Manager
first_issued = after sample_hash default_config new_manager issue_first

abbrev first_revoked : Manager
first_revoked = after sample_hash default_config first_issued (revoke 5 "cred_1" "owner-initiated")

abbrev second_issued : Manager
second_issued = after sample_hash default_config first_revoked issue_second

abbrev first : CredentialRecord
first = new_record sample_hash default_config 0 (config_of "send") (draw_of "cred_1" "tok_1")

abbrev first_ended : CredentialRecord
first_ended = merge first (revocation 5 "owner-initiated")

abbrev second : CredentialRecord
second = new_record sample_hash default_config 7 (config_of "reply") (draw_of "cred_2" "tok_2")

reaches_first : Run sample_hash default_config new_manager first_issued
reaches_first = then_call new_manager issue_first still refl

reaches_revoked : Run sample_hash default_config new_manager first_revoked
reaches_revoked = then_call first_issued (revoke 5 "cred_1" "owner-initiated") reaches_first tt

first_stored : get first_revoked.by_id "cred_1" ≡ some first_ended
unfolding issue_credential evict find_or_create new_record upsert_record get_active_for_operator
    active_among revoke_credential revoke_record mutate_record cleanup_reveal_state after_revoke
    merge ttl_of
first_stored = refl

second_new : get first_revoked.by_id "cred_2" ≡ none
unfolding issue_credential evict find_or_create new_record upsert_record get_active_for_operator
    active_among revoke_credential revoke_record mutate_record cleanup_reveal_state after_revoke
    merge
second_new = refl

second_accepted : (get_credential_by_token second_issued 9 "tok_2").1 ≡ ok second
unfolding get_credential_by_token issue_credential evict find_or_create new_record upsert_record
    get_active_for_operator active_among revoke_credential revoke_record mutate_record
    cleanup_reveal_state after_revoke merge ttl_of
second_accepted = refl

positive : 0 < default_config.max_concurrent_per_operator
positive = omega arith

Run-never_accepted_example : second.credential_id ≢ "cred_1"
unfolding merge
Run-never_accepted_example =
    Run-never_accepted sample_hash default_config first_revoked second_issued "cred_1" first_ended
      positive reaches_revoked first_stored refl
      (then_call first_revoked issue_second still second_new) 9 "tok_2" second second_accepted

Run-bounded_example : length (get_active_for_operator first_issued "op_1") ≤ 3
Run-bounded_example =
    Run-bounded sample_hash default_config first_issued "op_1" positive reaches_first

get_credential_by_token_iff_example :
    ((get_credential_by_token second_issued 9 "tok_2").1 ≡ ok second) ↔ (
      IsLive second_issued 9 "tok_2" second
      × ((get_credential_by_token second_issued 9 "tok_2").0 ≡ second_issued))
get_credential_by_token_iff_example = get_credential_by_token_iff second_issued 9 "tok_2" second

-- The first credential keeps its one scope, listed twice.
abbrev doubled : Changes
doubled = record {
  operator_id = none;
  chat_ids = none;
  ttl_seconds = none;
  policy_id = none;
  allow = some ("send" ∷ "send" ∷ []);
  deny = none;
}

abbrev first_doubled : CredentialRecord
first_doubled = record first {
  effective_scopes = record { allow = "send" ∷ "send" ∷ []; deny = [] };
  resolved_scopes = "send" ∷ [];
}

first_issued_stored : get first_issued.by_id "cred_1" ≡ some first
unfolding issue_credential evict find_or_create new_record upsert_record get_active_for_operator
    active_among ttl_of
first_issued_stored = refl

first_doubled_stored :
    get
      (Service.update sample_hash default_config none first_issued 9 "cred_1" doubled).0.by_id
      "cred_1"
    ≡ some first_doubled
unfolding issue_credential evict find_or_create new_record upsert_record get_active_for_operator
    active_among ttl_of Service.update get_credential_by_id next_scopes apply_scopes
    check_credential_materiality check_materiality update_credential_scopes mutate_record merge
    resolve_scope_set
first_doubled_stored = refl

update-no_gain_example : grants first.effective_scopes "send" ≡ true
unfolding new_record
update-no_gain_example =
    update-no_gain sample_hash default_config none first_issued 9 "cred_1" doubled first
      first_doubled "send" first_issued_stored first_doubled_stored refl refl

abbrev doubled_scopes : ScopeSet
doubled_scopes = record { allow = "send" ∷ "send" ∷ []; deny = [] }

first_updated_stored :
    get
      (update_scopes sample_hash default_config first_issued 9 "cred_1" doubled_scopes).0.by_id
      "cred_1"
    ≡ some first_doubled
unfolding issue_credential evict find_or_create new_record upsert_record get_active_for_operator
    active_among ttl_of update_scopes lookup_credential after_lookup act sweep_expired sweep_each
    sweep_one get_credential_by_id check_credential_materiality check_materiality
    update_credential_scopes mutate_record merge resolve_scope_set to_credential_record
first_updated_stored = refl

update_scopes-no_gain_example : grants first.effective_scopes "send" ≡ true
unfolding new_record
update_scopes-no_gain_example =
    update_scopes-no_gain sample_hash default_config first_issued 9 "cred_1" doubled_scopes first
      first_doubled "send" first_issued_stored first_updated_stored refl refl

no_policies-IsSound : IsSound []
no_policies-IsSound = record { keyed = λ id r h. cc; valid = λ id r h. cc }

changes-IsSound_example :
    ((now : ℕ) (id : String) (config : PolicyConfig) → IsSound (create [] now id config).0)
    × ((now : ℕ) (id : String) (changes : PolicyChanges)
        → IsSound (Policies.update [] now id changes).0)
    × ((id : String) → IsSound (remove [] id).0)
changes-IsSound_example = changes-IsSound [] no_policies-IsSound
