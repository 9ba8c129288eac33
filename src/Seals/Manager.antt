-- ===== src/Seals/Manager.antt =====
-- packages/seals/src/manager.ts and build.ts: the seals of a credential in a chat. A call is cut where
-- it awaits the signer and the publisher, and other calls run in between; their answers, and the id
-- and the time that it draws, are arguments. The schema of a payload, as a test, is a parameter.
-- Nested metadata is its canonical text.
pub mod Laws
pub mod Runs
use Prim.Native.String
use xmtp_broker.Base.{
  ℕ, String, Bool, true, false, not, ◌&&◌, ◌||◌, List, [], ◌∷◌, ◌++◌, Option, none, some, ◌==◌,
  includes, set_add, get, put, delete, if◌then◌else◌, Result, ok, err,
}
use xmtp_broker.Scopes.{ScopeSet}
use xmtp_broker.Policy.Materiality.{PolicyDelta, empty_delta, is_material_change}
use xmtp_broker.Seals.Delta.{compute_payload_delta}

pub record SealInput : Type 0 where
  pub credential_id : String
  pub operator_id : String
  pub chat_id : String
  pub scope_mode : String
  pub permissions : ScopeSet
  pub admin_access : String
  pub bypassed : Bool
  pub trust_tier : Option String
  pub operator_disclosures : String
  pub provenance_map : String

pub record SealPayload : Type 0 where
  pub seal_id : String
  pub input : SealInput
  pub issued_at : ℕ

pub record SealEnvelope : Type 0 where
  pub current : SealPayload
  pub previous : Option SealPayload
  pub delta : PolicyDelta
  pub signature : String

pub data SealFailure : Type 0 where
  seal_error : String → SealFailure
  validation : SealFailure
  from_dependency : String → SealFailure

pub record SealManager : Type 0 where
  pub current_seals : List (String × SealEnvelope)
  pub seals_by_id : List (String × SealEnvelope)
  pub inputs_by_seal_id : List (String × SealInput)
  pub revoked_pairs : List String

abbrev pub new_seal_manager : SealManager
new_seal_manager = record {
  current_seals = [];
  seals_by_id = [];
  inputs_by_seal_id = [];
  revoked_pairs = [];
}

unfoldable pub chain_key : String → String → String
chain_key credential_id chat_id = String.◌++◌ credential_id (String.◌++◌ ":" chat_id)

abbrev differs_opt : Option String → Option String → Bool
differs_opt none none = false
differs_opt (some a) (some b) = not (a == b)
differs_opt _ _ = true

-- `bypassed` is not compared.
unfoldable pub has_input_changes : SealInput → SealInput → Bool
has_input_changes previous next =
    not (previous.credential_id == next.credential_id)
    || not (previous.operator_id == next.operator_id)
    || not (previous.chat_id == next.chat_id)
    || not (previous.scope_mode == next.scope_mode)
    || not (previous.admin_access == next.admin_access)
    || differs_opt previous.trust_tier next.trust_tier
    || not (previous.operator_disclosures == next.operator_disclosures)
    || not (previous.provenance_map == next.provenance_map)

abbrev pub delta_from : Option SealPayload → SealPayload → PolicyDelta
delta_from none current = empty_delta
delta_from (some previous) current =
    compute_payload_delta previous.input.permissions current.input.permissions

abbrev payload_of : Option SealEnvelope → Option SealPayload
payload_of none = none
payload_of (some e) = some e.current

-- The previous seal of the pair, if it still says what the input says.
unfoldable pub unchanged : SealManager → String → SealInput → Option SealEnvelope
unchanged m key input = elim (get m.current_seals key) [
  | none ↦ none
  | some previous ↦ elim (get m.inputs_by_seal_id previous.current.seal_id) [
    | none ↦ none
    | some before ↦
        if not (
            is_material_change
              (compute_payload_delta previous.current.input.permissions input.permissions ∷ []))
          && not (has_input_changes before input)
        then some previous
        else none
  ]
]

abbrev pub SealOutcome : Type 0 → Type 0
SealOutcome A = SealManager × Result SealFailure A

-- A seal that is built and waits for the signer and the publisher.
pub record SealWork : Type 0 where
  pub key : String
  pub input : SealInput
  pub previous : Option SealPayload
  pub payload : SealPayload

pub data Begun : Type 0 where
  over : Result SealFailure SealEnvelope → Begun
  working : SealWork → Begun

module _ (accepts : SealPayload → Bool) where
  unfoldable pub build_seal : SealInput → String → ℕ → Result SealFailure SealPayload
  build_seal input seal_id now =
      let payload : SealPayload = record { seal_id = seal_id; input = input; issued_at = now } in
      if accepts payload then ok payload else err validation

  unfoldable pub seal_begin : String → SealInput → Option SealPayload → String → ℕ → Begun
  unfolding build_seal
  seal_begin key input previous seal_id now = elim (build_seal input seal_id now) [
    | err e ↦ over (err e)
    | ok payload ↦
        working (record { key = key; input = input; previous = previous; payload = payload })
  ]

  -- `issue` from the resolver's answer up to the signer: the tests of the state are made here.
  unfoldable pub issue_begin : SealManager → Result String SealInput → String → String → ℕ → Begun
  unfolding seal_begin unchanged
  issue_begin m resolved chat_id seal_id now = elim resolved [
    | err e ↦ over (err (from_dependency e))
    | ok input ↦
        let key = chain_key input.credential_id chat_id in
        if includes m.revoked_pairs key
        then over (err (seal_error ""))
        else elim (unchanged m key input) [
          | some previous ↦ over (ok previous)
          | none ↦ seal_begin key input (payload_of (get m.current_seals key)) seal_id now
        ]
  ]

  abbrev pub head_is : Option SealEnvelope → String → Bool
  head_is none seal_id = false
  head_is (some e) seal_id = e.current.seal_id == seal_id

  -- `refresh` of the seal `seal_id` up to the signer, with the id `next_id` for the new one
  unfoldable pub refresh_begin : SealManager → String → String → ℕ → Begun
  unfolding seal_begin
  refresh_begin m seal_id next_id now = elim (get m.seals_by_id seal_id) [
    | none ↦ over (err (seal_error seal_id))
    | some existing ↦ elim (get m.inputs_by_seal_id seal_id) [
      | none ↦ over (err (seal_error seal_id))
      | some input ↦
          let current = existing.current in
          let key = chain_key current.input.credential_id current.input.chat_id in
          if not (head_is (get m.current_seals key) seal_id)
          then over (err (seal_error seal_id))
          else if includes m.revoked_pairs key
          then over (err (seal_error seal_id))
          else seal_begin key input (some current) next_id now
    ]
  ]

unfoldable pub track : SealManager → String → SealEnvelope → SealInput → SealManager
track m key envelope input = record m {
  current_seals = put m.current_seals key envelope;
  seals_by_id = put m.seals_by_id envelope.current.seal_id envelope;
  inputs_by_seal_id = put m.inputs_by_seal_id envelope.current.seal_id input;
}

-- `issue` and `refresh` from the signer on. Between the signer and the publisher no state is read or
-- written, so one step has the answers of both.
unfoldable pub seal_finish :
    SealManager
    → SealWork
    → Result String String
    → Result String (Unit {0})
    → SealOutcome SealEnvelope
unfolding track
seal_finish m work signed published = elim signed [
  | err e ↦ (m, err (from_dependency e))
  | ok signature ↦
      let envelope : SealEnvelope = record {
        current = work.payload;
        previous = work.previous;
        delta = delta_from work.previous work.payload;
        signature = signature;
      } in
      elim published [
        | err e ↦ (m, err (from_dependency e))
        | ok done ↦ (track m work.key envelope work.input, ok envelope)
      ]
]

-- `revoke` up to the signer, with the key of the pair; `valid` is whether the schema accepts the
-- revocation.
unfoldable pub revoke_begin : SealManager → String → Bool → Result SealFailure String
revoke_begin m seal_id valid = elim (get m.seals_by_id seal_id) [
  | none ↦ err (seal_error seal_id)
  | some existing ↦
      let current = existing.current in
      let key = chain_key current.input.credential_id current.input.chat_id in
      if includes m.revoked_pairs key
      then err (seal_error seal_id)
      else if not valid
      then err validation
      else ok key
]

-- `revoke` from the signer on
unfoldable pub revoke_finish :
    SealManager → String → Result String String → Result String (Unit {0}) → SealOutcome (Unit {0})
revoke_finish m key signed published = elim signed [
  | err e ↦ (m, err (from_dependency e))
  | ok signature ↦ elim published [
    | err e ↦ (m, err (from_dependency e))
    | ok done ↦ (
      record m {
        revoked_pairs = set_add m.revoked_pairs key;
        current_seals = delete m.current_seals key;
      },
      ok tt,
    )
  ]
]

unfoldable pub current : SealManager → String → String → Option SealEnvelope
current m credential_id chat_id = get m.current_seals (chain_key credential_id chat_id)

unfoldable pub lookup_seal : SealManager → String → Result SealFailure SealEnvelope
lookup_seal m seal_id = elim (get m.seals_by_id seal_id) [
  | none ↦ err (seal_error seal_id)
  | some envelope ↦ ok envelope
]
