-- ===== src/Seals/Chain.antt =====
-- packages/seals/src/chain-validator.ts: the checks of a chain that is read.
pub mod Laws
use Prim.Native.String.{compare}
use text.Mathlib.Text.{is_lt}
use xmtp_broker.Base.{
  ℕ, String, Bool, true, false, not, ◌&&◌, List, [], ◌∷◌, Option, none, some, ◌==◌, ltb, leb,
  length, Result, ok, err, if◌then◌else◌,
}
use xmtp_broker.Policy.Materiality.{
  Verdict, allow, deny, ScopePolicyChange, PolicyDelta, empty_delta,
}
use xmtp_broker.Seals.Delta.{compute_payload_delta}
use xmtp_broker.Seals.Manager.{SealPayload, SealEnvelope}

pub data ChainError : Type 0 where
  operator_mismatch credential_mismatch chat_mismatch issued_before delta_mismatch : ChainError

unfoldable pub validate_seal_chain : SealEnvelope → Result ChainError (Unit {0})
validate_seal_chain chain = elim chain.previous [
  | none ↦ ok tt
  | some previous ↦
      if not (chain.current.input.operator_id == previous.input.operator_id)
      then err operator_mismatch
      else if not (chain.current.input.credential_id == previous.input.credential_id)
      then err credential_mismatch
      else if not (chain.current.input.chat_id == previous.input.chat_id)
      then err chat_mismatch
      else if ltb chain.current.issued_at previous.issued_at
      then err issued_before
      else ok tt
]

-- `[...texts].sort()`
insert_text : String → List String → List String
insert_text x [] = x ∷ []
insert_text x (y ∷ ys) = if is_lt (compare y x) then y ∷ insert_text x ys else x ∷ y ∷ ys

sort_texts : List String → List String
unfolding insert_text
sort_texts [] = []
sort_texts (x ∷ xs) = insert_text x (sort_texts xs)

-- `sortChanges`, which keeps changes of one scope in their order
insert_change : ScopePolicyChange → List ScopePolicyChange → List ScopePolicyChange
insert_change x [] = x ∷ []
insert_change x (y ∷ ys) =
    if is_lt (compare y.scope x.scope) then y ∷ insert_change x ys else x ∷ y ∷ ys

sort_changes : List ScopePolicyChange → List ScopePolicyChange
unfolding insert_change
sort_changes [] = []
sort_changes (x ∷ xs) = insert_change x (sort_changes xs)

abbrev same_verdict : Verdict → Verdict → Bool
same_verdict allow allow = true
same_verdict deny deny = true
same_verdict _ _ = false

same_texts : List String → List String → Bool
same_texts [] bs = true
same_texts (x ∷ xs) [] = false
same_texts (x ∷ xs) (b ∷ bs) = x == b && same_texts xs bs

same_changes : List ScopePolicyChange → List ScopePolicyChange → Bool
same_changes [] bs = true
same_changes (x ∷ xs) [] = false
same_changes (x ∷ xs) (b ∷ bs) =
    x.scope == b.scope && same_verdict x.from b.from && same_verdict x.to b.to && same_changes xs bs

abbrev same_length {ℓ} : {A : Type ℓ} → List A → List A → Bool
same_length xs ys = leb (length xs) (length ys) && leb (length ys) (length xs)

delta_equals : PolicyDelta → PolicyDelta → Bool
unfolding sort_texts sort_changes same_texts same_changes
delta_equals a b =
    same_length a.added b.added
    && same_length a.removed b.removed
    && same_length a.changed b.changed
    && same_texts (sort_texts a.added) (sort_texts b.added)
    && same_texts (sort_texts a.removed) (sort_texts b.removed)
    && same_changes (sort_changes a.changed) (sort_changes b.changed)

abbrev pub expected_delta : SealEnvelope → PolicyDelta
expected_delta chain = elim chain.previous [
  | none ↦ empty_delta
  | some previous ↦ compute_payload_delta previous.input.permissions chain.current.input.permissions
]

unfoldable pub verify_chain_delta : SealEnvelope → Result ChainError (Unit {0})
unfolding delta_equals
verify_chain_delta chain =
    if not (delta_equals (expected_delta chain) chain.delta) then err delta_mismatch else ok tt
