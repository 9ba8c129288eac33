-- ===== src/Examples/Seals.antt =====
-- A seal that is issued, revoked, and asked for again; and one in flight meanwhile.
use xmtp_broker.Base.{
  List, all_different, includes, Bool, true, false, [], ◌∷◌, none, some, ◌≡◌, refl, get, ok, err,
}
use xmtp_broker.Policy.Materiality.{empty_delta}
use xmtp_broker.Seals.Manager.{
  SealInput, SealPayload, SealEnvelope, SealManager, SealWork, over, working, seal_error,
  new_seal_manager, chain_key, unchanged, build_seal, seal_begin, track, delta_from, issue_begin,
  seal_finish, revoke_begin, revoke_finish, current,
}
use xmtp_broker.Seals.Manager.Runs.{SealRun, started, issuing, answered}
use xmtp_broker.Seals.Chain.{verify_chain_delta}
use xmtp_broker.Seals.Chain.Laws.{
  SealRun-verifies, delta-verified, verify_chain_delta_sound, adds_scope, removes_scope,
}
use xmtp_broker.Seals.History.{history}
use xmtp_broker.Seals.History.Laws.{IsKeyed, ids_of, new-IsKeyed, track-IsKeyed, history-ends}
use xmtp_broker.Seals.Manager.Laws.{revoke_finish-final}

abbrev accept_all : SealPayload → Bool
accept_all p = true

abbrev sample_input : SealInput
sample_input = record {
  credential_id = "cred_1";
  operator_id = "op_1";
  chat_id = "conv_1";
  scope_mode = "per-chat";
  permissions = record { allow = "send" ∷ []; deny = [] };
  admin_access = "";
  bypassed = false;
  trust_tier = none;
  operator_disclosures = "";
  provenance_map = "";
}

abbrev first_seal : SealEnvelope
first_seal = record {
  current = record { seal_id = "seal_1"; input = sample_input; issued_at = 5 };
  previous = none;
  delta = empty_delta;
  signature = "sig";
}

abbrev first_work : SealWork
first_work = record {
  key = "cred_1:conv_1";
  input = sample_input;
  previous = none;
  payload = record { seal_id = "seal_1"; input = sample_input; issued_at = 5 };
}

abbrev sealed : SealManager
sealed = (seal_finish new_seal_manager first_work (ok "sig") (ok tt)).0

abbrev without_seal : SealManager
without_seal = (revoke_finish sealed "cred_1:conv_1" (ok "sig") (ok tt)).0

first_seal_begun :
    issue_begin accept_all new_seal_manager (ok sample_input) "conv_1" "seal_1" 5
    ≡ working first_work
unfolding issue_begin unchanged seal_begin build_seal chain_key
first_seal_begun = refl

first_seal_stored : get sealed.seals_by_id "seal_1" ≡ some first_seal
unfolding seal_finish track
first_seal_stored = refl

revocation_begun : revoke_begin sealed "seal_1" true ≡ ok "cred_1:conv_1"
unfolding seal_finish track revoke_begin chain_key
revocation_begun = refl

revocation_done : (revoke_finish sealed "cred_1:conv_1" (ok "sig") (ok tt)).1 ≡ ok tt
unfolding revoke_finish
revocation_done = refl

abbrev other_input : SealInput
other_input = record sample_input { chat_id = "conv_2" }

abbrev other_work : SealWork
other_work = record {
  key = "cred_1:conv_2";
  input = other_input;
  previous = none;
  payload = record { seal_id = "seal_3"; input = other_input; issued_at = 9 };
}

-- After the revocation, a seal for another chat is begun and answered.
later-SealRun :
    SealRun accept_all without_seal [] []
      (seal_finish without_seal other_work (ok "sig") (ok tt)).0
      []
      []
unfolding issue_begin unchanged seal_begin build_seal chain_key seal_finish track revoke_finish
later-SealRun =
    answered [] other_work [] (ok "sig") (ok tt)
      (issuing (ok other_input) "conv_2" "seal_3" 9 other_work refl started)

revoke_finish-final_example :
    (current (seal_finish without_seal other_work (ok "sig") (ok tt)).0 "cred_1" "conv_1" ≡ none)
    × (issue_begin accept_all
          (seal_finish without_seal other_work (ok "sig") (ok tt)).0
          (ok sample_input)
          "conv_1"
          "seal_4"
          11
        ≡ over (err (seal_error "")))
revoke_finish-final_example =
    revoke_finish-final accept_all sealed sealed
      (seal_finish without_seal other_work (ok "sig") (ok tt)).0 "seal_1" true first_seal
      "cred_1:conv_1" (ok "sig") (ok tt) [] [] [] [] sample_input "seal_4" 11 first_seal_stored
      revocation_begun revocation_done refl later-SealRun refl

-- A seal that is in flight when its pair is revoked gives the pair a current seal again.
seal_in_flight :
    current
      (seal_finish without_seal
        (record first_work {
          payload = record { seal_id = "seal_9"; input = sample_input; issued_at = 6 };
        })
        (ok "sig")
        (ok tt)).0
      "cred_1"
      "conv_1"
    ≡ some (record first_seal {
      current = record { seal_id = "seal_9"; input = sample_input; issued_at = 6 };
    })
unfolding current chain_key seal_finish track revoke_finish
seal_in_flight = refl

sealed-IsKeyed : IsKeyed sealed
unfolding seal_finish chain_key
sealed-IsKeyed =
    track-IsKeyed new_seal_manager (chain_key "cred_1" "conv_1") first_seal sample_input new-IsKeyed

history-ends_example :
    (es : List SealEnvelope) × (history sealed "cred_1" "conv_1" ≡ some es)
    × (all_different (ids_of es) ≡ true)
history-ends_example = history-ends sealed sealed-IsKeyed "cred_1" "conv_1"

abbrev renewed_input : SealInput
renewed_input = record sample_input {
  permissions = record { allow = "send" ∷ "reply" ∷ []; deny = [] };
}

abbrev first_payload : SealPayload
first_payload = record { seal_id = "seal_1"; input = sample_input; issued_at = 5 }

abbrev second_seal : SealEnvelope
second_seal = record {
  current = record { seal_id = "seal_2"; input = renewed_input; issued_at = 7 };
  previous = some first_payload;
  delta =
      delta_from (some first_payload)
        (record { seal_id = "seal_2"; input = renewed_input; issued_at = 7 });
  signature = "sig";
}

first-SealRun : SealRun accept_all new_seal_manager [] [] sealed [] []
unfolding seal_finish track
first-SealRun =
    answered [] first_work [] (ok "sig") (ok tt)
      (issuing (ok sample_input) "conv_1" "seal_1" 5 first_work first_seal_begun started)

SealRun-verifies_example : verify_chain_delta first_seal ≡ ok tt
SealRun-verifies_example =
    SealRun-verifies accept_all sealed [] [] "seal_1" first_seal first-SealRun first_seal_stored

second_seal_passes : verify_chain_delta second_seal ≡ ok tt
second_seal_passes = delta-verified second_seal refl

verify_chain_delta_sound_example :
    (includes second_seal.delta.added "reply" ≡ adds_scope second_seal "reply")
    × (includes second_seal.delta.removed "reply" ≡ removes_scope second_seal "reply")
verify_chain_delta_sound_example = verify_chain_delta_sound second_seal "reply" second_seal_passes
