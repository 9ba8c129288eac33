-- ===== src/Examples/Delivery.antt =====
-- Buffers, numbered frames, seals and pending actions.
use Prim.Native.String.{String}
use xmtp_broker.Base.{
  refl, ◌≤◌, ℕ, suc, ◌+◌, Bool, true, false, List, [], ◌∷◌, Option, none, some, ◌≡◌, ◌≢◌, ◌↔◌, ◌==◌,
  eq_iff, Result, ok, err, drop, all, get, ltb, arith, if◌then◌else◌, ◌||◌,
}
use xmtp_broker.Scopes.{ScopeSet}
use xmtp_broker.Policy.Materiality.{is_single_delta_material}
use xmtp_broker.Seals.Delta.{compute_payload_delta}
use xmtp_broker.Seals.Delta.Laws.{SamePermissions, compute_payload_delta-material_iff}
use xmtp_broker.Seals.Republish.{Seal, AutoRepublishConfig, republish_to_chats}
use xmtp_broker.Seals.Republish.Laws.{times, failed_chats, republish_to_chats-covers}
use xmtp_broker.Sessions.Pending.{PendingAction, add, confirm, deny}
use xmtp_broker.Sessions.Pending.Laws.{
  PendingCall, confirmed, denied, swept, handed_out, decided-once,
}
use xmtp_broker.Ws.Buffer.{new_buffer, oldest, to_array, items_since}
use xmtp_broker.Ws.Buffer.Laws.{push_all}
use xmtp_broker.Ws.Buffer.History.{push_all-to_array}
use xmtp_broker.Ws.Sequence.{plan_replay}
use xmtp_broker.Ws.Sequence.Laws.{numbered, state_after, plan_replay-state_after}

abbrev above_two : ℕ → Bool
above_two n = ltb 2 n

abbrev pushed : List ℕ
pushed = 1 ∷ 2 ∷ 3 ∷ []

abbrev three_events : List String
three_events = "a" ∷ "b" ∷ "c" ∷ []

abbrev second_id : String
second_id = "act_2"

push_all-to_array_example :
    (to_array (push_all (new_buffer 2) pushed) ≡ 2 ∷ 3 ∷ [])
    × (oldest (push_all (new_buffer 2) pushed) ≡ some 2)
    × (items_since (push_all (new_buffer 2) pushed) above_two ≡ 3 ∷ [])
push_all-to_array_example = push_all-to_array 2 pushed above_two (omega arith)

plan_replay-state_after_example :
    ((plan_replay (state_after 2 three_events) (some 1)).needs_recovery ≡ false)
    × ((plan_replay (state_after 2 three_events) (some 1)).replay_frames
        ≡ drop 1 (numbered 1 three_events))
plan_replay-state_after_example = plan_replay-state_after 2 1 three_events (omega arith)

abbrev before_scopes : ScopeSet
before_scopes = record { allow = "send" ∷ "reply" ∷ []; deny = [] }

abbrev after_scopes : ScopeSet
after_scopes = record { allow = "send" ∷ []; deny = "reply" ∷ [] }

compute_payload_delta-material_iff_example :
    (is_single_delta_material (compute_payload_delta before_scopes after_scopes) ≡ false)
    ↔ SamePermissions before_scopes after_scopes
compute_payload_delta-material_iff_example =
    compute_payload_delta-material_iff before_scopes after_scopes

-- A publisher that counts its calls and fails on all but the third.
abbrev third_time : ℕ → String → Seal String → ℕ × Result String (Unit {0})
third_time n chat seal = (suc n, if ltb n 2 || ltb 2 n then err "offline" else ok tt)

abbrev sample_seal : Seal String
sample_seal = record { chat_id = "conv_1"; body = "seal" }

abbrev defaults : AutoRepublishConfig
defaults = record { max_retries = none; initial_delay_ms = none }

republish_to_chats-covers_example :
    (times "conv_2"
          (republish_to_chats third_time
            ("conv_1" ∷ "conv_2" ∷ [])
            0
            sample_seal
            defaults).1.succeeded
        + times "conv_2" (
            failed_chats
              (republish_to_chats third_time
                ("conv_1" ∷ "conv_2" ∷ [])
                0
                sample_seal
                defaults).1.failed)
      ≡ 1)
    × (all
          (λ c. "conv_1" == c)
          (republish_to_chats third_time
            ("conv_1" ∷ "conv_2" ∷ [])
            0
            sample_seal
            defaults).1.succeeded
        ≡ true)
republish_to_chats-covers_example =
    republish_to_chats-covers third_time ("conv_1" ∷ "conv_2" ∷ []) 0 sample_seal defaults "conv_2"

abbrev sample_action : PendingAction String
sample_action = record {
  action_id = "act_1";
  credential_id = "cred_1";
  action_type = "send";
  payload = "hello";
  created_at = "t10";
  expires_at = "t20";
}

abbrev ten_or_twenty : String → Option ℕ
ten_or_twenty t = if t == "t10" then some 10 else if t == "t20" then some 20 else none

other_action : second_id ≢ "act_1"
other_action h = let e : false ≡ true = (eq_iff second_id "act_1").1 h in cc e

abbrev decisions : List (PendingCall String)
decisions = confirmed "act_1" ∷ swept 5 ∷ denied "act_1" ∷ confirmed "act_1" ∷ []

decided-once_example :
    ((confirm (add [] sample_action) "act_1").1 ≡ some sample_action)
    × ((deny (add [] sample_action) "act_1").1 ≡ some sample_action)
    × (handed_out ten_or_twenty "act_1" (add [] sample_action) decisions ≤ 1)
    × (get (confirm (add [] sample_action) "act_1").0 "act_2" ≡ none)
    × (get (deny (add [] sample_action) "act_1").0 "act_2" ≡ none)
decided-once_example =
    decided-once ten_or_twenty [] sample_action decisions "act_2" refl other_action
