-- ===== src/Seals/Republish.antt =====
-- packages/seals/src/auto-republish.ts. `publish` is the caller's; `W` is the state of the world that
-- it acts on. A delay is recorded in the order in which it is waited for.
pub mod Laws
use xmtp_broker.Base.{
  ℕ, zero, suc, ◌*◌, String, Bool, true, false, not, List, [], ◌∷◌, ◌++◌, Option, none, some, ◌==◌,
  if◌then◌else◌, Result, ok, err,
}

-- The chat that the seal is chained to, and the rest of it.
pub record Seal (S : Type 0) : Type 0 where
  pub chat_id : String
  pub body : S

pub record AutoRepublishConfig : Type 0 where
  pub max_retries : Option ℕ
  pub initial_delay_ms : Option ℕ

pub data RepublishError (E : Type 0) : Type 0 where
  wrong_chat : String → String → RepublishError E
  publish_failed : E → RepublishError E

pub record RepublishFailure (E : Type 0) : Type 0 where
  pub chat_id : String
  pub error : RepublishError E

pub record RepublishResult (E : Type 0) : Type 0 where
  pub succeeded : List String
  pub failed : List (RepublishFailure E)

-- What the attempts for one chat came to.
pub record Attempts (W E : Type 0) : Type 0 where
  pub world : W
  pub waits : List ℕ
  pub last_error : Option E

abbrev or_default : Option ℕ → ℕ → ℕ
or_default none n = n
or_default (some m) n = m

unfoldable pub max_retries_of : AutoRepublishConfig → ℕ
max_retries_of config = or_default config.max_retries 3

unfoldable pub initial_delay_of : AutoRepublishConfig → ℕ
initial_delay_of config = or_default config.initial_delay_ms 1000

abbrev pub error_of {ℓ} : {E : Type ℓ} → Result E (Unit {0}) → Option E
error_of (ok _) = none
error_of (err e) = some e

module _ {W S E : Type 0} (publish : W → String → Seal S → W × Result E (Unit {0})) where
  -- One attempt, and where it fails, after a wait, the ones that are left.
  unfoldable pub attempt : ℕ → ℕ → W → String → Seal S → Attempts W E
  attempt zero delay w chat_id seal =
      let (w', result) = publish w chat_id seal in
      record { world = w'; waits = []; last_error = error_of result }
  attempt (suc left) delay w chat_id seal =
      let (w', result) = publish w chat_id seal in
      let more = attempt left (delay * 2) w' chat_id seal in
      elim (error_of result) [
        | none ↦ record { world = w'; waits = []; last_error = none }
        | some e ↦ record {
          world = more.world;
          waits = delay ∷ more.waits;
          last_error = more.last_error;
        }
      ]

  unfoldable pub add_outcome : RepublishResult E → String → Option E → RepublishResult E
  add_outcome r chat_id none = record r { succeeded = r.succeeded ++ chat_id ∷ [] }
  add_outcome r chat_id (some e) = record r {
    failed = r.failed ++ record { chat_id = chat_id; error = publish_failed e } ∷ [];
  }

  -- the loop over the chats
  unfoldable pub republish_each :
      AutoRepublishConfig → W → Seal S → RepublishResult E → List String → W × RepublishResult E
  unfolding max_retries_of initial_delay_of attempt add_outcome
  republish_each config w seal r [] = (w, r)
  republish_each config w seal r (chat_id ∷ rest) =
      if not (seal.chat_id == chat_id)
      then republish_each config w seal
          (record r {
            failed =
                r.failed
                ++ record { chat_id = chat_id; error = wrong_chat seal.chat_id chat_id } ∷ [];
          })
          rest
      else (let a = attempt (max_retries_of config) (initial_delay_of config) w chat_id seal in
          republish_each config a.world seal (add_outcome r chat_id a.last_error) rest)

  unfoldable pub republish_to_chats :
      List String → W → Seal S → AutoRepublishConfig → W × RepublishResult E
  unfolding republish_each
  republish_to_chats chat_ids w seal config =
      republish_each config w seal (record { succeeded = []; failed = [] }) chat_ids
