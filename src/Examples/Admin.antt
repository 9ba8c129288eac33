-- ===== src/Examples/Admin.antt =====
-- An admin asks to read the messages of a chat, and the owner approves or refuses.
use xmtp_broker.Base.{
  ℕ, leb, String, Bool, true, false, [], ◌∷◌, none, some, ◌==◌, ◌⊎◌, refl, ok, err, if◌then◌else◌,
}
use xmtp_broker.Admin.Elevation.{
  build_cache_key, Elevation, ElevationInput, ElevationDeps, Approval, ElevationState, refused,
  append_audit, sync_disclosure_approval, grant, ask_owner, fail_with, resolve_for_request,
}
use xmtp_broker.Admin.Elevation.Laws.{IsWanted, IsRecorded, IsApproved}
use xmtp_broker.Admin.Elevation.Approvals.{Asked, none_yet, asking, IsStillGood, Requests-elevates}
use xmtp_broker.Admin.Elevation.Failure.{IsNoMore, resolve_for_request-fails}

abbrev is_soon : ℕ → Bool
is_soon n = leb 60005 n

abbrev deps : ElevationDeps
deps = record {
  has_approver = true;
  has_audit_log = true;
  has_disclosure_store = false;
  has_change_handler = false;
  actor_id = "owner";
  ttl_ms = 60000;
  normalize_chat_id = λ id. id;
  takes_entry = λ n entry. true;
  refresh_fails = λ n chats expired. none;
  parse = λ t. if t == "soon" then some 60005 else none;
  iso = λ n. if is_soon n then "soon" else "now";
}

abbrev input : ElevationInput
input = record {
  method = "message.list";
  dangerous = true;
  chat_id = some "conv_1";
  admin_fingerprint = "admin";
  session_key = "session";
}

abbrev approval : Approval
approval = record {
  authorized = ok tt;
  fingerprint = ok "key";
  approval_id = "approval_1";
  approved_at = 5;
}

abbrev refusal : Approval
refusal = record {
  authorized = err "cancelled";
  fingerprint = ok "key";
  approval_id = "approval_1";
  approved_at = 5;
}

abbrev start : ElevationState
start = record { cache = []; expiration_timers = []; disclosures = []; audit_log = []; calls = 0 }

abbrev elevation : Elevation
elevation = record {
  approval_id = "approval_1";
  chat_ids = "conv_1" ∷ [];
  approved_at = "now";
  expires_at = "soon";
  approval_key_fingerprint = "key";
}

abbrev first_asked : Asked
first_asked = record { input = input; answers = approval }

abbrev served : ElevationState
served = (resolve_for_request deps 5 start input approval).0

-- The request is made again while the elevation that it was given is good.
Requests-elevates_example :
    (raw : String) × IsWanted input raw
    × (IsRecorded (resolve_for_request deps 7 served input refusal).0 raw "approval_1"
        × (IsStillGood deps 7 (first_asked ∷ []) (build_cache_key "session" raw) elevation
            ⊎ IsApproved deps input raw refusal elevation))
unfolding resolve_for_request ask_owner grant sync_disclosure_approval append_audit
Requests-elevates_example =
    Requests-elevates deps 7 served (first_asked ∷ []) input refusal elevation refl
      (asking 5 input approval (none_yet start refl)) refl

resolve_for_request-fails_example :
    IsNoMore start.cache (resolve_for_request deps 5 start input refusal).0.cache
unfolding resolve_for_request ask_owner fail_with append_audit
resolve_for_request-fails_example =
    resolve_for_request-fails deps 5 start input refusal (refused "cancelled") refl
