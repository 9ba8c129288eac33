-- ===== src/Examples/Operators.antt =====
-- An operator that is created and then asks for more than it may have.
use xmtp_broker.Base.{String, Bool, true, false, List, [], ◌∷◌, none, some, ◌≡◌, refl, get}
use xmtp_broker.Sessions.Operators.{
  admin, superadmin, active, OperatorConfig, OperatorRecord, OperatorChanges, is_superadmin,
  merged_config, create_operator, update_operator,
}
use xmtp_broker.Sessions.Operators.Laws.{
  OperatorCall, create_call, update_call, after_calls, after_calls-no_superadmin,
}

abbrev accept_all : OperatorConfig String → Bool
accept_all c = true

abbrev admin_config : OperatorConfig String
admin_config = record { label = "Alice"; role = admin; details = "per-chat" }

abbrev promote : OperatorChanges String
promote = record { label = none; role = some superadmin; details = λ d. d }

abbrev create_then_promote : List (OperatorCall String)
create_then_promote = create_call 3 "op_1" admin_config ∷ update_call "op_1" promote ∷ []

abbrev alice : OperatorRecord String
alice = record { id = "op_1"; config = admin_config; created_at = 3; status = active }

alice_stored : get (after_calls accept_all [] create_then_promote) "op_1" ≡ some alice
unfolding create_operator update_operator merged_config
alice_stored = refl

after_calls-no_superadmin_example : is_superadmin alice.config.role ≡ false
after_calls-no_superadmin_example =
    after_calls-no_superadmin accept_all create_then_promote "op_1" alice alice_stored
