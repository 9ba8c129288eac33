-- ===== src/Admin/Rollback.antt =====
-- packages/cli/src/admin/read-disclosure-rollback-tracker.ts: how many refreshes of seals that are
-- rolled back overlap, by chat.
use xmtp_broker.Base.{
  ℕ, ◌+◌, ◌-◌, String, Bool, List, [], ◌∷◌, none, some, ltb, get, put, delete, if◌then◌else◌,
}
use xmtp_broker.Admin.Disclosure.{collect_unique_chat_ids}

abbrev pub Counts : Type 0
Counts = List (String × ℕ)

abbrev count_of : Counts → String → ℕ
count_of counts chat_id = elim (get counts chat_id) [ none ↦ 0 | some n ↦ n ]

unfoldable pub enter_each : Counts → List String → Counts
enter_each counts [] = counts
enter_each counts (chat_id ∷ rest) =
    enter_each (put counts chat_id (count_of counts chat_id + 1)) rest

unfoldable pub enter : Counts → List String → Counts
unfolding enter_each
enter counts chat_ids = enter_each counts (collect_unique_chat_ids chat_ids)

-- A count that would not stay above zero is removed.
unfoldable pub leave_each : Counts → List String → Counts
leave_each counts [] = counts
leave_each counts (chat_id ∷ rest) =
    leave_each
      (if ltb 0 (count_of counts chat_id - 1)
        then put counts chat_id (count_of counts chat_id - 1)
        else delete counts chat_id)
      rest

unfoldable pub leave : Counts → List String → Counts
unfolding leave_each
leave counts chat_ids = leave_each counts (collect_unique_chat_ids chat_ids)

unfoldable pub has : Counts → String → Bool
has counts chat_id = ltb 0 (count_of counts chat_id)
