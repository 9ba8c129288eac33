-- ===== src/Admin/Disclosure.antt =====
-- packages/cli/src/admin/read-disclosure-store.ts: what is disclosed of admin reads, by chat and by
-- admin session. The reading of a date text is the parameter `parse`, `none` for a text that is none.
use xmtp_broker.Base.{
  ℕ, String, Bool, true, false, not, ◌&&◌, ◌||◌, List, [], ◌∷◌, Option, none, some, ◌==◌, ltb,
  filter, non_empty, set_of, get, put, delete, if◌then◌else◌,
}

pub record Disclosure : Type 0 where
  pub operator_id : String
  pub expires_at : String

abbrev pub Sessions : Type 0
Sessions = List (String × Disclosure)

abbrev pub Entries : Type 0
Entries = List (String × Sessions)

abbrev is_nonempty_text : String → Bool
is_nonempty_text t = not (t == "")

abbrev pub collect_unique_chat_ids : List String → List String
collect_unique_chat_ids chat_ids = set_of [] (filter is_nonempty_text chat_ids)

-- whether `stableSerialize` tells them apart
abbrev differs : Option Disclosure → Option Disclosure → Bool
differs none none = false
differs (some a) (some b) =
    not (a.operator_id == b.operator_id) || not (a.expires_at == b.expires_at)
differs _ _ = true

abbrev sessions_of : Entries → String → Sessions
sessions_of entries chat_id = elim (get entries chat_id) [ none ↦ [] | some s ↦ s ]

module _ (parse : String → Option ℕ) where
  abbrev pub is_live : ℕ → Disclosure → Bool
  is_live now d = elim (parse d.expires_at) [ none ↦ false | some t ↦ ltb now t ]

  -- `Date.parse(a) > Date.parse(b)`
  abbrev is_later : Disclosure → Disclosure → Bool
  is_later a b = elim (parse b.expires_at) [
    | none ↦ false
    | some tb ↦ elim (parse a.expires_at) [ none ↦ false | some ta ↦ ltb tb ta ]
  ]

  abbrev latest_of : Option Disclosure → Disclosure → Option Disclosure
  latest_of none d = some d
  latest_of (some latest) d = if is_later d latest then some d else some latest

  -- the loop: the sessions that stay, and the latest of them
  unfoldable pub sweep : ℕ → Bool → Sessions → Option Disclosure → Sessions × Option Disclosure
  sweep now include_expired [] latest = ([], latest)
  sweep now include_expired ((session, d) ∷ rest) latest =
      let dropped = not include_expired && not (is_live now d) in
      let (kept, last) =
        sweep now include_expired rest (if dropped then latest else latest_of latest d) in
      if dropped then (kept, last) else ((session, d) ∷ kept, last)

  unfoldable pub aggregate_for_chat : ℕ → Bool → Entries → String → Entries × Option Disclosure
  aggregate_for_chat now include_expired entries chat_id = elim (get entries chat_id) [
    | none ↦ (entries, none)
    | some sessions ↦
        let (kept, latest) = sweep now include_expired sessions none in
        if non_empty kept
        then (put entries chat_id kept, latest)
        else (delete entries chat_id, none)
  ]

  -- `f` is what the call does to the sessions of a chat.
  unfoldable pub mutate_chat : ℕ → (Sessions → Sessions) → Entries → String → Entries × Bool
  mutate_chat now f entries chat_id =
      let (swept, before) = aggregate_for_chat now false entries chat_id in
      let sessions = f (sessions_of swept chat_id) in
      let written =
        if non_empty sessions then put swept chat_id sessions else delete swept chat_id in
      let (final, after) = aggregate_for_chat now false written chat_id in
      (final, differs before after)

  unfoldable pub mutate_each :
      ℕ → (Sessions → Sessions) → Entries → List String → Entries × List String
  mutate_each now f entries [] = (entries, [])
  mutate_each now f entries (chat_id ∷ rest) =
      let (next, is_changed) = mutate_chat now f entries chat_id in
      let (final, changed) = mutate_each now f next rest in
      (final, if is_changed then chat_id ∷ changed else changed)

  unfoldable pub set_disclosure :
      ℕ → Entries → List String → String → Disclosure → Entries × List String
  set_disclosure now entries chat_ids session_key d =
      mutate_each now (λ s. put s session_key d) entries (collect_unique_chat_ids chat_ids)

  unfoldable pub delete_disclosure : ℕ → Entries → List String → String → Entries × List String
  delete_disclosure now entries chat_ids session_key =
      mutate_each now (λ s. delete s session_key) entries (collect_unique_chat_ids chat_ids)

  unfoldable pub get_disclosure : ℕ → Entries → String → Entries × Option Disclosure
  get_disclosure now entries chat_id = aggregate_for_chat now false entries chat_id

  unfoldable pub peek : ℕ → Entries → String → Entries × Option Disclosure
  peek now entries chat_id = aggregate_for_chat now true entries chat_id

unfoldable pub restore_each : Entries → List String → String → Disclosure → Entries
restore_each entries [] session_key d = entries
restore_each entries (chat_id ∷ rest) session_key d =
    restore_each (put entries chat_id (put (sessions_of entries chat_id) session_key d)) rest
      session_key d

unfoldable pub restore : Entries → List String → String → Disclosure → Entries
restore entries chat_ids session_key d =
    restore_each entries (collect_unique_chat_ids chat_ids) session_key d
