-- ===== src/Policy/Reveal.antt =====
-- packages/policy/src/reveal-state.ts. The time is an argument of each call that reads the clock;
-- the reading of a date text is a parameter, `none` where the result is not a number.
pub mod Laws
use Prim.Native.Char.{Char, code}
use mathlib.Core.Option
use xmtp_broker.Base.{
  ℕ, ◌+◌, ◌-◌, String, Bool, true, false, ◌&&◌, List, [], ◌∷◌, ◌++◌, Option, none, some, ◌==◌, leb,
  any, filter, length, not, if◌then◌else◌,
}

pub data RevealScope : Type 0 where
  message thread time_window content_type sender : RevealScope

pub record RevealRequest : Type 0 where
  pub reveal_id : String
  pub group_id : String
  pub scope : RevealScope
  pub target_id : String
  pub requested_by : String
  pub expires_at : Option String

pub record RevealAccess : Type 0 where
  pub reveal_id : String
  pub granted_at : String
  pub granted_by : String
  pub expires_at : Option String

pub record RevealEntry : Type 0 where
  pub access : RevealAccess
  pub request : RevealRequest

-- The message that `isRevealed` is asked about.
pub record Query : Type 0 where
  pub message_id : String
  pub group_id : String
  pub thread_id : Option String
  pub sender_inbox_id : String
  pub content_type : String
  pub sent_at : String

abbrev is_pipe : Char → Bool
is_pipe c = leb (code c) b'|' && leb b'|' (code c)

-- `indexOf("|")` with the two slices around it; `none` if there is no such character
unfoldable pub split_pipe : String → Option (String × String)
split_pipe String.[] = none
split_pipe (String.◌∷◌ c s) =
    if is_pipe c
    then some ("", s)
    else Option.map (λ (p : String × String). (String.◌∷◌ c p.0, p.1)) (split_pipe s)

abbrev text_is : String → Option String → Bool
text_is s none = false
text_is s (some t) = s == t

-- `a <= b` on two numbers of which either may be missing: false then.
abbrev pub time_le : Option ℕ → Option ℕ → Bool
time_le none b = false
time_le (some a) none = false
time_le (some a) (some b) = leb a b

module _ (date_ms : String → Option ℕ) where
  pub is_expired : Option String → ℕ → Bool
  is_expired none now = false
  is_expired (some t) now = time_le (date_ms t) (some now)

  in_window : Option (String × String) → String → Bool
  in_window none sent_at = false
  in_window (some (start, end_)) sent_at =
      time_le (date_ms start) (date_ms sent_at) && time_le (date_ms sent_at) (date_ms end_)

  covers : RevealScope → String → Query → Bool
  unfolding in_window split_pipe
  covers message target q = target == q.message_id
  covers thread target q = text_is target q.thread_id
  covers sender target q = target == q.sender_inbox_id
  covers content_type target q = target == q.content_type
  covers time_window target q = in_window (split_pipe target) q.sent_at

  unfoldable pub entry_reveals : ℕ → Query → RevealEntry → Bool
  unfolding is_expired covers
  entry_reveals now q entry =
      if is_expired entry.access.expires_at now
      then false
      else if entry.request.group_id == q.group_id
      then covers entry.request.scope entry.request.target_id q
      else false

  unfoldable pub is_revealed : List RevealEntry → ℕ → Query → Bool
  unfolding entry_reveals
  is_revealed entries now q = any (entry_reveals now q) entries

  -- The loop of `expireStale` runs from the last index to the first and splices out each expired
  -- entry; it returns what is left and how many were removed.
  expire_from : ℕ → List RevealEntry → List RevealEntry × ℕ
  unfolding is_expired
  expire_from now [] = ([], 0)
  expire_from now (entry ∷ rest) =
      let (kept, removed) = expire_from now rest in
      if is_expired entry.access.expires_at now
      then (kept, removed + 1)
      else (entry ∷ kept, removed)

  unfoldable pub expire_stale : List RevealEntry → ℕ → List RevealEntry × ℕ
  unfolding expire_from
  expire_stale entries now = expire_from now entries

-- `record`; the name is a reserved word
pub record_reveal : List RevealEntry → RevealAccess → RevealRequest → List RevealEntry
record_reveal entries access request = entries ++ record { access = access; request = request } ∷ []

pub snapshot : List RevealEntry → List RevealEntry
snapshot [] = []
snapshot (e ∷ rest) = record { access = e.access; request = e.request } ∷ snapshot rest

-- the loop of `restore`, on the array that was emptied first
restore_from : List RevealEntry → List RevealEntry → List RevealEntry
restore_from entries [] = entries
restore_from entries (e ∷ rest) =
    restore_from (entries ++ record { access = e.access; request = e.request } ∷ []) rest

pub restore : List RevealEntry → List RevealEntry → List RevealEntry
unfolding restore_from
restore entries state = restore_from [] state
