-- ===== src/Seals/History.antt =====
-- packages/seals/src/manager.ts: the list of the current seals, the history of a pair, and when a
-- seal is to be renewed. `history` follows a chain back as long as it finds seals it has not seen; its
-- loop takes a number of rounds as fuel, and answers none when that runs out.
pub mod Laws
use xmtp_broker.Base.{
  ℕ, zero, suc, ◌+◌, ◌*◌, String, Bool, true, false, not, ◌&&◌, ◌||◌, List, [], ◌∷◌, ◌++◌, Option,
  none, some, ◌==◌, ltb, leb, filter, find, includes, get, values, length, if◌then◌else◌,
}
use xmtp_broker.Seals.Manager.{SealPayload, SealEnvelope, SealManager, chain_key}

pub record SealListFilter : Type 0 where
  pub chat_id : Option String
  pub credential_id : Option String

abbrev passes : Option String → String → Bool
passes none x = true
passes (some wanted) x = x == wanted

unfoldable pub matches_filter : SealEnvelope → SealListFilter → Bool
matches_filter e f =
    passes f.chat_id e.current.input.chat_id && passes f.credential_id e.current.input.credential_id

-- `sort(compareNewestFirst)`
insert_newest : SealEnvelope → List SealEnvelope → List SealEnvelope
insert_newest x [] = x ∷ []
insert_newest x (y ∷ ys) =
    if ltb x.current.issued_at y.current.issued_at then y ∷ insert_newest x ys else x ∷ y ∷ ys

unfoldable pub newest_first : List SealEnvelope → List SealEnvelope
unfolding insert_newest
newest_first [] = []
newest_first (x ∷ xs) = insert_newest x (newest_first xs)

unfoldable pub list_seals : SealManager → SealListFilter → List SealEnvelope
unfolding newest_first matches_filter
list_seals m f = newest_first (filter (λ e. matches_filter e f) (values m.current_seals))

abbrev previous_id : SealEnvelope → Option String
previous_id e = elim e.previous [ none ↦ none | some p ↦ some p.seal_id ]

abbrev referenced : List SealEnvelope → List String
referenced [] = []
referenced (e ∷ es) = elim (previous_id e) [ none ↦ referenced es | some id ↦ id ∷ referenced es ]

unfoldable pub find_history_head : List SealEnvelope → Option SealEnvelope
find_history_head es = find (λ e. not (includes (referenced es) e.current.seal_id)) es

abbrev first_of : List SealEnvelope → Option SealEnvelope
first_of [] = none
first_of (e ∷ es) = some e

abbrev step_back : SealManager → SealEnvelope → Option SealEnvelope
step_back m e = elim (previous_id e) [
  | none ↦ none
  | some id ↦ if id == "" then none else get m.seals_by_id id
]

-- the `while`
unfoldable pub follow :
    SealManager → ℕ → Option SealEnvelope → List String → Option (List SealEnvelope)
follow m zero cursor seen = none
follow m (suc fuel) none seen = some []
follow m (suc fuel) (some e) seen =
    let rest = follow m fuel (step_back m e) (seen ++ e.current.seal_id ∷ []) in
    if includes seen e.current.seal_id
    then some []
    else elim rest [ none ↦ none | some es ↦ some (e ∷ es) ]

abbrev or_else : Option SealEnvelope → Option SealEnvelope → Option SealEnvelope
or_else none b = b
or_else (some a) b = some a

-- where the history begins
abbrev start_of : Option SealEnvelope → List SealEnvelope → Option SealEnvelope
start_of active envelopes =
    or_else active (or_else (find_history_head envelopes) (first_of (newest_first envelopes)))

abbrev seals_of : SealManager → String → String → List SealEnvelope
seals_of m credential_id chat_id =
    filter
      (λ e. e.current.input.credential_id == credential_id && e.current.input.chat_id == chat_id)
      (values m.seals_by_id)

-- One round more than there are seals, and one for the end.
unfoldable pub history : SealManager → String → String → Option (List SealEnvelope)
unfolding follow find_history_head newest_first
history m credential_id chat_id = elim (seals_of m credential_id chat_id) [
  | [] ↦ some []
  | e ∷ es ↦
      follow m (length m.seals_by_id + 2)
        (start_of (get m.current_seals (chain_key credential_id chat_id)) (e ∷ es)) []
]

-- The threshold is three quarters of a day.
unfoldable pub needs_renewal : SealPayload → ℕ → Bool
needs_renewal payload now = leb (payload.issued_at + 64800000) now
