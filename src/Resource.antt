-- ===== src/Resource.antt =====
-- packages/schemas/src/resource-id.ts: ids of resources, a prefix for the type and sixteen digits. A
-- text is the list of its characters' codes, and the digits of a new id, which `randomBytes` gives,
-- are a parameter.
pub mod Laws
pub mod Resolve
use xmtp_broker.Base.{
  ℕ, Bool, true, false, not, ◌&&◌, ◌||◌, List, [], ◌∷◌, ◌++◌, Option, none, some, leb, filter,
  length, Result, ok, err, if◌then◌else◌,
}

abbrev pub Text : Type 0
Text = List ℕ

pub data ResourceType : Type 0 where
  operator inbox conversation policy credential seal key message network : ResourceType

abbrev pub resource_prefix : ResourceType → Text
resource_prefix operator = b'o' ∷ b'p' ∷ b'_' ∷ []
resource_prefix inbox = b'i' ∷ b'n' ∷ b'b' ∷ b'o' ∷ b'x' ∷ b'_' ∷ []
resource_prefix conversation = b'c' ∷ b'o' ∷ b'n' ∷ b'v' ∷ b'_' ∷ []
resource_prefix policy = b'p' ∷ b'o' ∷ b'l' ∷ b'i' ∷ b'c' ∷ b'y' ∷ b'_' ∷ []
resource_prefix credential = b'c' ∷ b'r' ∷ b'e' ∷ b'd' ∷ b'_' ∷ []
resource_prefix seal = b's' ∷ b'e' ∷ b'a' ∷ b'l' ∷ b'_' ∷ []
resource_prefix key = b'k' ∷ b'e' ∷ b'y' ∷ b'_' ∷ []
resource_prefix message = b'm' ∷ b's' ∷ b'g' ∷ b'_' ∷ []
resource_prefix network = b'x' ∷ b'm' ∷ b't' ∷ b'p' ∷ b'_' ∷ []

abbrev pub all_types : List ResourceType
all_types =
    operator ∷ inbox ∷ conversation ∷ policy ∷ credential ∷ seal ∷ key ∷ message ∷ network ∷ []

abbrev pub same_code : ℕ → ℕ → Bool
same_code m n = leb m n && leb n m

-- What is left of a text that starts with the prefix.
abbrev pub strip : Text → Text → Option Text
strip [] t = some t
strip (p ∷ ps) [] = none
strip (p ∷ ps) (c ∷ cs) = let rest = strip ps cs in if same_code p c then rest else none

abbrev pub is_hex : ℕ → Bool
is_hex c = (leb b'0' c && leb c b'9') || (leb b'a' c && leb c b'f')

abbrev pub all_hex : Text → Bool
all_hex [] = true
all_hex (c ∷ cs) = is_hex c && all_hex cs

abbrev pub resource_id_hex_length : ℕ
resource_id_hex_length = 16

-- `SHORT_ID_HEX`
abbrev pub is_short_id : Text → Bool
is_short_id t = all_hex t && same_code (length t) resource_id_hex_length

-- The loop over the prefixes, up to the first that the text starts with.
abbrev pub first_prefix : List ResourceType → Text → Option (ResourceType × Text)
first_prefix [] t = none
first_prefix (r ∷ rs) t =
    let later = first_prefix rs t in
    elim (strip (resource_prefix r) t) [ none ↦ later | some rest ↦ some (r, rest) ]

abbrev pub create_resource_id : ResourceType → Text → Text
create_resource_id r hex = resource_prefix r ++ hex

pub record ParsedResourceId : Type 0 where
  pub resource_type : ResourceType
  pub prefix : Text
  pub short_id : Text
  pub full_id : Text

pub data ResourceError : Type 0 where
  bad_suffix : Text → Text → ResourceError
  unknown_prefix : Text → ResourceError
  no_short_id : ResourceError
  ambiguous : List Text → ResourceError
  not_found : Text → ResourceError

unfoldable pub parse_resource_id : Text → Result ResourceError ParsedResourceId
parse_resource_id id = elim (first_prefix all_types id) [
  | none ↦ err (unknown_prefix id)
  | some (r, short_id) ↦
      if not (is_short_id short_id)
      then err (bad_suffix (resource_prefix r) short_id)
      else ok (record {
        resource_type = r;
        prefix = resource_prefix r;
        short_id = short_id;
        full_id = id;
      })
]

abbrev pub accepts : ResourceType → Text → Bool
accepts r id = elim (strip (resource_prefix r) id) [ none ↦ false | some rest ↦ is_short_id rest ]

abbrev pub any_accepts : List ResourceType → Text → Bool
any_accepts [] id = false
any_accepts (r ∷ rs) id = accepts r id || any_accepts rs id

-- `AnyResourceId.safeParse`
abbrev pub is_any_resource_id : Text → Bool
is_any_resource_id id = any_accepts all_types id

abbrev pub same_text : Text → Text → Bool
same_text [] [] = true
same_text [] (d ∷ ds) = false
same_text (c ∷ cs) [] = false
same_text (c ∷ cs) (d ∷ ds) = same_code c d && same_text cs ds

abbrev pub has_text : List Text → Text → Bool
has_text [] t = false
has_text (x ∷ xs) t = same_text x t || has_text xs t

abbrev pub extract_hex : Text → Option Text
extract_hex id = elim (first_prefix all_types id) [
  | none ↦ none
  | some (r, hex) ↦ if is_short_id hex then some hex else none
]

abbrev pub starts : Text → Text → Bool
starts prefix t = elim (strip prefix t) [ none ↦ false | some rest ↦ true ]

abbrev pub has_type : Option ResourceType → Text → Bool
has_type none t = true
has_type (some r) t = starts (resource_prefix r) t

-- the test of a candidate in the loop
abbrev pub is_match : Option ResourceType → Text → Text → Bool
is_match wanted hex_prefix candidate =
    has_type wanted candidate
    && (elim (extract_hex candidate) [ none ↦ false | some hex ↦ starts hex_prefix hex ])

-- the type that a short id names, if it does, and its digits
abbrev pub split_short : Text → Option ResourceType × Text
split_short short_id = elim (first_prefix all_types short_id) [
  | none ↦ (none, short_id)
  | some (r, rest) ↦ (some r, rest)
]

abbrev pub only_match : Text → List Text → Result ResourceError Text
only_match short_id [] = err (not_found short_id)
only_match short_id (m ∷ []) = ok m
only_match short_id (m ∷ n ∷ rest) = err (ambiguous (m ∷ n ∷ rest))

abbrev pub is_digits : Text → Bool
is_digits [] = false
is_digits (c ∷ cs) = all_hex (c ∷ cs)

unfoldable pub resolve_short_id : Text → List Text → Result ResourceError Text
resolve_short_id short_id candidates =
    if is_any_resource_id short_id
    then (if has_text candidates short_id then ok short_id else err (not_found short_id))
    else (let (wanted, hex_prefix) = split_short short_id in
        if not (is_digits hex_prefix)
        then err no_short_id
        else only_match short_id (filter (is_match wanted hex_prefix) candidates))
