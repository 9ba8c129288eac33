-- ===== src/Resource/Laws.antt =====
-- How parsing a resource id and creating one go together.
use xmtp_broker.Base.{
  ℕ, true, List, [], ◌∷◌, ◌++◌, none, some, ◌≡◌, ◌↔◌, refl, sym, ap, subst, ◌∙◌, ok, err, arith,
  inl, inr, Bool-cases, Option-cases, length,
}
use xmtp_broker.Resource.{
  Text, ParsedResourceId, unknown_prefix, bad_suffix, strip, same_code, all_hex, is_short_id,
  parse_resource_id, create_resource_id, ResourceType, operator, inbox, conversation, policy,
  credential, seal, key, message, network, resource_prefix, all_types, first_prefix,
}

pub first_prefix-own :
    (r : ResourceType) (rest : Text)
    → first_prefix all_types (resource_prefix r ++ rest) ≡ some (r, rest)
first_prefix-own operator rest = refl
first_prefix-own inbox rest = refl
first_prefix-own conversation rest = refl
first_prefix-own policy rest = refl
first_prefix-own credential rest = refl
first_prefix-own seal rest = refl
first_prefix-own key rest = refl
first_prefix-own message rest = refl
first_prefix-own network rest = refl

pub same_code_sound : (m n : ℕ) → same_code m n ≡ true → m ≡ n
same_code_sound m n h = ground arith

pub same_code_refl : (n : ℕ) → same_code n n ≡ true
same_code_refl n = ground arith

pub strip_sound : (p t rest : Text) → strip p t ≡ some rest → t ≡ p ++ rest
strip_sound [] t rest h = cc h
strip_sound (p ∷ ps) [] rest h = cc h
strip_sound (p ∷ ps) (c ∷ cs) rest h = elim (Bool-cases (same_code p c)) [
  | inr other ↦ let nothing : strip (p ∷ ps) (c ∷ cs) ≡ none = rw other in cc (nothing, h)
  | inl same ↦
      let goes_on : strip (p ∷ ps) (c ∷ cs) ≡ strip ps cs = rw same in
      let e = same_code_sound p c same in
      let tail = strip_sound ps cs rest (sym goes_on ∙ h) in cc (e, tail)
]

pub strip-append : (p rest : Text) → strip p (p ++ rest) ≡ some rest
strip-append [] rest = refl
strip-append (p ∷ ps) rest = rw (same_code_refl p) (strip-append ps rest)

pub first_prefix_sound :
    (rs : List ResourceType) (t : Text) (r : ResourceType) (rest : Text)
    → first_prefix rs t ≡ some (r, rest)
    → t ≡ resource_prefix r ++ rest
first_prefix_sound [] t r rest h = cc h
first_prefix_sound (q ∷ qs) t r rest h = elim (Option-cases (strip (resource_prefix q) t)) [
  | inl absent ↦
      let later : first_prefix (q ∷ qs) t ≡ first_prefix qs t = rw (absent, first_prefix) in
      first_prefix_sound qs t r rest (sym later ∙ h)
  | inr (left, starts) ↦
      let found : first_prefix (q ∷ qs) t ≡ some (q, left) = rw (starts, first_prefix) in
      let both : some (q, left) ≡ some (r, rest) = sym found ∙ h in
      let one : q ≡ r = cc both in
      let two : left ≡ rest = cc both in
      strip_sound (resource_prefix q) t left starts ∙ cc (one, two)
]

-- What a parsed id says of the text.
pub record IsParsed (id : Text) (p : ParsedResourceId) : Type 0 where
  pub full_id : p.full_id ≡ id
  pub prefix : p.prefix ≡ resource_prefix p.resource_type
  pub built : id ≡ create_resource_id p.resource_type p.short_id
  pub hex : all_hex p.short_id ≡ true
  pub sixteen : length p.short_id ≡ 16

pub is_short_id-parts : (t : Text) → is_short_id t ≡ true → (all_hex t ≡ true) × (length t ≡ 16)
is_short_id-parts t h = ground arith

pub is_short_id-whole : (t : Text) → all_hex t ≡ true → length t ≡ 16 → is_short_id t ≡ true
is_short_id-whole t hex sixteen = ground arith

parse_resource_id-create :
    (r : ResourceType) (hex : Text)
    → all_hex hex ≡ true
    → length hex ≡ 16
    → parse_resource_id (create_resource_id r hex)
      ≡ ok (record {
        resource_type = r;
        prefix = resource_prefix r;
        short_id = hex;
        full_id = create_resource_id r hex;
      })
unfolding parse_resource_id
parse_resource_id-create r hex digits sixteen =
    rw (first_prefix-own r hex, is_short_id-whole hex digits sixteen, parse_resource_id)

IsParsed-same : (id : Text) (p : ParsedResourceId) → IsParsed id p → parse_resource_id id ≡ ok p
IsParsed-same id p is =
    ap parse_resource_id is.built
    ∙ parse_resource_id-create p.resource_type p.short_id is.hex is.sixteen
    ∙ cc (is.full_id, is.prefix, is.built)

parse_resource_id_sound :
    (id : Text) (p : ParsedResourceId) → parse_resource_id id ≡ ok p → IsParsed id p
unfolding parse_resource_id
parse_resource_id_sound id p gave = elim (Option-cases (first_prefix all_types id)) [
  | inl nothing ↦
      let failed : parse_resource_id id ≡ err (unknown_prefix id) =
        rw (nothing, parse_resource_id) in
      cc (failed, gave)
  | inr ((r, short_id), found) ↦ elim (Bool-cases (is_short_id short_id)) [
    | inr bad ↦
        let failed : parse_resource_id id ≡ err (bad_suffix (resource_prefix r) short_id) =
          rw (found, bad, parse_resource_id) in
        cc (failed, gave)
    | inl good ↦
        let read : ParsedResourceId = record {
          resource_type = r;
          prefix = resource_prefix r;
          short_id = short_id;
          full_id = id;
        } in
        let parsed : parse_resource_id id ≡ ok read = rw (found, good, parse_resource_id) in
        let same : read ≡ p = cc (parsed, gave) in
        let (hex, sixteen) = is_short_id-parts short_id good in
        subst (IsParsed id) same (record {
          full_id = refl;
          prefix = refl;
          built = first_prefix_sound all_types id r short_id found;
          hex = hex;
          sixteen = sixteen;
        })
  ]
]

-- A text parses to `p` exactly if it is the prefix of the type that `p` gives and sixteen lowercase
-- hexadecimal digits, and `p` holds that prefix, those digits and the text.
pub parse_resource_id_iff :
    (id : Text) (p : ParsedResourceId) → (parse_resource_id id ≡ ok p) ↔ IsParsed id p
parse_resource_id_iff id p = (parse_resource_id_sound id p, IsParsed-same id p)
