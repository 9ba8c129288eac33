-- ===== src/Resource/Resolve/Complete.antt =====
-- When a short id resolves.
use xmtp_broker.Base.{
  Bool, true, ◌||◌, List, [], ◌∷◌, ◌++◌, none, some, ◌≡◌, ◌≢◌, refl, sym, ap, subst, ◌∙◌, ok, arith,
  inl, inr, Bool-cases, filter, filter-append,
}
use xmtp_broker.Resource.{
  Text, all_types, all_hex, has_text, is_any_resource_id, is_match, split_short, only_match,
  is_digits, resolve_short_id,
}
use xmtp_broker.Resource.Laws.{first_prefix-own}
use xmtp_broker.Resource.Resolve.{
  Names, and_true, all_hex-append, first_prefix-none, Names-is_match, is_match-Names,
  any_accepts_sound, whole-Names, same_text_refl,
}

has_text-append :
    (xs ys : List Text) (t : Text) → has_text (xs ++ ys) t ≡ (has_text xs t || has_text ys t)
has_text-append [] ys t = refl
has_text-append (x ∷ xs) ys t = ground (arith, has_text-append xs ys t)

filter-none :
    (p : Text → Bool) (xs : List Text)
    → ((c : Text) → has_text xs c ≡ true → p c ≡ true → ⊥)
    → filter p xs ≡ []
filter-none p [] never = refl
filter-none p (x ∷ xs) never = elim (Bool-cases (p x)) [
  | inl passes ↦
      let here : has_text (x ∷ xs) x ≡ true = rw (same_text_refl x, has_text) in
      absurd (never x here passes)
  | inr fails ↦
      let dropped : filter p (x ∷ xs) ≡ filter p xs = rw fails in
      dropped ∙ filter-none p xs (λ c found passes. never c (ground arith) passes)
]

is_digits-hex : (t : Text) → t ≢ [] → all_hex t ≡ true → is_digits t ≡ true
is_digits-hex [] some_digit hex = absurd (some_digit refl)
is_digits-hex (c ∷ cs) some_digit hex = hex

Names-digits :
    (short_id id : Text) (names : Names short_id id) → (split_short short_id).1 ≡ names.given
Names-digits short_id id names =
    let (digits, rest) =
      and_true (all_hex names.given) (all_hex names.more)
        (sym (all_hex-append names.given names.more) ∙ names.hex) in
    elim names.spelled [
      | inl bare ↦
          let split : split_short short_id ≡ (none, names.given) =
            ap split_short bare ∙ rw (first_prefix-none names.given digits, split_short) in
          ap (λ s. s.1) split
      | inr prefixed ↦
          let split : split_short short_id ≡ (some names.resource_type, names.given) =
            ap split_short prefixed
            ∙ rw (first_prefix-own names.resource_type names.given, split_short) in
          ap (λ s. s.1) split
    ]

-- A short id with at least one digit that names one candidate, standing once in the list, and none of
-- the others is resolved to it.
pub resolve_short_id_complete :
    (short_id id : Text) (before after : List Text) (names : Names short_id id)
    → names.given ≢ []
    → ((c : Text) → has_text (before ++ after) c ≡ true → Names short_id c → ⊥)
    → resolve_short_id short_id (before ++ id ∷ after) ≡ ok id
unfolding resolve_short_id
resolve_short_id_complete short_id id before after names some_digit others =
    let candidates = before ++ id ∷ after in
    let present : has_text candidates id ≡ true =
      has_text-append before (id ∷ after) id ∙ ground (arith, same_text_refl id) in
    elim (Bool-cases (is_any_resource_id short_id)) [
      | inl whole ↦
          let (r, hex, built, good) = any_accepts_sound all_types short_id whole in
          let same : id ≡ short_id =
            whole-Names r hex id good (subst (λ s. Names s id) built names) ∙ sym built in
          let found : has_text candidates short_id ≡ true =
            ap (has_text candidates) (sym same) ∙ present in
          let given : resolve_short_id short_id candidates ≡ ok short_id =
            rw (whole, found, resolve_short_id) in
          given ∙ ap ok (sym same)
      | inr part ↦
          let p = is_match (split_short short_id).0 (split_short short_id).1 in
          let (hex, rest) =
            and_true (all_hex names.given) (all_hex names.more)
              (sym (all_hex-append names.given names.more) ∙ names.hex) in
          let digits : is_digits (split_short short_id).1 ≡ true =
            ap is_digits (Names-digits short_id id names)
            ∙ is_digits-hex names.given some_digit hex in
          let tried : resolve_short_id short_id candidates
              ≡ only_match short_id (filter p candidates) =
            rw (part, digits, resolve_short_id) in
          let empty_before : filter p before ≡ [] = filter-none p before (λ c found passes.
            others c (has_text-append before after c ∙ ground arith)
              (is_match-Names short_id c passes)) in
          let empty_after : filter p after ≡ [] = filter-none p after (λ c found passes.
            others c (has_text-append before after c ∙ ground arith)
              (is_match-Names short_id c passes)) in
          let one : filter p candidates ≡ id ∷ [] =
            filter-append p before (id ∷ after)
            ∙ rw (empty_before, Names-is_match short_id id names, empty_after) in
          tried ∙ ap (only_match short_id) one
    ]
