-- ===== src/Resource/Resolve.antt =====
-- Which candidate a short id resolves to.
pub mod Complete
use mathlib.Core.List.{append-nil}
use xmtp_broker.Base.{
  ℕ, Bool, true, false, not, ◌&&◌, ◌||◌, List, [], ◌∷◌, ◌++◌, Option, none, some, ◌≡◌, ◌⊎◌, refl,
  sym, ap, subst, ◌∙◌, ok, err, arith, inl, inr, Bool-cases, Option-cases, filter, length,
  length-append,
}
use xmtp_broker.Resource.{
  Text, ResourceType, operator, inbox, conversation, policy, credential, seal, key, message,
  network, resource_prefix, all_types, strip, all_hex, is_short_id, first_prefix, same_text,
  has_text, accepts, any_accepts, is_any_resource_id, extract_hex, starts, has_type, is_match,
  split_short, only_match, is_digits, not_found, no_short_id, ambiguous, create_resource_id,
  resolve_short_id,
}
use xmtp_broker.Resource.Laws.{
  first_prefix-own, strip_sound, strip-append, first_prefix_sound, same_code_sound, same_code_refl,
  is_short_id-parts, is_short_id-whole,
}

-- The id is a resource's, and `short_id` is the first of its digits, with its prefix or without.
pub record Names (short_id id : Text) : Type 0 where
  pub resource_type : ResourceType
  pub given : Text
  pub more : Text
  pub built : id ≡ create_resource_id resource_type (given ++ more)
  pub hex : all_hex (given ++ more) ≡ true
  pub sixteen : length (given ++ more) ≡ 16
  pub spelled : (short_id ≡ given) ⊎ (short_id ≡ resource_prefix resource_type ++ given)

pub all_hex-append : (s t : Text) → all_hex (s ++ t) ≡ (all_hex s && all_hex t)
all_hex-append [] t = refl
all_hex-append (c ∷ cs) t = ground (arith, all_hex-append cs t)

prefix-all_hex : (r : ResourceType) → all_hex (resource_prefix r) ≡ false
prefix-all_hex operator = refl
prefix-all_hex inbox = refl
prefix-all_hex conversation = refl
prefix-all_hex policy = refl
prefix-all_hex credential = refl
prefix-all_hex seal = refl
prefix-all_hex key = refl
prefix-all_hex message = refl
prefix-all_hex network = refl

-- A prefix holds a character that is no digit.
own-all_hex : (r : ResourceType) (t : Text) → all_hex (resource_prefix r ++ t) ≡ false
own-all_hex r t =
    let split = all_hex-append (resource_prefix r) t in let bad = prefix-all_hex r in ground arith

pub first_prefix-none : (t : Text) → all_hex t ≡ true → first_prefix all_types t ≡ none
first_prefix-none t hex = elim (Option-cases (first_prefix all_types t)) [
  | inl nothing ↦ nothing
  | inr ((r, rest), found) ↦
      let built = first_prefix_sound all_types t r rest found in
      let bad = own-all_hex r rest in cc (built, bad, hex)
]

pub same_text_sound : (s t : Text) → same_text s t ≡ true → s ≡ t
same_text_sound [] [] h = refl
same_text_sound [] (d ∷ ds) h = cc h
same_text_sound (c ∷ cs) [] h = cc h
same_text_sound (c ∷ cs) (d ∷ ds) h =
    let head : c ≡ d = same_code_sound c d (ground arith) in
    let tail : cs ≡ ds = same_text_sound cs ds (ground arith) in cc (head, tail)

has_text-filter :
    (p : Text → Bool) (xs : List Text) (t : Text)
    → has_text xs t ≡ true
    → p t ≡ true
    → has_text (filter p xs) t ≡ true
has_text-filter p [] t h passes = h
has_text-filter p (x ∷ xs) t h passes = elim (Bool-cases (same_text x t)) [
  | inl same ↦
      let e = same_text_sound x t same in
      let passes_too : p x ≡ true = ap p e ∙ passes in rw (passes_too, same) refl
  | inr differs ↦
      let later : has_text xs t ≡ true = ground arith in
      let rest = has_text-filter p xs t later passes in ground arith
]

filter-has_text :
    (p : Text → Bool) (xs : List Text) (t : Text)
    → has_text (filter p xs) t ≡ true
    → has_text xs t ≡ true
filter-has_text p [] t h = h
filter-has_text p (x ∷ xs) t h = elim (Bool-cases (p x)) [
  | inl passes ↦ ground (arith, filter-has_text p xs t)
  | inr fails ↦
      let rest : has_text (filter p xs) t ≡ true = ground arith in
      let later = filter-has_text p xs t rest in ground arith
]

filter-head : (p : Text → Bool) (xs ys : List Text) (y : Text) → filter p xs ≡ y ∷ ys → p y ≡ true
filter-head p [] ys y h = cc h
filter-head p (x ∷ xs) ys y h = elim (Bool-cases (p x)) [
  | inl passes ↦
      let kept : filter p (x ∷ xs) ≡ x ∷ filter p xs = rw passes in
      let same : x ≡ y = cc (kept, h) in ap p (sym same) ∙ passes
  | inr fails ↦
      let dropped : filter p (x ∷ xs) ≡ filter p xs = rw fails in
      filter-head p xs ys y (sym dropped ∙ h)
]

starts_sound : (p t : Text) → starts p t ≡ true → (rest : Text) × (t ≡ p ++ rest)
starts_sound p t h = elim (Option-cases (strip p t)) [
  | inl absent ↦ let no : starts p t ≡ false = rw (absent, starts) in cc (no, h)
  | inr (rest, found) ↦ (rest, strip_sound p t rest found)
]

starts-append : (p rest : Text) → starts p (p ++ rest) ≡ true
starts-append p rest = rw (strip-append p rest, starts)

extract_hex_sound :
    (id hex : Text)
    → extract_hex id ≡ some hex
    → (r : ResourceType) × (id ≡ resource_prefix r ++ hex) × (is_short_id hex ≡ true)
extract_hex_sound id hex h = elim (Option-cases (first_prefix all_types id)) [
  | inl nothing ↦ let no : extract_hex id ≡ none = rw nothing in cc (no, h)
  | inr ((r, rest), found) ↦ elim (Bool-cases (is_short_id rest)) [
    | inr bad ↦ let no : extract_hex id ≡ none = rw (found, bad) in cc (no, h)
    | inl good ↦
        let yes : extract_hex id ≡ some rest = rw (found, good) in
        let same : rest ≡ hex = cc (yes, h) in
        (
          r,
          first_prefix_sound all_types id r rest found ∙ ap (λ x. resource_prefix r ++ x) same,
          ap is_short_id (sym same) ∙ good,
        )
  ]
]

extract_hex-create :
    (r : ResourceType) (hex : Text)
    → is_short_id hex ≡ true
    → extract_hex (resource_prefix r ++ hex) ≡ some hex
extract_hex-create r hex good = rw (first_prefix-own r hex, good, extract_hex)

split_short-spelled :
    (short_id candidate : Text) (r : ResourceType) (hex : Text)
    → candidate ≡ resource_prefix r ++ hex
    → has_type (split_short short_id).0 candidate ≡ true
    → (short_id ≡ (split_short short_id).1)
      ⊎ (short_id ≡ resource_prefix r ++ (split_short short_id).1)
split_short-spelled short_id candidate r hex built typed =
    elim (Option-cases (first_prefix all_types short_id)) [
      | inl nothing ↦ inl (rw nothing refl)
      | inr ((q, rest), found) ↦
          let spelled = first_prefix_sound all_types short_id q rest found in
          let split : split_short short_id ≡ (some q, rest) = rw found in
          let begins : starts (resource_prefix q) candidate ≡ true =
            ap (λ s. has_type s.0 candidate) (sym split) ∙ typed in
          let (left, again) = starts_sound (resource_prefix q) candidate begins in
          let both : some (q, left) ≡ some (r, hex) =
            sym (first_prefix-own q left)
            ∙ ap (first_prefix all_types) (sym again ∙ built)
            ∙ first_prefix-own r hex in
          let same : q ≡ r = cc both in
          inr (
            spelled
            ∙ ap (λ x. resource_prefix x ++ rest) same
            ∙ ap (λ s. resource_prefix r ++ s.1) (sym split))
    ]

pub and_true : (a b : Bool) → (a && b) ≡ true → (a ≡ true) × (b ≡ true)
and_true a b h = ground arith

-- A candidate that passes the test of the loop is named by the short id.
pub is_match-Names :
    (short_id candidate : Text)
    → is_match (split_short short_id).0 (split_short short_id).1 candidate ≡ true
    → Names short_id candidate
is_match-Names short_id candidate h =
    let wanted = (split_short short_id).0 in
    let given = (split_short short_id).1 in
    elim (Option-cases (extract_hex candidate)) [
      | inl nothing ↦
          let no : is_match wanted given candidate ≡ (has_type wanted candidate && false) =
            rw (nothing, is_match) in
          let (typed, never) = and_true (has_type wanted candidate) false (sym no ∙ h) in cc never
      | inr (hex, found) ↦
          let parts : is_match wanted given candidate
              ≡ (has_type wanted candidate && starts given hex) =
            rw (found, is_match) in
          let (typed, begins) =
            and_true (has_type wanted candidate) (starts given hex) (sym parts ∙ h) in
          let (more, whole) = starts_sound given hex begins in
          let (r, built, good) = extract_hex_sound candidate hex found in
          let (digits, sixteen) = is_short_id-parts hex good in
          record {
            resource_type = r;
            given = given;
            more = more;
            built = built ∙ ap (λ x. resource_prefix r ++ x) whole;
            hex = ap all_hex (sym whole) ∙ digits;
            sixteen = ap length (sym whole) ∙ sixteen;
            spelled = split_short-spelled short_id candidate r hex built typed;
          }
    ]

-- A candidate that the short id names passes the test, unless the short id is whole.
pub Names-is_match :
    (short_id candidate : Text)
    → Names short_id candidate
    → is_match (split_short short_id).0 (split_short short_id).1 candidate ≡ true
Names-is_match short_id candidate names =
    let whole = names.given ++ names.more in
    let good = is_short_id-whole whole names.hex names.sixteen in
    let hex : extract_hex candidate ≡ some whole =
      ap extract_hex names.built ∙ extract_hex-create names.resource_type whole good in
    let begins = starts-append names.given names.more in
    elim names.spelled [
      | inl bare ↦
          let (digits, rest) =
            and_true (all_hex names.given) (all_hex names.more)
              (sym (all_hex-append names.given names.more) ∙ names.hex) in
          let split : split_short short_id ≡ (none, names.given) =
            ap split_short bare ∙ rw (first_prefix-none names.given digits, split_short) in
          ap (λ s. is_match s.0 s.1 candidate) split ∙ rw (hex, is_match) begins
      | inr prefixed ↦
          let split : split_short short_id ≡ (some names.resource_type, names.given) =
            ap split_short prefixed
            ∙ rw (first_prefix-own names.resource_type names.given, split_short) in
          let typed : starts (resource_prefix names.resource_type) candidate ≡ true =
            ap (starts (resource_prefix names.resource_type)) names.built
            ∙ starts-append (resource_prefix names.resource_type) whole in
          ap (λ s. is_match s.0 s.1 candidate) split ∙ rw (hex, is_match, has_type, typed) begins
    ]

pub any_accepts_sound :
    (rs : List ResourceType) (id : Text)
    → any_accepts rs id ≡ true
    → (r : ResourceType) × (hex : Text) × (id ≡ resource_prefix r ++ hex) × (is_short_id hex ≡ true)
any_accepts_sound [] id h = cc h
any_accepts_sound (r ∷ rs) id h = elim (Bool-cases (accepts r id)) [
  | inr refuses ↦
      let later : any_accepts (r ∷ rs) id ≡ any_accepts rs id = rw (refuses, any_accepts) in
      any_accepts_sound rs id (sym later ∙ h)
  | inl takes ↦ elim (Option-cases (strip (resource_prefix r) id)) [
    | inl absent ↦ let no : accepts r id ≡ false = rw (absent, accepts) in cc (no, takes)
    | inr (hex, found) ↦
        let same : accepts r id ≡ is_short_id hex = rw (found, accepts) in
        (r, hex, strip_sound (resource_prefix r) id hex found, sym same ∙ takes)
  ]
]

no_more : (s t : Text) → length (s ++ t) ≡ 16 → length s ≡ 16 → t ≡ []
no_more s [] h e = refl
no_more s (c ∷ cs) h e = let sum = length-append s (c ∷ cs) in absurd (ground arith)

-- A whole id names itself alone.
pub whole-Names :
    (r : ResourceType) (hex candidate : Text)
    → is_short_id hex ≡ true
    → Names (resource_prefix r ++ hex) candidate
    → candidate ≡ resource_prefix r ++ hex
whole-Names r hex candidate good names = elim names.spelled [
  | inl bare ↦
      let (digits, rest) =
        and_true (all_hex names.given) (all_hex names.more)
          (sym (all_hex-append names.given names.more) ∙ names.hex) in
      let bad : all_hex names.given ≡ false = ap all_hex (sym bare) ∙ own-all_hex r hex in
      cc (digits, bad)
  | inr prefixed ↦
      let both : some (r, hex) ≡ some (names.resource_type, names.given) =
        sym (first_prefix-own r hex)
        ∙ ap (first_prefix all_types) prefixed
        ∙ first_prefix-own names.resource_type names.given in
      let same : hex ≡ names.given = cc both in
      let (digits, sixteen) = is_short_id-parts hex good in
      let rest = no_more names.given names.more names.sixteen (ap length (sym same) ∙ sixteen) in
      names.built
      ∙ ap (λ x. resource_prefix names.resource_type ++ (names.given ++ x)) rest
      ∙ ap (λ x. resource_prefix names.resource_type ++ x) (append-nil names.given)
      ∙ sym prefixed
]

-- What the short id was resolved to.
pub record IsResolved (short_id : Text) (candidates : List Text) (id : Text) : Type 0 where
  pub candidate : has_text candidates id ≡ true
  pub named : Names short_id id
  pub alone : (c : Text) → has_text candidates c ≡ true → Names short_id c → c ≡ id

only_match-ok :
    (short_id id : Text) (ms : List Text) → only_match short_id ms ≡ ok id → ms ≡ id ∷ []
only_match-ok short_id id [] h = cc h
only_match-ok short_id id (m ∷ []) h = cc h
only_match-ok short_id id (m ∷ n ∷ rest) h = cc h

pub same_text_refl : (t : Text) → same_text t t ≡ true
same_text_refl [] = refl
same_text_refl (c ∷ cs) = rw (same_code_refl c) (same_text_refl cs)

found-IsResolved :
    (short_id id : Text) (candidates : List Text)
    → filter (is_match (split_short short_id).0 (split_short short_id).1) candidates ≡ id ∷ []
    → IsResolved short_id candidates id
found-IsResolved short_id id candidates one =
    let p = is_match (split_short short_id).0 (split_short short_id).1 in
    let here : has_text (id ∷ []) id ≡ true = rw (same_text_refl id, has_text) in
    record {
      candidate = filter-has_text p candidates id (ap (λ ms. has_text ms id) one ∙ here);
      named = is_match-Names short_id id (filter-head p candidates [] id one);
      alone = λ c found names.
          let kept = has_text-filter p candidates c found (Names-is_match short_id c names) in
          let last : has_text (id ∷ []) c ≡ true = ap (λ ms. has_text ms c) (sym one) ∙ kept in
          sym (same_text_sound id c (ground arith));
    }

whole-IsResolved :
    (short_id : Text) (candidates : List Text)
    → is_any_resource_id short_id ≡ true
    → has_text candidates short_id ≡ true
    → IsResolved short_id candidates short_id
whole-IsResolved short_id candidates whole present =
    let (r, hex, built, good) = any_accepts_sound all_types short_id whole in
    let (digits, sixteen) = is_short_id-parts hex good in
    let unit = append-nil hex in
    record {
      candidate = present;
      named = record {
        resource_type = r;
        given = hex;
        more = [];
        built = built ∙ ap (λ x. resource_prefix r ++ x) (sym unit);
        hex = ap all_hex unit ∙ digits;
        sixteen = ap length unit ∙ sixteen;
        spelled = inr built;
      };
      alone = λ c found names.
          whole-Names r hex c good (subst (λ s. Names s c) built names) ∙ sym built;
    }

-- A short id that is resolved names the candidate it is resolved to, with its prefix or without, and
-- names no other candidate.
pub resolve_short_id-IsResolved :
    (short_id : Text) (candidates : List Text) (id : Text)
    → resolve_short_id short_id candidates ≡ ok id
    → IsResolved short_id candidates id
unfolding resolve_short_id
resolve_short_id-IsResolved short_id candidates id gave =
    elim (Bool-cases (is_any_resource_id short_id)) [
      | inl whole ↦ elim (Bool-cases (has_text candidates short_id)) [
        | inr absent ↦
            let failed : resolve_short_id short_id candidates ≡ err (not_found short_id) =
              rw (whole, absent, resolve_short_id) in
            cc (failed, gave)
        | inl present ↦
            let given : resolve_short_id short_id candidates ≡ ok short_id =
              rw (whole, present, resolve_short_id) in
            let same : short_id ≡ id = cc (given, gave) in
            subst (IsResolved short_id candidates) same
              (whole-IsResolved short_id candidates whole present)
      ]
      | inr part ↦ elim (Bool-cases (is_digits (split_short short_id).1)) [
        | inr other ↦
            let failed : resolve_short_id short_id candidates ≡ err no_short_id =
              rw (part, other, resolve_short_id) in
            cc (failed, gave)
        | inl digits ↦
            let p = is_match (split_short short_id).0 (split_short short_id).1 in
            let tried : resolve_short_id short_id candidates
                ≡ only_match short_id (filter p candidates) =
              rw (part, digits, resolve_short_id) in
            found-IsResolved short_id id candidates
              (only_match-ok short_id id (filter p candidates) (sym tried ∙ gave))
      ]
    ]
