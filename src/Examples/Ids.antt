-- ===== src/Examples/Ids.antt =====
-- An operator and a seal, and a short id that is the beginning of one of them.
use xmtp_broker.Base.{true, [], ◌∷◌, ◌++◌, ◌≡◌, ◌≢◌, ◌↔◌, refl, subst, sym, ok, inl, false, arith}
use xmtp_broker.Resource.{
  Text, ParsedResourceId, operator, seal, resource_prefix, create_resource_id, parse_resource_id,
  resolve_short_id, has_text, same_text,
}
use xmtp_broker.Resource.Laws.{IsParsed, parse_resource_id_iff}
use xmtp_broker.Resource.Resolve.{
  Names, IsResolved, resolve_short_id-IsResolved, Names-is_match, same_text_sound,
}
use xmtp_broker.Resource.Resolve.Complete.{resolve_short_id_complete}

abbrev given : Text
given = b'a' ∷ b'1' ∷ []

abbrev more : Text
more =
    b'0' ∷ b'0' ∷ b'0' ∷ b'0' ∷ b'0' ∷ b'0' ∷ b'0' ∷ b'0' ∷ b'0' ∷ b'0' ∷ b'0' ∷ b'0' ∷ b'0' ∷ b'f'
    ∷ []

abbrev one : Text
one = create_resource_id seal (given ++ more)

abbrev two : Text
two = create_resource_id operator (b'b' ∷ b'1' ∷ more)

abbrev parsed : ParsedResourceId
parsed = record {
  resource_type = seal;
  prefix = resource_prefix seal;
  short_id = given ++ more;
  full_id = one;
}

parse_resource_id_iff_example : (parse_resource_id one ≡ ok parsed) ↔ IsParsed one parsed
parse_resource_id_iff_example = parse_resource_id_iff one parsed

resolve_short_id-IsResolved_example : IsResolved given (two ∷ one ∷ []) one
unfolding resolve_short_id
resolve_short_id-IsResolved_example = resolve_short_id-IsResolved given (two ∷ one ∷ []) one refl

abbrev named : Names given one
named = record {
  resource_type = seal;
  given = given;
  more = more;
  built = refl;
  hex = refl;
  sixteen = refl;
  spelled = inl refl;
}

not_two : Names given two → ⊥
not_two names = let passes : false ≡ true = Names-is_match given two names in cc passes

no_other : (c : Text) → has_text (two ∷ []) c ≡ true → Names given c → ⊥
no_other c found names =
    let same : same_text two c ≡ true = ground arith in
    let e = same_text_sound two c same in not_two (subst (Names given) (sym e) names)

some_digit : given ≢ []
some_digit e = cc e

resolve_short_id_complete_example : resolve_short_id given (two ∷ one ∷ []) ≡ ok one
resolve_short_id_complete_example =
    resolve_short_id_complete given one (two ∷ []) [] named some_digit no_other
