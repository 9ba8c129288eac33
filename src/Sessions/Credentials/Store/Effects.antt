-- ===== src/Sessions/Credentials/Store/Effects.antt =====
-- What the shared steps do to the map of records and to the count of active credentials.
use xmtp_broker.Base.{
  ℕ, ◌+◌, ◌≤◌, ◌<◌, ◌≡◌, refl, ap, subst, ◌∙◌, String, Bool, true, false, not, List, [], ◌∷◌, ◌++◌,
  Option, none, some, eq_iff, eq_refl, get, put, get-put, includes, set_add, length, length-append,
  ok, err, arith, Option-cases, Bool-cases, inl, inr,
}
use xmtp_broker.Sessions.Credentials.Store.{
  CredentialStatus, is_active, CredentialRecord, Manager, Updates, is_given, merge, mutate_record,
  active_among, cleanup_reveal_state, after_revoke, revocation, revoke_record, Outcome,
}

abbrev pub Records : Type 0
Records = List (String × CredentialRecord)

abbrev pub active_opt : Option CredentialRecord → Bool
active_opt none = false
active_opt (some r) = is_active r.status

-- The update makes nothing active.
abbrev pub is_safe : Option CredentialStatus → Bool
is_safe none = true
is_safe (some s) = not (is_active s)

-- Each key is the id of its record.
abbrev pub IsKeyed : Records → Type 0
IsKeyed by_id = (id : String) (r : CredentialRecord) → get by_id id ≡ some r → r.credential_id ≡ id

-- One map has the ids of the other, and nothing active that was not active there.
pub record Calmer (before after : Records) : Type 0 where
  pub present : (id : String) → is_given (get after id) ≡ is_given (get before id)
  pub calm : (id : String) → active_opt (get after id) ≡ true → active_opt (get before id) ≡ true
  pub keyed : IsKeyed before → IsKeyed after

pub Calmer-refl : (by_id : Records) → Calmer by_id by_id
Calmer-refl by_id = record { present = λ id. refl; calm = λ id h. h; keyed = λ h. h }

pub Calmer-trans : (a b c : Records) → Calmer a b → Calmer b c → Calmer a c
Calmer-trans a b c p q = record {
  present = λ id. q.present id ∙ p.present id;
  calm = λ id h. p.calm id (q.calm id h);
  keyed = λ h. q.keyed (p.keyed h);
}

pub put-Calmer :
    (by_id : Records) (id : String) (r : CredentialRecord) (u : Updates)
    → get by_id id ≡ some r
    → is_safe u.status ≡ true
    → Calmer by_id (put by_id id (merge r u))
unfolding merge
put-Calmer by_id id r u e safe = record {
  present = λ j. ground (arith, get-put by_id id (merge r u) j, eq_iff id j);
  calm = λ j h. ground (arith, get-put by_id id (merge r u) j, eq_iff id j);
  keyed = λ k j s h. ground (arith, get-put by_id id (merge r u) j, eq_iff id j, k id r e, k j s);
}

pub mutate_record-Calmer :
    (m : Manager) (id : String) (u : Updates)
    → is_safe u.status ≡ true
    → Calmer m.by_id (mutate_record m id u).0.by_id
unfolding mutate_record
mutate_record-Calmer m id u safe = elim (Option-cases (get m.by_id id)) [
  | inl e ↦ rw (e, mutate_record) (Calmer-refl m.by_id)
  | inr (r, e) ↦ rw (e, mutate_record) (put-Calmer m.by_id id r u e safe)
]

-- The map of ids by operator is written only when a credential is stored.
pub mutate_record-by_operator :
    (m : Manager) (id : String) (u : Updates) → (mutate_record m id u).0.by_operator ≡ m.by_operator
unfolding mutate_record
mutate_record-by_operator m id u = ground arith

pub cleanup_reveal_state-keeps :
    (m : Manager) (id : String)
    → ((cleanup_reveal_state m id).by_id ≡ m.by_id)
      × ((cleanup_reveal_state m id).by_operator ≡ m.by_operator)
unfolding cleanup_reveal_state
cleanup_reveal_state-keeps m id = ground arith

after_revoke-keeps :
    (o : Outcome CredentialRecord)
    → ((after_revoke o).0.by_id ≡ o.0.by_id) × ((after_revoke o).0.by_operator ≡ o.0.by_operator)
unfolding after_revoke
after_revoke-keeps (m, ok r) = (refl, refl)
after_revoke-keeps (m, err e) = (refl, refl)

pub revoke_record-by_id :
    (m : Manager) (now : ℕ) (id reason : String)
    → (revoke_record m now id reason).0.by_id
      ≡ (mutate_record (cleanup_reveal_state m id) id (revocation now reason)).0.by_id
unfolding revoke_record
revoke_record-by_id m now id reason =
    (after_revoke-keeps (mutate_record (cleanup_reveal_state m id) id (revocation now reason))).0

pub revoke_record-by_operator :
    (m : Manager) (now : ℕ) (id reason : String)
    → (revoke_record m now id reason).0.by_operator ≡ m.by_operator
unfolding revoke_record
revoke_record-by_operator m now id reason =
    let c = cleanup_reveal_state m id in
    (after_revoke-keeps (mutate_record c id (revocation now reason))).1
    ∙ mutate_record-by_operator c id (revocation now reason)
    ∙ (cleanup_reveal_state-keeps m id).1

pub revoke_record-Calmer :
    (m : Manager) (now : ℕ) (id reason : String)
    → Calmer m.by_id (revoke_record m now id reason).0.by_id
revoke_record-Calmer m now id reason = rw (revoke_record-by_id m now id reason) (
    subst
      (λ before.
        Calmer before
          (mutate_record (cleanup_reveal_state m id) id (revocation now reason)).0.by_id)
      (cleanup_reveal_state-keeps m id).0
      (mutate_record-Calmer (cleanup_reveal_state m id) id (revocation now reason) refl))

-- Where nothing new is active, no operator has more active credentials.
pub active_among-Calmer :
    (before after : Records) (ids : List String)
    → Calmer before after
    → length (active_among after ids) ≤ length (active_among before ids)
unfolding active_among
active_among-Calmer before after [] c = omega arith
active_among-Calmer before after (id ∷ ids) c =
    ground (arith, active_among-Calmer before after ids c, c.calm id)

-- A listed id that was active and is so no longer takes at least one away.
pub active_among-lt :
    (before after : Records) (ids : List String) (id : String)
    → Calmer before after
    → includes ids id ≡ true
    → active_opt (get before id) ≡ true
    → active_opt (get after id) ≡ false
    → length (active_among after ids) < length (active_among before ids)
unfolding active_among
active_among-lt before after [] id c m a b = cc
active_among-lt before after (j ∷ ids) id c m a b = ground (
  arith,
  eq_iff j id,
  c.calm j,
  active_among-Calmer before after ids c,
  active_among-lt before after ids id c,
)

-- What each credential of the list of active ones satisfies.
pub record IsListed (by_id : Records) (ids : List String) (r : CredentialRecord) : Type 0 where
  pub listed : includes ids r.credential_id ≡ true
  pub stored : get by_id r.credential_id ≡ some r
  pub live : is_active r.status ≡ true

abbrev pub All : (CredentialRecord → Type 0) → List CredentialRecord → Type 0
All P [] = Unit
All P (r ∷ rs) = P r × All P rs

All-map :
    (P Q : CredentialRecord → Type 0) (rs : List CredentialRecord)
    → ((r : CredentialRecord) → P r → Q r)
    → All P rs
    → All Q rs
All-map P Q [] f a = tt
All-map P Q (r ∷ rs) f (p, a) = (f r p, All-map P Q rs f a)

IsListed-cons :
    (by_id : Records) (j : String) (ids : List String) (r : CredentialRecord)
    → IsListed by_id ids r
    → IsListed by_id (j ∷ ids) r
IsListed-cons by_id j ids r l = ground (arith, l.listed, l.stored, l.live)

pub active_among-IsListed :
    (by_id : Records) (ids : List String)
    → IsKeyed by_id
    → All (IsListed by_id ids) (active_among by_id ids)
unfolding active_among
active_among-IsListed by_id [] k = tt
active_among-IsListed by_id (j ∷ ids) k =
    let rest =
      All-map (IsListed by_id ids) (IsListed by_id (j ∷ ids)) (active_among by_id ids)
        (IsListed-cons by_id j ids) (active_among-IsListed by_id ids k) in
    elim (Option-cases (get by_id j)) [
      | inl e ↦ rw (e, active_among) rest
      | inr (r, e) ↦ elim (Bool-cases (is_active r.status)) [
        | inl live ↦ rw (e, active_among) (rw live (here r e live, rest))
        | inr dead ↦ rw (e, active_among) (rw dead rest)
      ]
    ]
  where
    here :
        (r : CredentialRecord)
        → get by_id j ≡ some r
        → is_active r.status ≡ true
        → IsListed by_id (j ∷ ids) r
    here r e live =
        let same = k j r e in
        record { listed = rw (same, eq_refl j); stored = ap (get by_id) same ∙ e; live = live }

-- A new record under an id that no list has.
pub active_among-put_unlisted :
    (by_id : Records) (ids : List String) (id : String) (r : CredentialRecord)
    → includes ids id ≡ false
    → active_among (put by_id id r) ids ≡ active_among by_id ids
unfolding active_among
active_among-put_unlisted by_id [] id r h = refl
active_among-put_unlisted by_id (j ∷ ids) id r h =
    ground (
      arith,
      get-put by_id id r j,
      eq_iff id j,
      eq_refl j,
      active_among-put_unlisted by_id ids id r,
    )

active_among-append :
    (by_id : Records) (ids more : List String)
    → active_among by_id (ids ++ more) ≡ active_among by_id ids ++ active_among by_id more
unfolding active_among
active_among-append by_id [] more = refl
active_among-append by_id (j ∷ ids) more = ground (arith, active_among-append by_id ids more)

pub active_among-put_new :
    (by_id : Records) (ids : List String) (id : String) (r : CredentialRecord)
    → includes ids id ≡ false
    → length (active_among (put by_id id r) (set_add ids id)) ≤ length (active_among by_id ids) + 1
unfolding active_among
active_among-put_new by_id ids id r h = rw h (
    ground (
      arith,
      active_among-append (put by_id id r) ids (id ∷ []),
      active_among-put_unlisted by_id ids id r h,
      length-append (active_among by_id ids) (active_among (put by_id id r) (id ∷ [])),
    ))

pub mutate_record-found :
    (m : Manager) (id : String) (u : Updates) (r : CredentialRecord)
    → get m.by_id id ≡ some r
    → ((mutate_record m id u).0.by_id ≡ put m.by_id id (merge r u))
      × ((mutate_record m id u).1 ≡ ok (merge r u))
unfolding mutate_record
mutate_record-found m id u r e = rw (e, mutate_record) (refl, refl)

after_revoke-ok :
    (o : Outcome CredentialRecord) (r : CredentialRecord) → o.1 ≡ ok r → (after_revoke o).1 ≡ ok r
unfolding after_revoke
after_revoke-ok (m, ok s) r h = h
after_revoke-ok (m, err e) r h = cc

-- A revocation of a stored credential writes its record, marked revoked, and returns it.
pub revoke_record-found :
    (m : Manager) (now : ℕ) (id reason : String) (r : CredentialRecord)
    → get m.by_id id ≡ some r
    → ((revoke_record m now id reason).0.by_id ≡ put m.by_id id (merge r (revocation now reason)))
      × ((revoke_record m now id reason).1 ≡ ok (merge r (revocation now reason)))
unfolding revoke_record
revoke_record-found m now id reason r e =
    let c = cleanup_reveal_state m id in
    let same : c.by_id ≡ m.by_id = (cleanup_reveal_state-keeps m id).0 in
    let found = mutate_record-found c id (revocation now reason) r (ap (λ b. get b id) same ∙ e) in
    (
      revoke_record-by_id m now id reason
          ∙ found.0
          ∙ ap (λ b. put b id (merge r (revocation now reason))) same,
      after_revoke-ok (mutate_record c id (revocation now reason)) (merge r (revocation now reason))
          found.1,
    )
