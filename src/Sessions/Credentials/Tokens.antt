-- ===== src/Sessions/Credentials/Tokens.antt =====
-- When a bearer token is accepted.
use xmtp_broker.Base.{
  ℕ, ◌<◌, ◌≡◌, ◌≢◌, ◌↔◌, refl, ap, String, true, eq_iff, some, get, ok, arith, Option-cases, inl,
  inr,
}
use xmtp_broker.Sessions.Credentials.Store.{
  Manager, CredentialRecord, CredentialStatus, pending, active, expired, revoked, is_active,
}
use xmtp_broker.Sessions.Credentials.Ops.{get_credential_by_token}

-- The token stands for a stored credential that is active and whose time has not run out.
pub record IsLive (m : Manager) (now : ℕ) (token : String) (r : CredentialRecord) : Type 0 where
  pub id : String
  pub named : id ≢ ""
  pub indexed : get m.by_token token ≡ some id
  pub stored : get m.by_id id ≡ some r
  pub current : r.status ≡ active
  pub in_time : now < r.expires_at

is_active-eq : (s : CredentialStatus) → is_active s ≡ true → s ≡ active
is_active-eq active h = refl
is_active-eq pending h = cc
is_active-eq expired h = cc
is_active-eq revoked h = cc

module _ (m : Manager) (now : ℕ) (token : String) where
  indexed_sound :
      (id : String) (r s : CredentialRecord)
      → get m.by_token token ≡ some id
      → get m.by_id id ≡ some s
      → (get_credential_by_token m now token).1 ≡ ok r
      → IsLive m now token r
  unfolding get_credential_by_token
  indexed_sound id r s e f h =
      let same : s ≡ r = ground arith in
      record {
        id = id;
        named = ground (arith, eq_iff id "");
        indexed = e;
        stored = ground arith;
        current = is_active-eq r.status (ground arith);
        in_time = ground arith;
      }

  sound :
      (r : CredentialRecord) → (get_credential_by_token m now token).1 ≡ ok r → IsLive m now token r
  unfolding get_credential_by_token
  sound r h = elim (Option-cases (get m.by_token token)) [
    | inl e ↦ cc (rw (e, get_credential_by_token) at h)
    | inr (id, e) ↦ elim (Option-cases (get m.by_id id)) [
      | inl f ↦ absurd (ground arith)
      | inr (s, f) ↦ indexed_sound id r s e f h
    ]
  ]

  complete :
      (r : CredentialRecord)
      → IsLive m now token r
      → get_credential_by_token m now token ≡ (m, ok r)
  unfolding get_credential_by_token
  complete r v = ground (arith, v.indexed, v.stored, v.current, v.in_time, eq_iff v.id "")

  -- A token is accepted exactly if it stands for a stored credential that is active and whose time
  -- has not run out; the lookup then returns that credential and changes nothing.
  pub get_credential_by_token_iff :
      (r : CredentialRecord)
      → ((get_credential_by_token m now token).1 ≡ ok r)
        ↔ (IsLive m now token r × ((get_credential_by_token m now token).0 ≡ m))
  get_credential_by_token_iff r = (
    λ h. let v = sound r h in (v, ap (λ o. o.0) (complete r v)),
    λ (v, same). ap (λ o. o.1) (complete r v),
  )
