-- ===== src/Ws/Server/Broadcast/Refresh.antt =====
-- What an invalidation writes to the connections of its credential.
use xmtp_broker.Base.{
  String, true, false, List, [], ◌∷◌, Option, none, some, ◌==◌, eq_iff, ◌≡◌, ◌⊎◌, refl, sym, ap,
  subst, ◌∙◌, includes, get, put, get-put, Result, ok, arith, inl, inr, Bool-cases, Option-cases,
}
use xmtp_broker.Sessions.Service.{PublicCredential}
use xmtp_broker.Ws.Connection.{active}
use xmtp_broker.Ws.Server.{Connection, Server}
use xmtp_broker.Ws.Server.Broadcast.{refresh_connection, refresh_each}
use xmtp_broker.Ws.Server.Broadcast.Laws.{view}

module _ {X : Type 0} where
  -- If the connection is active, it holds the credential `fresh`.
  abbrev pub Holds : PublicCredential → Option (Connection X) → Type 0
  Holds fresh o =
      (record_held : Option PublicCredential) (owner : Option String)
      → view o ≡ some (active, record_held, owner)
      → record_held ≡ some fresh

  abbrev pub owner_of : Option (Connection X) → Option String
  owner_of none = none
  owner_of (some c) = c.credential_id

  module _ {E : Type 0} (lookup : Result E PublicCredential) where
    refresh_connection-owner :
        (c : Connection X) → (refresh_connection c lookup).credential_id ≡ c.credential_id
    unfolding refresh_connection
    refresh_connection-owner c = ground arith

    pub refresh_each-rest :
        (s : Server X) (ids : List String)
        → ((refresh_each s lookup ids).registry ≡ s.registry)
          × ((refresh_each s lookup ids).pending_invalidations ≡ s.pending_invalidations)
          × ((refresh_each s lookup ids).invalidation_gen ≡ s.invalidation_gen)
    unfolding refresh_each
    refresh_each-rest s [] = (refl, refl, refl)
    refresh_each-rest s (i ∷ ids) = elim (Option-cases (get s.sockets i)) [
      | inl gone ↦ rw (gone, refresh_each) (refresh_each-rest s ids)
      | inr (c, e) ↦
          rw (e, refresh_each)
            (refresh_each-rest
              (record s { sockets = put s.sockets i (refresh_connection c lookup) }) ids)
    ]

    -- The socket after one round of the loop, on its own id or on another.
    round :
        (s : Server X) (i id : String) (c : Connection X)
        → get s.sockets i ≡ some c
        → ((i == id) ≡ true
            × (get (put s.sockets i (refresh_connection c lookup)) id
                ≡ some (refresh_connection c lookup))
            × (get s.sockets id ≡ some c))
          ⊎ ((i == id) ≡ false
              × (get (put s.sockets i (refresh_connection c lookup)) id ≡ get s.sockets id))
    round s i id c e = elim (Bool-cases (i == id)) [
      | inl here ↦ inl (
        here,
        rw (get-put s.sockets i (refresh_connection c lookup) id, here),
        ap (get s.sockets) (sym ((eq_iff i id).0 here)) ∙ e,
      )
      | inr elsewhere ↦
          inr (elsewhere, rw (get-put s.sockets i (refresh_connection c lookup) id, elsewhere))
    ]

    pub refresh_each-other :
        (s : Server X) (ids : List String) (id : String)
        → includes ids id ≡ false
        → get (refresh_each s lookup ids).sockets id ≡ get s.sockets id
    unfolding refresh_each
    refresh_each-other s [] id m = refl
    refresh_each-other s (i ∷ ids) id m = elim (Option-cases (get s.sockets i)) [
      | inl gone ↦ rw (gone, refresh_each) (refresh_each-other s ids id (ground arith))
      | inr (c, e) ↦
          let next = record s { sockets = put s.sockets i (refresh_connection c lookup) } in
          let ih = refresh_each-other next ids id (ground arith) in
          rw (e, refresh_each)
            (elim (round s i id c e) [
              | inl (here, at, was) ↦ cc (here, m)
              | inr (elsewhere, at) ↦ ih ∙ at
            ])
    ]

    pub refresh_each-owner :
        (s : Server X) (ids : List String) (id : String)
        → owner_of (get (refresh_each s lookup ids).sockets id) ≡ owner_of (get s.sockets id)
    unfolding refresh_each
    refresh_each-owner s [] id = refl
    refresh_each-owner s (i ∷ ids) id = elim (Option-cases (get s.sockets i)) [
      | inl gone ↦ rw (gone, refresh_each) (refresh_each-owner s ids id)
      | inr (c, e) ↦
          let next = record s { sockets = put s.sockets i (refresh_connection c lookup) } in
          let ih = refresh_each-owner next ids id in
          rw (e, refresh_each)
            (elim (round s i id c e) [
              | inl (here, at, was) ↦
                  ih ∙ ap owner_of at ∙ refresh_connection-owner c ∙ sym (ap owner_of was)
              | inr (elsewhere, at) ↦ ih ∙ ap owner_of at
            ])
    ]

  refresh_connection-Holds :
      (E : Type 0) (c : Connection X) (fresh : PublicCredential)
      → Holds fresh (some (refresh_connection {E = E} c (ok fresh)))
  unfolding refresh_connection
  refresh_connection-Holds E c fresh record_held owner seen = ground arith

  -- A socket that is not there holds nothing.
  skip :
      (s : Server X) (i : String) (ids : List String) (id : String) (fresh : PublicCredential)
      → get s.sockets i ≡ none
      → (includes (i ∷ ids) id ≡ true) ⊎ Holds fresh (get s.sockets id)
      → (includes ids id ≡ true) ⊎ Holds fresh (get s.sockets id)
  skip s i ids id fresh gone (inr holds) = inr holds
  skip s i ids id fresh gone (inl m) = elim (Bool-cases (i == id)) [
    | inl here ↦
        let at : get s.sockets id ≡ none = ap (get s.sockets) (sym ((eq_iff i id).0 here)) ∙ gone in
        inr (λ r k seen. let nothing = ap view at in cc (nothing, seen))
    | inr elsewhere ↦ inl (ground arith)
  ]

  -- A connection in the list, or one that holds the credential at hand, holds it afterwards.
  pub refresh_each-Holds :
      (E : Type 0) (s : Server X) (ids : List String) (id : String) (fresh : PublicCredential)
      → (includes ids id ≡ true) ⊎ Holds fresh (get s.sockets id)
      → Holds fresh (get (refresh_each {E = E} s (ok fresh) ids).sockets id)
  unfolding refresh_each
  refresh_each-Holds E s [] id fresh (inl m) = cc
  refresh_each-Holds E s [] id fresh (inr holds) = holds
  refresh_each-Holds E s (i ∷ ids) id fresh before = elim (Option-cases (get s.sockets i)) [
    | inl gone ↦
        let step : refresh_each {E = E} s (ok fresh) (i ∷ ids)
            ≡ refresh_each {E = E} s (ok fresh) ids =
          rw (gone, refresh_each) in
        subst (λ t. Holds fresh (get t.sockets id)) (sym step)
          (refresh_each-Holds E s ids id fresh (skip s i ids id fresh gone before))
    | inr (c, e) ↦
        let next = record s {
          sockets = put s.sockets i (refresh_connection {E = E} c (ok fresh));
        } in
        let step : refresh_each {E = E} s (ok fresh) (i ∷ ids)
            ≡ refresh_each {E = E} next (ok fresh) ids =
          rw (e, refresh_each) in
        subst (λ t. Holds fresh (get t.sockets id)) (sym step)
          (refresh_each-Holds E next ids id fresh (elim (round {E = E} (ok fresh) s i id c e) [
            | inl (here, at, was) ↦
                inr (subst (Holds fresh) (sym at) (refresh_connection-Holds E c fresh))
            | inr (elsewhere, at) ↦ elim before [
              | inl m ↦ inl (ground arith)
              | inr holds ↦ inr (subst (Holds fresh) (sym at) holds)
            ]
          ]))
  ]
