-- ===== src/Ws/Server/Broadcast/Snapshots.antt =====
-- The credential that connections hold after an invalidation, and its ticket.
use xmtp_broker.Base.{
  ℕ, ◌+◌, String, true, false, Option, none, some, ◌==◌, eq_iff, eq_refl, ◌≡◌, ◌⊎◌, refl, sym, ap,
  ◌∙◌, includes, includes-filter, get, get-put, Result, ok, if◌then◌else◌, arith, inl, inr,
  Bool-cases, Option-cases,
}
use xmtp_broker.Sessions.Service.{PublicCredential}
use xmtp_broker.Ws.Connection.{active}
use xmtp_broker.Ws.Server.{Connection, Server, get_by_credential_id, belongs_to}
use xmtp_broker.Ws.Server.Broadcast.{
  one_more, same_number, invalidate_begin, apply_lookup, refresh_each,
}
use xmtp_broker.Ws.Server.Broadcast.Laws.{view, SameViews}
use xmtp_broker.Ws.Server.Broadcast.Tickets.{ticket, ticket_of}
use xmtp_broker.Ws.Server.Broadcast.Refresh.{
  owner_of, refresh_each-rest, refresh_each-other, refresh_each-owner, refresh_each-Holds,
}

-- Every active connection registered for the credential holds `fresh`.
pub record AllHold {X : Type 0} (credential_id : String) (s : Server X) (fresh : PublicCredential)
    : Type 0 where
  pub holds :
      (id : String) (held : Option PublicCredential)
      → includes s.registry id ≡ true
      → view (get s.sockets id) ≡ some (active, held, some credential_id)
      → held ≡ some fresh

abbrev pub count_of : Option (ℕ × ℕ) → ℕ
count_of none = 0
count_of (some (n, gen)) = n

module _ {X : Type 0} where
  pub AllHold-SameViews :
      {k : String} {s t : Server X} {fresh : PublicCredential}
      → SameViews s t
      → AllHold k s fresh
      → AllHold k t fresh
  AllHold-SameViews same all_hold = record {
    holds = λ id held listed seen.
        all_hold.holds id held (ap (λ r. includes r id) (sym same.registry) ∙ listed)
          (sym (same.views id) ∙ seen);
  }

  view-owner :
      (o : Option (Connection X)) (held : Option PublicCredential) (k : String)
      → view o ≡ some (active, held, some k)
      → owner_of o ≡ some k
  view-owner none held k seen = cc seen
  view-owner (some c) held k seen = cc seen

  owner-belongs_to :
      (o : Option (Connection X)) (k other : String)
      → owner_of o ≡ some k
      → belongs_to other o ≡ (k == other)
  owner-belongs_to none k other e = cc e
  owner-belongs_to (some c) k other e = rw (e, belongs_to)

  pub begin-ticket :
      (s : Server X) (k j : String)
      → ticket_of (invalidate_begin s k) j ≡ (
          if k == j
          then some (count_of (ticket_of s k) + 1, s.invalidation_gen + 1)
          else ticket_of s j)
  unfolding invalidate_begin
  begin-ticket s k j =
      let after =
        get-put s.pending_invalidations k
          (one_more (get s.pending_invalidations k) (s.invalidation_gen + 1)) j in
      elim (Bool-cases (k == j)) [
        | inl here ↦ elim (Option-cases (get s.pending_invalidations k)) [
          | inl free ↦ rw (after, here, free)
          | inr (entry, e) ↦ rw (after, here, e)
        ]
        | inr elsewhere ↦ rw (after, elsewhere)
      ]

  pub begin-SameViews : (s : Server X) (k : String) → SameViews s (invalidate_begin s k)
  unfolding invalidate_begin
  begin-SameViews s k = record { registry = refl; views = λ id. refl }

  -- The lookup is written exactly if it has the number on the ticket.

  pub AllHold-refresh_each :
      (E : Type 0) (s : Server X) (k : String) (fresh : PublicCredential)
      → AllHold k (refresh_each {E = E} s (ok fresh) (get_by_credential_id s k)) fresh
  AllHold-refresh_each E s k fresh = record {
    holds = λ id held listed seen.
        let ids = get_by_credential_id s k in
        let after = refresh_each {E = E} s (ok fresh) ids in
        let owner =
          sym (refresh_each-owner {E = E} (ok fresh) s ids id)
          ∙ view-owner (get after.sockets id) held k seen in
        let mine = owner-belongs_to (get s.sockets id) k k owner ∙ eq_refl k in
        let member : includes s.registry id ≡ true =
          ap (λ r. includes r id) (sym (refresh_each-rest {E = E} (ok fresh) s ids).0) ∙ listed in
        let in_list : includes ids id ≡ true =
          includes-filter (λ i. belongs_to k (get s.sockets i)) s.registry id ∙ rw (member, mine) in
        refresh_each-Holds E s ids id fresh (inl in_list) held (some k) seen;
  }

module _ {X E : Type 0} where
  pub AllHold-refresh_other :
      (s : Server X) (k other : String) (lookup : Result E PublicCredential)
      (fresh : PublicCredential)
      → (other == k) ≡ false
      → AllHold k s fresh
      → AllHold k (refresh_each s lookup (get_by_credential_id s other)) fresh
  AllHold-refresh_other s k other lookup fresh differs all_hold = record {
    holds = λ id held listed seen.
        let ids = get_by_credential_id s other in
        let after = refresh_each s lookup ids in
        let owner =
          sym (refresh_each-owner lookup s ids id)
          ∙ view-owner (get after.sockets id) held k seen in
        let foreign : (k == other) ≡ false = ground (arith, eq_iff k other, eq_iff other k) in
        let not_mine = owner-belongs_to (get s.sockets id) k other owner ∙ foreign in
        let not_in_list : includes ids id ≡ false =
          ground (arith, includes-filter (λ i. belongs_to other (get s.sockets i)) s.registry id) in
        let member : includes s.registry id ≡ true =
          ap (λ r. includes r id) (sym (refresh_each-rest lookup s ids).0) ∙ listed in
        all_hold.holds id held member
          (ap view (sym (refresh_each-other lookup s ids id not_in_list)) ∙ seen);
  }

  pub apply-cases :
      (s : Server X) (k : String) (gen : ℕ) (lookup : Result E PublicCredential)
      → (apply_lookup s k gen lookup ≡ s)
        ⊎ (apply_lookup s k gen lookup ≡ refresh_each s lookup (get_by_credential_id s k))
  unfolding apply_lookup
  apply-cases s k gen lookup = elim (Option-cases (get s.pending_invalidations k)) [
    | inl free ↦ inl (rw (free, apply_lookup))
    | inr (entry, e) ↦ elim (Bool-cases (same_number entry.generation gen)) [
      | inl same ↦ inr (rw (e, same, apply_lookup))
      | inr other ↦ inl (rw (e, other, apply_lookup))
    ]
  ]

  pub apply-by_ticket :
      (s : Server X) (k : String) (gen : ℕ) (lookup : Result E PublicCredential) (n latest : ℕ)
      → ticket_of s k ≡ some (n, latest)
      → apply_lookup s k gen lookup
        ≡ (if same_number latest gen then refresh_each s lookup (get_by_credential_id s k) else s)
  unfolding apply_lookup
  apply-by_ticket s k gen lookup n latest t = elim (Option-cases (get s.pending_invalidations k)) [
    | inl free ↦ let e : ticket_of s k ≡ none = ap ticket free in cc (e, t)
    | inr (entry, e) ↦
        let now : ticket_of s k ≡ some (entry.refcount, entry.generation) = ap ticket e in
        let number : entry.generation ≡ latest = cc (now, t) in rw (e, number, apply_lookup)
  ]

  pub apply-tickets :
      (s : Server X) (k : String) (gen : ℕ) (lookup : Result E PublicCredential) (j : String)
      → ticket_of (apply_lookup s k gen lookup) j ≡ ticket_of s j
  apply-tickets s k gen lookup j = elim (apply-cases s k gen lookup) [
    | inl same ↦ rw same
    | inr written ↦ rw (written, (refresh_each-rest lookup s (get_by_credential_id s k)).1)
  ]
