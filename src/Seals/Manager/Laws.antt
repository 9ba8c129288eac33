-- ===== src/Seals/Manager/Laws.antt =====
-- What the manager keeps of a pair whose seal is revoked.
use xmtp_broker.Base.{
  ℕ, String, Bool, true, false, List, [], ◌∷◌, ◌++◌, Option, none, some, ◌==◌, ◌≡◌, sym, ap, ◌∙◌,
  eq_iff, eq_refl, includes, includes-set_add, get, get-put, get-delete, Result, ok, err,
  Result-cases, arith, Option-cases, Bool-cases, inl, inr,
}
use xmtp_broker.Seals.Manager.{
  SealInput, SealPayload, SealEnvelope, SealManager, SealWork, over, working, seal_error, chain_key,
  unchanged, build_seal, seal_begin, track, issue_begin, refresh_begin, seal_finish, revoke_begin,
  revoke_finish, current, head_is,
}
use xmtp_broker.Seals.Manager.Runs.{
  SealRun, started, issuing, refreshing, answered, revoking, revoked, is_worked_on,
  is_worked_on-append,
}

-- The pair of the key is revoked and has no current seal and none in flight.
pub record IsRetired (key : String) (m : SealManager) (works : List SealWork) : Type 0 where
  pub gone : includes m.revoked_pairs key ≡ true
  pub none_current : get m.current_seals key ≡ none
  pub none_worked_on : is_worked_on works key ≡ false

-- A revocation that succeeds retires the pair, unless a seal of it is in flight.
revoke_finish-retires :
    (m : SealManager) (key : String) (signed : Result String String)
    (published : Result String (Unit {0})) (works : List SealWork)
    → (revoke_finish m key signed published).1 ≡ ok tt
    → is_worked_on works key ≡ false
    → IsRetired key (revoke_finish m key signed published).0 works
unfolding revoke_finish
revoke_finish-retires m key (err e) published works done quiet = cc done
revoke_finish-retires m key (ok s) (err e) works done quiet = cc done
revoke_finish-retires m key (ok s) (ok d) works done quiet = record {
  gone = ground (arith, includes-set_add m.revoked_pairs key key, eq_refl key);
  none_current = ground (arith, get-delete m.current_seals key key, eq_refl key);
  none_worked_on = quiet;
}

revoke_finish-IsRetired :
    (key k : String) (m : SealManager) (signed : Result String String)
    (published : Result String (Unit {0})) (works : List SealWork)
    → IsRetired key m works
    → IsRetired key (revoke_finish m k signed published).0 works
unfolding revoke_finish
revoke_finish-IsRetired key k m (err e) published works r = r
revoke_finish-IsRetired key k m (ok s) (err e) works r = r
revoke_finish-IsRetired key k m (ok s) (ok d) works r = record {
  gone = ground (arith, includes-set_add m.revoked_pairs k key, r.gone);
  none_current = ground (arith, get-delete m.current_seals k key, r.none_current);
  none_worked_on = r.none_worked_on;
}

seal_finish-IsRetired :
    (key : String) (m : SealManager) (before : List SealWork) (work : SealWork)
    (after : List SealWork) (signed : Result String String) (published : Result String (Unit {0}))
    → IsRetired key m (before ++ work ∷ after)
    → IsRetired key (seal_finish m work signed published).0 (before ++ after)
unfolding seal_finish track
seal_finish-IsRetired key m before work after signed published r =
    let whole = is_worked_on-append before (work ∷ after) key in
    let rest = is_worked_on-append before after key in
    let none_left : is_worked_on (before ++ after) key ≡ false = ground (arith, r.none_worked_on) in
    let elsewhere : (work.key == key) ≡ false = ground (arith, r.none_worked_on) in
    elim (Result-cases signed) [
      | inl (e, at) ↦
          rw (at, seal_finish)
            (record { gone = r.gone; none_current = r.none_current; none_worked_on = none_left })
      | inr (s, at) ↦ elim (Result-cases published) [
        | inl (e, to) ↦
            rw (at, to, seal_finish)
              (record { gone = r.gone; none_current = r.none_current; none_worked_on = none_left })
        | inr (d, to) ↦
            rw (at, to, seal_finish)
              (record {
                gone = r.gone;
                none_current = get-put m.current_seals work.key _ key ∙ rw elsewhere r.none_current;
                none_worked_on = none_left;
              })
      ]
    ]

IsRetired-more :
    (key : String) (m : SealManager) (works : List SealWork) (work : SealWork)
    → IsRetired key m works
    → includes m.revoked_pairs work.key ≡ false
    → IsRetired key m (works ++ work ∷ [])
IsRetired-more key m works work r open_pair = record {
  gone = r.gone;
  none_current = r.none_current;
  none_worked_on =
      is_worked_on-append works (work ∷ []) key
      ∙ ground (arith, r.none_worked_on, r.gone, open_pair, eq_iff work.key key);
}

module _ (accepts : SealPayload → Bool) where
  seal_begin-key :
      (key : String) (input : SealInput) (previous : Option SealPayload) (seal_id : String)
      (now : ℕ) (work : SealWork)
      → seal_begin accepts key input previous seal_id now ≡ working work
      → work.key ≡ key
  unfolding seal_begin build_seal
  seal_begin-key key input previous seal_id now work begun = ground arith

  -- A seal is begun only for a pair that is not revoked.
  issue_begin-open :
      (m : SealManager) (resolved : Result String SealInput) (chat_id seal_id : String) (now : ℕ)
      (work : SealWork)
      → issue_begin accepts m resolved chat_id seal_id now ≡ working work
      → includes m.revoked_pairs work.key ≡ false
  unfolding issue_begin
  issue_begin-open m (err e) chat_id seal_id now work begun = cc begun
  issue_begin-open m (ok input) chat_id seal_id now work begun =
      let k = chain_key input.credential_id chat_id in
      elim (Bool-cases (includes m.revoked_pairs k)) [
        | inl gone ↦ cc (rw (issue_begin, gone) at begun)
        | inr open_pair ↦ elim (Option-cases (unchanged m k input)) [
          | inr (x, e) ↦ cc (rw (issue_begin, open_pair, e) at begun)
          | inl e ↦
              let same =
                seal_begin-key k input _ seal_id now work
                  (rw (issue_begin, open_pair, e) at begun) in
              ap (includes m.revoked_pairs) same ∙ open_pair
        ]
      ]

  refresh_begin-open :
      (m : SealManager) (seal_id next_id : String) (now : ℕ) (work : SealWork)
      → refresh_begin accepts m seal_id next_id now ≡ working work
      → includes m.revoked_pairs work.key ≡ false
  unfolding refresh_begin
  refresh_begin-open m seal_id next_id now work begun =
      elim (Option-cases (get m.seals_by_id seal_id)) [
        | inl e ↦ cc (rw (e, refresh_begin) at begun)
        | inr (x, e) ↦ elim (Option-cases (get m.inputs_by_seal_id seal_id)) [
          | inl f ↦ cc (rw (e, f, refresh_begin) at begun)
          | inr (input, f) ↦
              let k = chain_key x.current.input.credential_id x.current.input.chat_id in
              elim (Bool-cases (head_is accepts (get m.current_seals k) seal_id)) [
                | inr other ↦ cc (rw (e, f, other, refresh_begin) at begun)
                | inl head ↦ elim (Bool-cases (includes m.revoked_pairs k)) [
                  | inl gone ↦ cc (rw (e, f, head, gone, refresh_begin) at begun)
                  | inr open_pair ↦
                      let same =
                        seal_begin-key k input (some x.current) next_id now work
                          (rw (e, f, head, open_pair, refresh_begin) at begun) in
                      ap (includes m.revoked_pairs) same ∙ open_pair
                ]
              ]
        ]
      ]

  SealRun-IsRetired :
      (key : String) (m : SealManager) (works : List SealWork) (keys : List String)
      (t : SealManager) (ws : List SealWork) (ks : List String)
      → IsRetired key m works
      → SealRun accepts m works keys t ws ks
      → IsRetired key t ws
  SealRun-IsRetired key m works keys t ws ks r started = r
  SealRun-IsRetired key m works keys t ws ks r
        (issuing {ws = w₀} resolved chat_id seal_id now work begun run) =
      IsRetired-more key t w₀ work (SealRun-IsRetired key m works keys t w₀ ks r run)
        (issue_begin-open t resolved chat_id seal_id now work begun)
  SealRun-IsRetired key m works keys t ws ks r
        (refreshing {ws = w₀} seal_id next_id now work begun run) =
      IsRetired-more key t w₀ work (SealRun-IsRetired key m works keys t w₀ ks r run)
        (refresh_begin-open t seal_id next_id now work begun)
  SealRun-IsRetired key m works keys t ws ks r
        (answered {t = t₀} before work after signed published run) =
      seal_finish-IsRetired key t₀ before work after signed published
        (SealRun-IsRetired key m works keys t₀ (before ++ work ∷ after) ks r run)
  SealRun-IsRetired key m works keys t ws ks r (revoking {ks = k₀} seal_id valid k begun run) =
      SealRun-IsRetired key m works keys t ws k₀ r run
  SealRun-IsRetired key m works keys t ws ks r
        (revoked {t = t₀} before k after signed published run) =
      revoke_finish-IsRetired key k t₀ signed published ws
        (SealRun-IsRetired key m works keys t₀ ws (before ++ k ∷ after) r run)

  revoke_begin-key :
      (m : SealManager) (seal_id : String) (valid : Bool) (x : SealEnvelope) (key : String)
      → get m.seals_by_id seal_id ≡ some x
      → revoke_begin m seal_id valid ≡ ok key
      → key ≡ chain_key x.current.input.credential_id x.current.input.chat_id
  unfolding revoke_begin
  revoke_begin-key m seal_id valid x key e begun = ground arith

  -- Once the revocation of a stored seal succeeds, while no seal of its pair is in flight, then after
  -- any further calls, which may overlap, the seal's credential has no current seal in its chat, and
  -- issuing one for a resolved input of that credential in that chat is refused.
  pub revoke_finish-final :
      (m₀ m t : SealManager) (seal_id : String) (valid : Bool) (x : SealEnvelope) (key : String)
      (signed : Result String String) (published : Result String (Unit {0}))
      (works ws : List SealWork) (keys ks : List String) (input : SealInput) (next_id : String)
      (now : ℕ)
      → get m₀.seals_by_id seal_id ≡ some x
      → revoke_begin m₀ seal_id valid ≡ ok key
      → (revoke_finish m key signed published).1 ≡ ok tt
      → is_worked_on works key ≡ false
      → SealRun accepts (revoke_finish m key signed published).0 works keys t ws ks
      → input.credential_id ≡ x.current.input.credential_id
      → (current t x.current.input.credential_id x.current.input.chat_id ≡ none)
        × (issue_begin accepts t (ok input) x.current.input.chat_id next_id now
            ≡ over (err (seal_error "")))
  unfolding current issue_begin
  revoke_finish-final m₀ m t seal_id valid x key signed published works ws keys ks input next_id now
        e begun done quiet run same =
      let chat = x.current.input.chat_id in
      let named = revoke_begin-key m₀ seal_id valid x key e begun in
      let r =
        SealRun-IsRetired key (revoke_finish m key signed published).0 works keys t ws ks
          (revoke_finish-retires m key signed published works done quiet) run in
      let spelled : chain_key input.credential_id chat ≡ key =
        ap (λ c. chain_key c chat) same ∙ sym named in
      let refused : includes t.revoked_pairs (chain_key input.credential_id chat) ≡ true =
        ap (includes t.revoked_pairs) spelled ∙ r.gone in
      (ap (get t.current_seals) (sym named) ∙ r.none_current, rw (refused, issue_begin))
