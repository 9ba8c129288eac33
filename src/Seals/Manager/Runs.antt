-- ===== src/Seals/Manager/Runs.antt =====
-- Calls of the seal manager that overlap: one may run while another awaits its answers.
use xmtp_broker.Base.{
  ℕ, String, Bool, false, ◌||◌, List, [], ◌∷◌, ◌++◌, ◌==◌, ◌≡◌, refl, Result, ok, arith,
}
use xmtp_broker.Seals.Manager.{
  SealInput, SealPayload, SealManager, SealWork, working, issue_begin, refresh_begin, seal_finish,
  revoke_begin, revoke_finish,
}

-- A run from `start`, with `works` and `keys` in flight, to a manager with the seals that still wait
-- for an answer, and the pairs whose revocation does. A call that ends at once changes nothing.
pub data SealRun (accepts : SealPayload → Bool) (start : SealManager) (works : List SealWork)
    (keys : List String) : SealManager → List SealWork → List String → Type 0 where
  started : SealRun accepts start works keys start works keys
  issuing :
      {t : SealManager} {ws : List SealWork} {ks : List String} (resolved : Result String SealInput)
      (chat_id seal_id : String) (now : ℕ) (work : SealWork)
      → issue_begin accepts t resolved chat_id seal_id now ≡ working work
      → SealRun accepts start works keys t ws ks
      → SealRun accepts start works keys t (ws ++ work ∷ []) ks
  refreshing :
      {t : SealManager} {ws : List SealWork} {ks : List String} (seal_id next_id : String) (now : ℕ)
      (work : SealWork)
      → refresh_begin accepts t seal_id next_id now ≡ working work
      → SealRun accepts start works keys t ws ks
      → SealRun accepts start works keys t (ws ++ work ∷ []) ks
  answered :
      {t : SealManager} {ks : List String} (before : List SealWork) (work : SealWork)
      (after : List SealWork) (signed : Result String String) (published : Result String (Unit {0}))
      → SealRun accepts start works keys t (before ++ work ∷ after) ks
      → SealRun accepts start works keys
          (seal_finish t work signed published).0
          (before ++ after)
          ks
  revoking :
      {t : SealManager} {ws : List SealWork} {ks : List String} (seal_id : String) (valid : Bool)
      (key : String)
      → revoke_begin t seal_id valid ≡ ok key
      → SealRun accepts start works keys t ws ks
      → SealRun accepts start works keys t ws (ks ++ key ∷ [])
  revoked :
      {t : SealManager} {ws : List SealWork} (before : List String) (key : String)
      (after : List String) (signed : Result String String) (published : Result String (Unit {0}))
      → SealRun accepts start works keys t ws (before ++ key ∷ after)
      → SealRun accepts start works keys
          (revoke_finish t key signed published).0
          ws
          (before ++ after)

abbrev pub is_worked_on : List SealWork → String → Bool
is_worked_on [] key = false
is_worked_on (work ∷ rest) key = work.key == key || is_worked_on rest key

pub is_worked_on-append :
    (before after : List SealWork) (key : String)
    → is_worked_on (before ++ after) key ≡ (is_worked_on before key || is_worked_on after key)
is_worked_on-append [] after key = refl
is_worked_on-append (work ∷ rest) after key = ground (arith, is_worked_on-append rest after key)
