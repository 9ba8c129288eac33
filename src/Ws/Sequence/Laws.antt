-- ===== src/Ws/Sequence/Laws.antt =====
-- What a harness that comes back is sent of the frames it missed.
use mathlib.Core.List.{head?}
use Prim.Native.Nat.add
use native.Mathlib.Nat.{add-zero, zero-add}
use xmtp_broker.Base.{
  ℕ, zero, suc, ◌+◌, ◌-◌, ◌≤◌, ◌<◌, ◌≡◌, refl, sym, ap, ap₂, ◌∙◌, Bool, true, List, [], ◌∷◌, some,
  ltb, filter, length, drop, if◌then◌else◌, arith, inl, inr, Bool-cases,
}
use xmtp_broker.Ws.Buffer.{oldest, items_since}
use xmtp_broker.Ws.Buffer.Laws.{push_all}
use xmtp_broker.Ws.Buffer.History.{push_all-to_array}
use xmtp_broker.Ws.Sequence.{
  SequencedFrame, CredentialReplayState, new_credential_state, sequence_event, sequence_all,
  plan_replay, too_far_behind,
}

drop-nil {ℓ} : {A : Type ℓ} (a : ℕ) → drop {A = A} a [] ≡ []
drop-nil zero = refl
drop-nil (suc a) = refl

drop-drop {ℓ} : {A : Type ℓ} (a b : ℕ) (xs : List A) → drop a (drop b xs) ≡ drop (b + a) xs
drop-drop a zero xs = rw (zero-add a)
drop-drop {A} a (suc b) [] = rw (add.suc b a) (drop-nil {A = A} a)
drop-drop a (suc b) (x ∷ xs) = rw (add.suc b a) (drop-drop a b xs)

module _ {E : Type 0} where
  -- The events as frames, numbered from `n` on.
  abbrev pub numbered : ℕ → List E → List (SequencedFrame E)
  numbered n [] = []
  numbered n (e ∷ es) = record { seq = n; event = e } ∷ numbered (n + 1) es

  length-numbered : (n : ℕ) (es : List E) → length (numbered n es) ≡ length es
  length-numbered n [] = refl
  length-numbered n (e ∷ es) = ap suc (length-numbered (n + 1) es)

  drop-numbered : (k n : ℕ) (es : List E) → drop k (numbered n es) ≡ numbered (n + k) (drop k es)
  drop-numbered zero n es = rw add-zero
  drop-numbered (suc k) n [] = refl
  drop-numbered (suc k) n (e ∷ es) =
      let next : n + suc k ≡ n + 1 + k = omega arith in rw next (drop-numbered k (n + 1) es)

  filter-numbered_all :
      (last n : ℕ) (es : List E)
      → last < n
      → filter (λ f. ltb last f.seq) (numbered n es) ≡ numbered n es
  filter-numbered_all last n [] h = refl
  filter-numbered_all last n (e ∷ es) h = ground (arith, filter-numbered_all last (n + 1) es)

  -- Of frames numbered from `n` on, those after `last` are all but the first `last + 1 - n`.
  filter-numbered :
      (last n : ℕ) (es : List E)
      → filter (λ f. ltb last f.seq) (numbered n es) ≡ drop (last + 1 - n) (numbered n es)
  filter-numbered last n [] = elim (Bool-cases (ltb last n)) [
    | inl after ↦ let none_left : last + 1 - n ≡ 0 = ground arith in rw none_left
    | inr before ↦ let some_left : last + 1 - n ≡ suc (last - n) = ground arith in rw some_left
  ]
  filter-numbered last n (e ∷ es) = elim (Bool-cases (ltb last n)) [
    | inl after ↦
        let none_left : last + 1 - n ≡ 0 = ground arith in
        rw none_left (filter-numbered_all last n (e ∷ es) (ground arith))
    | inr before ↦
        let some_left : last + 1 - n ≡ suc (last + 1 - (n + 1)) = ground arith in
        rw (some_left, before) (filter-numbered last (n + 1) es)
  ]

  sequence_all-buffer :
      (state : CredentialReplayState E) (es : List E)
      → ((sequence_all state es).buffer ≡ push_all state.buffer (numbered state.next_seq es))
        × ((sequence_all state es).next_seq ≡ state.next_seq + length es)
  unfolding sequence_all
  sequence_all-buffer state [] = (refl, sym (add-zero state.next_seq))
  sequence_all-buffer state (e ∷ es) =
      let ih = sequence_all-buffer (sequence_event state e).0 es in (ih.0, omega (arith, ih.1))

  head?-drop-numbered :
      (k n : ℕ) (es : List E)
      → k < length es
      → (e : E) × (head? (drop k (numbered n es)) ≡ some (record { seq = n + k; event = e }))
  head?-drop-numbered k n [] h = absurd (omega arith)
  head?-drop-numbered zero n (e ∷ es) h = (e, rw add-zero)
  head?-drop-numbered (suc k) n (e ∷ es) h =
      let next : n + suc k ≡ n + 1 + k = omega arith in
      rw next (head?-drop-numbered k (n + 1) es (omega arith))

  -- The state of a credential after a run of events.
  abbrev pub state_after : ℕ → List E → CredentialReplayState E
  state_after size es = sequence_all (new_credential_state size) es

  buffer_after :
      (size : ℕ) (es : List E) (p : SequencedFrame E → Bool)
      → 0 < size
      → (oldest (state_after size es).buffer ≡ head? (drop (length es - size) (numbered 1 es)))
        × (items_since (state_after size es).buffer p
            ≡ filter p (drop (length es - size) (numbered 1 es)))
  unfolding new_credential_state
  buffer_after size es p pos =
      let pushed = (sequence_all-buffer (new_credential_state size) es).0 in
      let window = push_all-to_array size (numbered 1 es) p pos in
      rw (pushed, ← length-numbered 1 es) (window.1, window.2)

  too_far_behind-eq :
      (size last : ℕ) (es : List E)
      → 0 < size
      → too_far_behind (oldest (state_after size es).buffer) last ≡ ltb (last + size) (length es)
  unfolding too_far_behind
  too_far_behind-eq size last [] pos = rw ((buffer_after size [] (λ _. true) pos).0) (ground arith)
  too_far_behind-eq size last (e ∷ es) pos =
      let k = length (e ∷ es) - size in
      let (x, found) = head?-drop-numbered k 1 (e ∷ es) (omega arith) in
      rw ((buffer_after size (e ∷ es) (λ _. true) pos).0, found) (ground arith)

  since_after :
      (size last : ℕ) (es : List E)
      → 0 < size
      → length es ≤ last + size
      → items_since (state_after size es).buffer (λ f. ltb last f.seq) ≡ drop last (numbered 1 es)
  since_after size last es pos le =
      let k = length es - size in
      let shifted = drop-numbered k 1 es in
      let skip : last + 1 - (1 + k) ≡ last - k = omega arith in
      let total : k + (last - k) ≡ last = omega arith in
      (buffer_after size es (λ f. ltb last f.seq) pos).1
      ∙ ap (filter (λ f. ltb last f.seq)) shifted
      ∙ filter-numbered last (1 + k) (drop k es)
      ∙ ap₂ drop skip (sym shifted)
      ∙ drop-drop (last - k) k (numbered 1 es)
      ∙ ap (λ n. drop n (numbered 1 es)) total

  -- With a capacity above zero, and after any run of events: a harness that has seen the frames up to
  -- `last` is told to recover exactly if more frames than the capacity were sent since, and is then
  -- sent none; otherwise it is sent every frame after `last`, each once and in order.
  pub plan_replay-state_after :
      (size last : ℕ) (es : List E)
      → 0 < size
      → ((plan_replay (state_after size es) (some last)).needs_recovery
          ≡ ltb (last + size) (length es))
        × ((plan_replay (state_after size es) (some last)).replay_frames
            ≡ (if ltb (last + size) (length es) then [] else drop last (numbered 1 es)))
  unfolding plan_replay
  plan_replay-state_after size last es pos = elim (Bool-cases (ltb (last + size) (length es))) [
    | inl far ↦ rw (too_far_behind-eq size last es pos, far) (refl, refl)
    | inr near ↦
        rw (too_far_behind-eq size last es pos, near)
          (refl, since_after size last es pos (ground arith))
  ]
