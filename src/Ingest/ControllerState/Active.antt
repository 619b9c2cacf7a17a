-- ===== src/Ingest/ControllerState/Active.antt =====
-- fog/ingest/server/src/controller_state.rs: what stays and what grows while a server is active.
use fog.Prelude.{
  ℕ, ◌+◌, ◌≤◌, ◌<◌, ◌≡◌, refl, sym, ap, subst, ◌∙◌, eq_of_some, not, ◌||◌, Option, some, List,
  Bool-cases, inl, inr, ltb, ltb→le, arith, false,
}
use fog.Prelude.Words.{u64_mod, add64, add64-no_wrap}
use fog.Ingest.ControllerState.{
  active, is_idle_mode, IngestControllerState, is_idle, set_mode, set_active,
  increment_next_block_index, set_next_block_index, set_pubkey_expiry_window,
  set_ingest_invocation_id, set_peers, difference, is_empty,
}

-- The calls that change the state, in any order; the last number counts the increments. A call that
-- fails is a step too.
pub data Steps (s : IngestControllerState) : IngestControllerState → ℕ → Type 0 where
  start : Steps s s 0
  activated : {s' : IngestControllerState} {n : ℕ} → Steps s s' n → Steps s (set_active s') n
  indexed :
      {s' : IngestControllerState} {n : ℕ} (val : ℕ)
      → Steps s s' n
      → Steps s (set_next_block_index val s').1 n
  windowed :
      {s' : IngestControllerState} {n : ℕ} (val : ℕ)
      → Steps s s' n
      → Steps s (set_pubkey_expiry_window val s').1 n
  invoked :
      {s' : IngestControllerState} {n : ℕ} (val : Option ℕ)
      → Steps s s' n
      → Steps s (set_ingest_invocation_id val s') n
  peered :
      {s' : IngestControllerState} {n : ℕ} (peers : List ℕ)
      → Steps s s' n
      → Steps s (set_peers peers s') n
  incremented :
      {s' s'' : IngestControllerState} {n : ℕ}
      → Steps s s' n
      → increment_next_block_index s' ≡ some s''
      → Steps s s'' (n + 1)

pub record IsRun (s s' : IngestControllerState) (n : ℕ) : Type 0 where
  pub still_active : s'.mode ≡ active
  pub counted : s.next_block_index + n < u64_mod → s'.next_block_index ≡ s.next_block_index + n
  pub window : s.pubkey_expiry_window ≤ s'.pubkey_expiry_window

not_idle : (s : IngestControllerState) → s.mode ≡ active → is_idle_mode s.mode ≡ false
not_idle s h = ap is_idle_mode h

set_next_block_index-active :
    (val : ℕ) (s : IngestControllerState) → s.mode ≡ active → (set_next_block_index val s).1 ≡ s
unfolding set_next_block_index
set_next_block_index-active val s h = rw (not_idle s h) refl

increment-active :
    (s : IngestControllerState)
    → s.mode ≡ active
    → increment_next_block_index s
      ≡ some (record s { next_block_index = add64 s.next_block_index 1 })
unfolding increment_next_block_index is_idle
increment-active s h = rw (not_idle s h) refl

window-active :
    (val : ℕ) (s : IngestControllerState)
    → s.mode ≡ active
    → ((set_pubkey_expiry_window val s).1.mode ≡ s.mode)
      × ((set_pubkey_expiry_window val s).1.next_block_index ≡ s.next_block_index)
      × (s.pubkey_expiry_window ≤ (set_pubkey_expiry_window val s).1.pubkey_expiry_window)
unfolding set_pubkey_expiry_window
window-active val s h = rw (not_idle s h) (elim (Bool-cases (ltb val s.pubkey_expiry_window)) [
  | inl e ↦ rw e (refl, refl, omega arith)
  | inr e ↦ rw e (refl, refl, ltb→le val s.pubkey_expiry_window e)
])

peers-same :
    (peers : List ℕ) (s : IngestControllerState)
    → ((set_peers peers s).mode ≡ s.mode)
      × ((set_peers peers s).next_block_index ≡ s.next_block_index)
      × ((set_peers peers s).pubkey_expiry_window ≡ s.pubkey_expiry_window)
unfolding set_peers
peers-same peers s =
    elim (Bool-cases
      (not (is_empty (difference peers s.peers)) || not (is_empty (difference s.peers peers)))) [
        | inl e ↦ rw e (refl, refl, refl)
        | inr e ↦ rw e (refl, refl, refl)
      ]

-- As long as an active server is not set idle, whatever calls are made: it stays active, its next
-- block index is the one it started with plus the number of increments, if that does not reach 2^64,
-- and its expiry window is never less than at the start.
pub Steps-IsRun :
    {s s' : IngestControllerState} {n : ℕ} → s.mode ≡ active → Steps s s' n → IsRun s s' n
unfolding set_active set_mode set_next_block_index set_pubkey_expiry_window set_ingest_invocation_id
    set_peers increment_next_block_index is_idle
Steps-IsRun a start = record { still_active = a; counted = λ h. omega arith; window = omega arith }
Steps-IsRun a (activated r) =
    let i = Steps-IsRun a r in
    record { still_active = refl; counted = i.counted; window = i.window }
Steps-IsRun {s = s} {n = n} a (indexed {s'} val r) =
    let i = Steps-IsRun a r in
    subst (λ t. IsRun s t n) (sym (set_next_block_index-active val s' i.still_active)) i
Steps-IsRun {s = s} a (windowed {s'} val r) =
    let i = Steps-IsRun a r in
    let (m, x, w) = window-active val s' i.still_active in
    record {
      still_active = m ∙ i.still_active;
      counted = λ h. x ∙ i.counted h;
      window = omega (arith, i.window, w);
    }
Steps-IsRun a (invoked val r) =
    let i = Steps-IsRun a r in
    record { still_active = i.still_active; counted = i.counted; window = i.window }
Steps-IsRun {s = s} a (peered {s'} peers r) =
    let i = Steps-IsRun a r in
    let (m, x, w) = peers-same peers s' in
    record {
      still_active = m ∙ i.still_active;
      counted = λ h. x ∙ i.counted h;
      window = subst (λ k. s.pubkey_expiry_window ≤ k) (sym w) i.window;
    }
Steps-IsRun {s = s} a (incremented {s'} {s''} {n} r e) =
    let i = Steps-IsRun a r in
    let e' : record s' { next_block_index = add64 s'.next_block_index 1 } ≡ s'' =
      eq_of_some (sym (increment-active s' i.still_active) ∙ e) in
    subst (λ t. IsRun s t (n + 1)) e'
      (record {
        still_active = i.still_active;
        counted = λ h.
            omega (arith, h, i.counted (omega (arith, h)), add64-no_wrap s'.next_block_index 1);
        window = i.window;
      })
