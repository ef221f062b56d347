-- ===== src/Firestore/Txn.antt =====
-- `_commit` of gatekeeper/runs/store.py: the rounds of a whole transaction. `State` is the state of
-- the collection, `others i` what other clients do to it before round `i`, and `aborted i` whether the
-- client reports round `i` as contended (`ValueError` or `Aborted`), in which case nothing is written.
-- The pause between two rounds changes no state and is left out.
use native.Mathlib.Nat.{add-zero, zero-add}
use lakshmana_core.Prelude.{
  ℕ, zero, suc, ◌+◌, ◌<◌, Bool, true, false, ◌≡◌, refl, ◌⊎◌, inl, inr, arith, Bool-cases,
}

pub data TxnResult {ℓ} (A : Type ℓ) : Type ℓ where
  returned : A → TxnResult A
  -- raise FirestoreTxnError
  txn_error : TxnResult A

abbrev pub txn_retry_rounds : ℕ
txn_retry_rounds = 4

module _ {S A : Type 0} (aborted : ℕ → Bool) (others : ℕ → S → S) (body : S → S × A) where
  commit_rounds : ℕ → ℕ → S → S × TxnResult A
  commit_rounds zero i s = (s, txn_error)
  commit_rounds (suc left) i s =
      let seen = others i s in
      elim (aborted i) [
        | true ↦ commit_rounds left (i + 1) seen
        | false ↦ let (after, a) = body seen in (after, returned a)
      ]

  unfoldable pub commit : S → S × TxnResult A
  unfolding commit_rounds
  commit s = commit_rounds txn_retry_rounds 0 s

  -- The state that round `i` sees when all rounds from `start` up to it were aborted.
  abbrev pub seen_from : ℕ → ℕ → S → S
  seen_from zero start s = others start s
  seen_from (suc k) start s = seen_from k (start + 1) (others start s)

  -- The state after `k` aborted rounds from `start`: other clients' work only.
  abbrev pub abandoned_from : ℕ → ℕ → S → S
  abandoned_from zero start s = s
  abandoned_from (suc k) start s = abandoned_from k (start + 1) (others start s)

  commit_rounds_lem :
      (left i : ℕ) (s : S)
      → ((k : ℕ) × (k < left)
          × (aborted (i + k) ≡ false)
          × (commit_rounds left i s
              ≡ ((body (seen_from k i s)).0, returned (body (seen_from k i s)).1)))
        ⊎ (((k : ℕ) → k < left → aborted (i + k) ≡ true)
            × (commit_rounds left i s ≡ (abandoned_from left i s, txn_error)))
  unfolding commit_rounds
  commit_rounds_lem zero i s = inr (λ k h. absurd (omega arith), refl)
  commit_rounds_lem (suc left) i s = elim (Bool-cases (aborted i)) [
    | inr go ↦ inl (0, omega arith, rw (add-zero i) go, ground arith)
    | inl stop ↦ elim (commit_rounds_lem left (i + 1) (others i s)) [
      | inl (k, b, f, e) ↦ inl (suc k, omega arith, rw (shift i k) f, ground arith)
      | inr (all, e) ↦ inr (later stop all, ground arith)
    ]
  ]
    where
      shift : (i k : ℕ) → i + suc k ≡ i + 1 + k
      shift i k = omega arith

      later :
          aborted i ≡ true
          → ((k : ℕ) → k < left → aborted (i + 1 + k) ≡ true)
          → (k : ℕ) → k < suc left
          → aborted (i + k) ≡ true
      later stop all zero h = rw (add-zero i) stop
      later stop all (suc k) h = rw (shift i k) (all k (omega arith))

  -- A transaction is applied at most once: either the first round that is not aborted, one of the
  -- first four, applies it to the state that other clients have left, and its result is returned, or
  -- the first four rounds are all aborted, the error is raised and only other clients have written.
  pub commit_once :
      (s : S)
      → ((k : ℕ) × (k < txn_retry_rounds)
          × (aborted k ≡ false)
          × (commit s ≡ ((body (seen_from k 0 s)).0, returned (body (seen_from k 0 s)).1)))
        ⊎ (((k : ℕ) → k < txn_retry_rounds → aborted k ≡ true)
            × (commit s ≡ (abandoned_from txn_retry_rounds 0 s, txn_error)))
  unfolding commit
  commit_once s = elim (commit_rounds_lem txn_retry_rounds 0 s) [
    | inl (k, b, f, e) ↦ inl (k, b, rw (zero-add k) at f, e)
    | inr (all, e) ↦ inr (λ k h. rw (zero-add k) at (all k h), e)
  ]

  -- A first round that is not aborted decides.
  pub commit_first :
      (s : S)
      → aborted 0 ≡ false
      → commit s ≡ ((body (others 0 s)).0, returned (body (others 0 s)).1)
  unfolding commit commit_rounds
  commit_first s h = rw h refl
