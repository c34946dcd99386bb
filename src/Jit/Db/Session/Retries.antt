-- ===== src/Jit/Db/Session/Retries.antt =====
-- A write of paw_kit/jit/db.py under contention: made once, or not at all.
use paw_toolkit.Prelude.{
  ℕ, zero, suc, ◌≤◌, ◌<◌, ◌≡◌, refl, Bool, true, false, List, [], ◌∷◌, arith, ltb, if◌then◌else◌,
  inl, inr, ◌⊎◌,
}
use paw_toolkit.Jit.Outcome.{Result, ok, raised, operational_error}
use paw_toolkit.Jit.Db.Schema.{Store}
use paw_toolkit.Jit.Db.Connection.{Session, retry, with_write_retry}

-- The faults that the next transaction meets before an attempt gets through.
abbrev pub contention : List Bool → ℕ
contention [] = 0
contention (false ∷ faults) = 0
contention (true ∷ faults) = suc (contention faults)

module _ {F A : Type 0} where
  -- What a write comes to: made once with its result returned, or left out and `OperationalError`
  -- raised. The clocks and the listeners are not touched.
  abbrev pub Outcome : (Store F → A × Store F) → Session F → Result A × Session F → Type 0
  Outcome txn σ (r, τ) =
      (((r ≡ ok (txn σ.store).0) × (τ.store ≡ (txn σ.store).1))
        ⊎ ((r ≡ raised operational_error) × (τ.store ≡ σ.store)))
      × (τ.shadow_pair_writes ≡ σ.shadow_pair_writes)
      × (τ.transition_writes ≡ σ.transition_writes)
      × (τ.notified ≡ σ.notified)

  retry-Outcome :
      (n : ℕ) (faults : List Bool) (txn : Store F → A × Store F) (σ : Session F)
      → Outcome txn σ (retry (suc n) faults txn σ)
  unfolding retry
  retry-Outcome n [] txn σ = (inl (refl, refl), refl, refl, refl)
  retry-Outcome n (false ∷ faults) txn σ = (inl (refl, refl), refl, refl, refl)
  retry-Outcome zero (true ∷ faults) txn σ = (inr (refl, refl), refl, refl, refl)
  retry-Outcome (suc n) (true ∷ faults) txn σ = retry-Outcome n faults txn σ

  -- However many attempts it takes, a write is made exactly once or not at all.
  pub with_write_retry-once :
      (txn : Store F → A × Store F) (σ : Session F) → Outcome txn σ (with_write_retry txn σ)
  unfolding with_write_retry
  with_write_retry-once txn σ = retry-Outcome 4 σ.faults txn σ

  retry-ok :
      (n : ℕ) (faults : List Bool) (txn : Store F → A × Store F) (σ : Session F)
      → contention faults < n
      → (retry n faults txn σ).0 ≡ ok (txn σ.store).0
  unfolding retry
  retry-ok zero faults txn σ h = absurd (omega arith)
  retry-ok (suc n) [] txn σ h = refl
  retry-ok (suc n) (false ∷ faults) txn σ h = refl
  retry-ok (suc zero) (true ∷ faults) txn σ h = absurd (omega arith)
  retry-ok (suc (suc n)) (true ∷ faults) txn σ h = retry-ok (suc n) faults txn σ (omega arith)

  retry-raised :
      (n : ℕ) (faults : List Bool) (txn : Store F → A × Store F) (σ : Session F)
      → suc n ≤ contention faults
      → (retry (suc n) faults txn σ).0 ≡ raised operational_error
  unfolding retry
  retry-raised n [] txn σ h = absurd (omega arith)
  retry-raised n (false ∷ faults) txn σ h = absurd (omega arith)
  retry-raised zero (true ∷ faults) txn σ h = refl
  retry-raised (suc n) (true ∷ faults) txn σ h = retry-raised n faults txn σ (omega arith)

  -- A write raises exactly when the first five attempts are turned away; otherwise it returns what its
  -- transaction computes.
  pub with_write_retry_lem :
      (txn : Store F → A × Store F) (σ : Session F)
      → (with_write_retry txn σ).0
        ≡ (if ltb (contention σ.faults) 5 then ok (txn σ.store).0 else raised operational_error)
  unfolding with_write_retry
  with_write_retry_lem txn σ =
      ground (arith, retry-ok 5 σ.faults txn σ, retry-raised 4 σ.faults txn σ)
