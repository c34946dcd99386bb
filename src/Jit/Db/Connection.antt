-- ===== src/Jit/Db/Connection.antt =====
-- A `TraceDB` object of paw_kit/jit/db.py: its connection to the database file, its prune clocks and
-- its status listeners. `faults` is what the other users of the file do to it: for each attempt at a
-- transaction, in turn, whether SQLite raises `OperationalError`; an attempt that raises is rolled
-- back. Beyond the list no attempt raises.
use paw_toolkit.Prelude.{
  ℕ, zero, suc, ◌+◌, ◌%◌, String, Bool, true, false, List, [], ◌∷◌, leb, ◌==◌, str_eq,
  if◌then◌else◌,
}
use paw_toolkit.Jit.Outcome.{Result, ok, raised, operational_error, other}
use paw_toolkit.Jit.Db.Schema.{Store}
use paw_toolkit.Jit.Db.Ops.{prune_transitions, state_transitions_max_rows}

pub record Session (F : Type 0) : Type 0 where
  pub store : Store F
  pub faults : List Bool
  pub shadow_pair_writes : String → ℕ
  pub transition_writes : String → ℕ
  -- The tasks that the listeners were told of, the latest first.
  pub notified : List String

abbrev pub Exec : Type 0 → Type 0 → Type 0
Exec F A = Session F → Result A × Session F

module _ {F : Type 0} where
  abbrev pub pure : {A : Type 0} → A → Exec F A
  pure a σ = (ok a, σ)

  abbrev pub continue :
      {A B : Type 0} → Result A × Session F → (A → Exec F B) → Result B × Session F
  continue (ok a, σ) f = f a σ
  continue (raised e, σ) f = (raised e, σ)

  infixl 10 ◌>>=◌ ◌>>◌
  abbrev pub ◌>>=◌ : {A B : Type 0} → Exec F A → (A → Exec F B) → Exec F B
  ◌>>=◌ m f σ = continue (m σ) f

  abbrev pub ◌>>◌ : {A B : Type 0} → Exec F A → Exec F B → Exec F B
  m >> n = m >>= λ _. n

-- `_DB_RETRY_ATTEMPTS`
abbrev pub db_retry_attempts : ℕ
db_retry_attempts = 5

-- `_PRUNE_EVERY` and `_prune_interval`
abbrev pub prune_every : ℕ
prune_every = 50

abbrev pub prune_interval : ℕ → ℕ
prune_interval limit = if leb limit prune_every then 1 else prune_every

abbrev pub bump : (String → ℕ) → String → String → ℕ
bump counter task j = if str_eq j task then counter j + 1 else counter j

module _ {F : Type 0} where
  -- The attempts that are left; the last one re-raises.
  unfoldable pub retry : {A : Type 0} → ℕ → List Bool → (Store F → A × Store F) → Exec F A
  retry zero faults txn σ = (raised (other "AssertionError"), record σ { faults = faults })
  retry (suc n) [] txn σ = let (a, s) = txn σ.store in (ok a, record σ { store = s; faults = [] })
  retry (suc n) (false ∷ faults) txn σ =
      let (a, s) = txn σ.store in (ok a, record σ { store = s; faults = faults })
  retry (suc zero) (true ∷ faults) txn σ = (raised operational_error, record σ { faults = faults })
  retry (suc (suc n)) (true ∷ faults) txn σ = retry (suc n) faults txn σ

  unfoldable pub with_write_retry : {A : Type 0} → (Store F → A × Store F) → Exec F A
  unfolding retry
  with_write_retry txn σ = retry db_retry_attempts σ.faults txn σ

  -- A transaction with no result.
  abbrev pub silent : (Store F → Store F) → Store F → Unit {0} × Store F
  silent f s = (tt, f s)

  -- `_note_write` on either clock: whether a prune is due.
  unfoldable pub note_transition : String → Exec F Bool
  note_transition task σ = (
    ok ((σ.transition_writes task + 1) % prune_interval state_transitions_max_rows == 0),
    record σ { transition_writes = bump σ.transition_writes task },
  )

  unfoldable pub note_shadow_pair : String → ℕ → Exec F Bool
  note_shadow_pair task interval σ = (
    ok ((σ.shadow_pair_writes task + 1) % interval == 0),
    record σ { shadow_pair_writes = bump σ.shadow_pair_writes task },
  )

  unfoldable pub after_transition_write : String → Exec F (Unit {0})
  unfolding note_transition with_write_retry
  after_transition_write task = do
    due ← note_transition task
    if due then with_write_retry (silent (prune_transitions task)) else pure tt

  -- `for listener in list(self._status_listeners): listener(task_id)`
  unfoldable pub notify : String → Exec F (Unit {0})
  notify task σ = (ok tt, record σ { notified = task ∷ σ.notified })
