-- ===== src/Jit/Db/Ops/Races.antt =====
-- Two processes that share a traces.db: at most one wins each compare-and-set of paw_kit/jit/db.py.
use paw_toolkit.Prelude.{
  ℕ, ◌<◌, String, ◌≡◌, true, false, Option, none, some, List, arith, lookup, str_eq_refl,
  lookup-update,
}
use paw_toolkit.Jit.Db.Schema.{Task, Store}
use paw_toolkit.Jit.Db.Op.{Op}
use paw_toolkit.Jit.Db.Tasks.Promotion.{try_promote_txn, try_demote_txn}
use paw_toolkit.Jit.Db.Ops.{run}
use paw_toolkit.Jit.Db.Ops.Epochs.{Grows, run-Grows}

module _ {F : Type 0} where
  -- `state_epoch = ?` fails for good once the epoch has passed.
  abbrev pub Passed : ℕ → Option (Task F) → Type 0
  Passed epoch none = ⊥
  Passed epoch (some r) = epoch < r.state_epoch

  Passed-Grows : (epoch : ℕ) (o p : Option (Task F)) → Passed epoch o → Grows o p → Passed epoch p
  Passed-Grows epoch none p h g = absurd h
  Passed-Grows epoch (some r) none h g = g
  Passed-Grows epoch (some r) (some t) h g = ground arith

module _ {F : Type 0} (task : String) (epoch : ℕ) where
  promote-Passed :
      (agreement : Option F) (samples : Option ℕ) (reason : Option String) (now : ℕ) (s : Store F)
      → (try_promote_txn task epoch agreement samples reason now s).0 ≡ true
      → Passed epoch
          (lookup task (try_promote_txn task epoch agreement samples reason now s).1.tasks)
  unfolding try_promote_txn
  promote-Passed agreement samples reason now s h = grind (arith, lookup-update, str_eq_refl)

  demote-Passed :
      (agreement : Option F) (samples : Option ℕ) (reason : Option String) (now : ℕ) (s : Store F)
      → (try_demote_txn task epoch agreement samples reason now s).0 ≡ true
      → Passed epoch
          (lookup task (try_demote_txn task epoch agreement samples reason now s).1.tasks)
  unfolding try_demote_txn
  demote-Passed agreement samples reason now s h = grind (arith, lookup-update, str_eq_refl)

  promote_refused :
      (agreement : Option F) (samples : Option ℕ) (reason : Option String) (now : ℕ) (s : Store F)
      → Passed epoch (lookup task s.tasks)
      → try_promote_txn task epoch agreement samples reason now s ≡ (false, s)
  unfolding try_promote_txn
  promote_refused agreement samples reason now s h = ground arith

  demote_refused :
      (agreement : Option F) (samples : Option ℕ) (reason : Option String) (now : ℕ) (s : Store F)
      → Passed epoch (lookup task s.tasks)
      → try_demote_txn task epoch agreement samples reason now s ≡ (false, s)
  unfolding try_demote_txn
  demote_refused agreement samples reason now s h = ground arith

  -- What a compare-and-set by anyone meets after the epoch has passed.
  abbrev pub Lost : Store F → Type 0
  Lost s =
      (agreement : Option F) (samples : Option ℕ) (reason : Option String) (now : ℕ)
      → (try_promote_txn task epoch agreement samples reason now s ≡ (false, s))
        × (try_demote_txn task epoch agreement samples reason now s ≡ (false, s))

  Lost-of_Passed : (s : Store F) → Passed epoch (lookup task s.tasks) → Lost s
  Lost-of_Passed s h agreement samples reason now = (
    promote_refused agreement samples reason now s h,
    demote_refused agreement samples reason now s h,
  )

  -- After a promotion that won at an epoch, whatever other writes follow, every promotion and every
  -- demotion that still expects that epoch is refused and changes nothing.
  pub try_promote-wins_once :
      (agreement : Option F) (samples : Option ℕ) (reason : Option String) (now : ℕ) (s : Store F)
      (history : List (String × ℕ × Op F))
      → (try_promote_txn task epoch agreement samples reason now s).0 ≡ true
      → Lost (run history (try_promote_txn task epoch agreement samples reason now s).1)
  try_promote-wins_once agreement samples reason now s history h =
      let won = (try_promote_txn task epoch agreement samples reason now s).1 in
      Lost-of_Passed (run history won) (
        Passed-Grows epoch (lookup task won.tasks) (lookup task (run history won).tasks)
          (promote-Passed agreement samples reason now s h) (run-Grows task history won))

  -- After a demotion that won at an epoch, whatever other writes follow, every promotion and every
  -- demotion that still expects that epoch is refused and changes nothing.
  pub try_demote-wins_once :
      (agreement : Option F) (samples : Option ℕ) (reason : Option String) (now : ℕ) (s : Store F)
      (history : List (String × ℕ × Op F))
      → (try_demote_txn task epoch agreement samples reason now s).0 ≡ true
      → Lost (run history (try_demote_txn task epoch agreement samples reason now s).1)
  try_demote-wins_once agreement samples reason now s history h =
      let won = (try_demote_txn task epoch agreement samples reason now s).1 in
      Lost-of_Passed (run history won) (
        Passed-Grows epoch (lookup task won.tasks) (lookup task (run history won).tasks)
          (demote-Passed agreement samples reason now s h) (run-Grows task history won))
