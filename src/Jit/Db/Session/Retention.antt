-- ===== src/Jit/Db/Session/Retention.antt =====
-- How many comparisons of a task the file holds: the retention cap and the prune clock of
-- paw_kit/jit/db.py.
use paw_toolkit.Prelude.{
  ℕ, suc, ◌+◌, ◌≤◌, String, ◌≡◌, refl, false, Option, List, arith, ap, subst, inl, inr, ◌%◌, ◌==◌,
  length, length-take, str_eq_refl, Bool-cases, leb,
}
use paw_toolkit.Jit.Outcome.{Result, ok, raised}
use paw_toolkit.Jit.Db.Table.{Row, of_task, insert}
use paw_toolkit.Jit.Db.Table.Retention.{IsOrdered, insert-IsOrdered, prune-IsOrdered, of_task-prune}
use paw_toolkit.Jit.Db.Schema.{Phase, Verdict, Store, ShadowPair}
use paw_toolkit.Jit.Db.Pairs.{record_shadow_pair_txn}
use paw_toolkit.Jit.Db.Ops.{prune_shadow_pairs}
use paw_toolkit.Jit.Db.Connection.{
  Session, with_write_retry, prune_interval, silent, note_shadow_pair, ◌>>=◌, pure, continue, bump,
}
use paw_toolkit.Jit.Db.Session.{record_shadow_pair, after_pair_write}
use paw_toolkit.Jit.Db.Session.Retries.{with_write_retry-once, Outcome}

-- The clock's remainder, when it does not strike.
tick :
    (limit n : ℕ)
    → ((n + 1) % prune_interval limit == 0) ≡ false
    → (n + 1) % prune_interval limit ≡ n % prune_interval limit + 1
tick limit n h = elim (Bool-cases (leb limit 50)) [
  | inl small ↦ ground arith
  | inr large ↦ ground arith
]

module _ {F : Type 0} where
  abbrev pub pairs_of : Session F → String → List (Row (ShadowPair F))
  pairs_of σ task = of_task task σ.store.shadow_pairs.rows

  -- The rows of a task pass the cap by less than the writes since its clock last struck.
  pub record IsBounded (task : String) (limit : ℕ) (σ : Session F) : Type 0 where
    pub ordered : IsOrdered σ.store.shadow_pairs
    pub within : length (pairs_of σ task) ≤ limit + σ.shadow_pair_writes task % prune_interval limit

  length-prune :
      (task : String) (limit : ℕ) (s : Store F)
      → IsOrdered s.shadow_pairs
      → length (of_task task (prune_shadow_pairs task (suc limit) s).shadow_pairs.rows) ≤ suc limit
  unfolding prune_shadow_pairs
  length-prune task limit s o = omega (
    arith,
    ap length (of_task-prune task limit s.shadow_pairs o),
    length-take (suc limit) (of_task task s.shadow_pairs.rows),
  )

  pruned-IsBounded :
      (task : String) (limit : ℕ) (σ : Session F) (p : Result (Unit {0}) × Session F)
      → Outcome (silent (prune_shadow_pairs task (suc limit))) σ p
      → p.0 ≡ ok tt
      → IsOrdered σ.store.shadow_pairs
      → IsBounded task (suc limit) p.1
  pruned-IsBounded task limit σ (raised e, τ) out h o = cc
  pruned-IsBounded task limit σ (ok u, τ) out h o =
      let made : prune_shadow_pairs task (suc limit) σ.store ≡ τ.store = ground arith in
      subst (λ s. IsBounded task (suc limit) (record τ { store = s })) made
        (record {
          ordered =
              unfold prune_shadow_pairs in prune-IsOrdered task (suc limit) σ.store.shadow_pairs o;
          within = omega (arith, length-prune task limit σ.store o);
        })

  after_pair_write-IsBounded :
      (task : String) (limit : ℕ) (σ : Session F)
      → (after_pair_write task (suc limit) σ).0 ≡ ok tt
      → IsOrdered σ.store.shadow_pairs
      → length (pairs_of σ task)
        ≤ suc (suc limit + σ.shadow_pair_writes task % prune_interval (suc limit))
      → IsBounded task (suc limit) (after_pair_write task (suc limit) σ).1
  unfolding after_pair_write note_shadow_pair
  after_pair_write-IsBounded task limit σ h o w =
      elim (Bool-cases ((σ.shadow_pair_writes task + 1) % prune_interval (suc limit) == 0)) [
        | inl due ↦
            let noted : Session F = record σ {
              shadow_pair_writes = bump σ.shadow_pair_writes task;
            } in
            rw due (
              pruned-IsBounded task limit noted
                (with_write_retry (silent (prune_shadow_pairs task (suc limit))) noted)
                (with_write_retry-once (silent (prune_shadow_pairs task (suc limit))) noted)
                (rw due at h) o)
        | inr not_due ↦ rw not_due (record {
          ordered = o;
          within =
              rw str_eq_refl (omega (arith, tick (suc limit) (σ.shadow_pair_writes task) not_due));
        })
      ]

module _ {F : Type 0} (task : String) (epoch : ℕ) (phase : Phase) (input : String)
    (teacher adapter : Option String) (verdict : Verdict) (error_type : Option String)
    (t_ms a_ms : Option F) (now limit : ℕ) where
  recorded_within :
      (s : Store F)
      → length (
          of_task task
            (record_shadow_pair_txn task epoch phase input teacher adapter verdict error_type t_ms
              a_ms now s).1.shadow_pairs.rows)
        ≡ suc (length (of_task task s.shadow_pairs.rows))
  unfolding record_shadow_pair_txn of_task insert
  recorded_within s = ground (arith, str_eq_refl task)

  recorded-IsOrdered :
      (s : Store F)
      → IsOrdered s.shadow_pairs
      → IsOrdered
          (record_shadow_pair_txn task epoch phase input teacher adapter verdict error_type t_ms
            a_ms now s).1.shadow_pairs
  unfolding record_shadow_pair_txn
  recorded-IsOrdered s h = insert-IsOrdered _ _ _ h

  then-IsBounded :
      (n seq : ℕ) (p : Result (Unit {0}) × Session F)
      → (continue p (λ _. pure n)).0 ≡ ok seq
      → (p.0 ≡ ok tt → IsBounded task (suc limit) p.1)
      → IsBounded task (suc limit) (continue p (λ _. pure n)).1
  then-IsBounded n seq (ok u, τ) h k = k refl
  then-IsBounded n seq (raised e, τ) h k = cc

  inserted-IsBounded :
      (σ : Session F) (seq : ℕ) (r : Result ℕ × Session F)
      → Outcome
          (record_shadow_pair_txn task epoch phase input teacher adapter verdict error_type t_ms
            a_ms now)
          σ
          r
      → (continue r (λ n. after_pair_write task (suc limit) >>= λ _. pure n)).0 ≡ ok seq
      → IsBounded task (suc limit) σ
      → IsBounded task
          (suc limit)
          (continue r (λ n. after_pair_write task (suc limit) >>= λ _. pure n)).1
  inserted-IsBounded σ seq (raised e, τ) out h v = cc
  inserted-IsBounded σ seq (ok n, τ) out h v =
      let made : (record_shadow_pair_txn task epoch phase input teacher adapter verdict error_type
            t_ms a_ms now σ.store).1
          ≡ τ.store =
        ground arith in
      then-IsBounded n seq (after_pair_write task (suc limit) τ) h λ fine.
        after_pair_write-IsBounded task limit τ fine
          (subst (λ s. IsOrdered s.shadow_pairs) made (recorded-IsOrdered σ.store v.ordered))
          (rw out.1 (
            subst
              (λ s.
                length (of_task task s.shadow_pairs.rows)
                ≤ suc (suc limit + σ.shadow_pair_writes task % prune_interval (suc limit)))
              made (omega (arith, recorded_within σ.store, v.within))))

  -- The bound on retention, for a cap of one at least, is an invariant of the calls that return: what a
  -- task has over the cap is within what its clock counts since it last struck.
  pub record_shadow_pair-IsBounded :
      (σ : Session F) (seq : ℕ)
      → let after =
          record_shadow_pair task epoch phase input teacher adapter verdict error_type t_ms a_ms
            (suc limit)
            now
            σ in
        after.0 ≡ ok seq → IsBounded task (suc limit) σ → IsBounded task (suc limit) after.1
  unfolding record_shadow_pair
  record_shadow_pair-IsBounded σ seq h v =
      inserted-IsBounded σ seq
        (with_write_retry
          (record_shadow_pair_txn task epoch phase input teacher adapter verdict error_type t_ms
            a_ms now)
          σ)
        (with_write_retry-once _ σ) h v
