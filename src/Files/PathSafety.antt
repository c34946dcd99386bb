-- ===== src/Files/PathSafety.antt =====
-- paw_kit/pathsafety.py. A resolved path is its parts from the root of the file system; `Path.resolve` is a
-- parameter.
use paw_toolkit.Prelude.{
  String, List, [], ◌∷◌, ◌++◌, Bool, true, false, ◌||◌, not, ◌≡◌, ◌↔◌, ◌⊎◌, refl, sym, subst,
  str_eq, str_eq_iff, str_eq_refl, if◌then◌else◌, arith, ap, Bool-cases, inl, inr,
}
use paw_toolkit.Jit.Outcome.{Result, Error, ok, raised, value_error, ◌>>=◌, ok_injective}

abbrev pub same_path : List String → List String → Bool
same_path [] [] = true
same_path (p ∷ ps) (q ∷ qs) = if str_eq p q then same_path ps qs else false
same_path _ _ = false

-- `root in path.parents`: the parts of the root are the first of the path's, and are not all of them.
unfoldable pub is_parent : List String → List String → Bool
is_parent [] [] = false
is_parent [] (p ∷ ps) = true
is_parent (r ∷ rs) [] = false
is_parent (r ∷ rs) (p ∷ ps) = if str_eq r p then is_parent rs ps else false

abbrev checked : List String → List String → Result (List String)
checked root path =
    if same_path path root || not (is_parent root path) then raised value_error else ok path

unfoldable pub ensure_contained :
    (String → Result (List String)) → String → String → Result (List String)
ensure_contained resolve path root = resolve root >>= λ resolved_root.
    resolve path >>= λ resolved_path. checked resolved_root resolved_path

-- A path strictly below a root.
abbrev pub IsBelow : List String → List String → Type 0
IsBelow root path = (p : String) × (ps : List String) × (path ≡ root ++ (p ∷ ps))

is_parent-IsBelow : (root path : List String) → is_parent root path ≡ true → IsBelow root path
unfolding is_parent
is_parent-IsBelow [] [] h = absurd (grind arith)
is_parent-IsBelow [] (p ∷ ps) h = (p, ps, refl)
is_parent-IsBelow (r ∷ rs) [] h = absurd (grind arith)
is_parent-IsBelow (r ∷ rs) (p ∷ ps) h = elim (Bool-cases (str_eq r p)) [
  | inl same ↦
      let (q, qs, below) = is_parent-IsBelow rs ps (rw same at h) in
      (q, qs, rw ((str_eq_iff r p).0 same, below) refl)
  | inr apart ↦ absurd (grind arith)
]

below-is_parent :
    (root : List String) (p : String) (ps : List String)
    → (is_parent root (root ++ (p ∷ ps)) ≡ true) × (same_path (root ++ (p ∷ ps)) root ≡ false)
unfolding is_parent
below-is_parent [] p ps = (refl, refl)
below-is_parent (r ∷ rs) p ps = rw (str_eq_refl r) (below-is_parent rs p ps)

passes :
    (root path : List String)
    → IsBelow root path
    → (is_parent root path ≡ true) × (same_path path root ≡ false)
passes root path (p, ps, below) =
    subst (λ q. (is_parent root q ≡ true) × (same_path q root ≡ false)) (sym below)
      (below-is_parent root p ps)

-- The root and the path resolve, the path to `p`, strictly below the root.
abbrev pub ResolvesBelow : Result (List String) → Result (List String) → List String → Type 0
ResolvesBelow root path p = (r : List String) × (root ≡ ok r) × (path ≡ ok p) × IsBelow r p

abbrev contained : Result (List String) → Result (List String) → Result (List String)
contained root path = root >>= λ r. path >>= λ q. checked r q

checked-IsBelow :
    (root path p : List String) → checked root path ≡ ok p → (path ≡ p) × IsBelow root path
checked-IsBelow root path p h =
    elim (Bool-cases (same_path path root || not (is_parent root path))) [
      | inl bad ↦ absurd (ground arith)
      | inr good ↦ (ok_injective (rw good at h), is_parent-IsBelow root path (ground arith))
    ]

checked_of_below : (root path : List String) → IsBelow root path → checked root path ≡ ok path
checked_of_below root path below = let (parent, apart) = passes root path below in ground arith

outcome :
    (root path : Result (List String))
    → ((p : List String) × (contained root path ≡ ok p))
      ⊎ ((contained root path ≡ raised value_error)
          ⊎ ((e : Error) × (contained root path ≡ raised e)
              × ((root ≡ raised e) ⊎ (path ≡ raised e))))
outcome (raised e) path = inr (inr (e, refl, inl refl))
outcome (ok r) (raised e) = inr (inr (e, refl, inr refl))
outcome (ok r) (ok q) = elim (Bool-cases (same_path q r || not (is_parent r q))) [
  | inl bad ↦ inr (inl (ground arith))
  | inr good ↦ inl (q, ground arith)
]

contained_iff :
    (root path : Result (List String)) (p : List String)
    → (contained root path ≡ ok p) ↔ ResolvesBelow root path p
contained_iff (raised e) path p = (
  (λ h. absurd (grind arith)),
  (λ d. let (r, impossible, same, below) = d in absurd (grind arith)),
)
contained_iff (ok r) (raised e) p = (
  (λ h. absurd (grind arith)),
  (λ d. let (r', other, impossible, below) = d in absurd (grind arith)),
)
contained_iff (ok r) (ok q) p = (
  (λ h.
      let (same, below) = checked-IsBelow r q p h in
      (r, refl, ap ok same, subst (IsBelow r) same below)),
  (λ d.
      let (r', root, path, below) = d in
      subst (λ x. checked x q ≡ ok p) (sym (ok_injective root))
        (subst (λ x. checked r' x ≡ ok p) (sym (ok_injective path)) (checked_of_below r' p below))),
)

-- `ensure_contained` answers with a path just when the root and the path resolve and that path, to which the
-- given one resolves, is a strict descendant of the root's; where it answers with none, it raises ValueError, or
-- the exception that resolving the root or the path raised.
pub ensure_contained_iff :
    (resolve : String → Result (List String)) (path root : String)
    → ((p : List String)
        → (ensure_contained resolve path root ≡ ok p)
          ↔ ResolvesBelow (resolve root) (resolve path) p)
      × (((p : List String) × (ensure_contained resolve path root ≡ ok p))
          ⊎ ((ensure_contained resolve path root ≡ raised value_error)
              ⊎ ((e : Error) × (ensure_contained resolve path root ≡ raised e)
                  × ((resolve root ≡ raised e) ⊎ (resolve path ≡ raised e)))))
unfolding ensure_contained
ensure_contained_iff resolve path root =
    (contained_iff (resolve root) (resolve path), outcome (resolve root) (resolve path))
