-- ===== src/Backend/Lineage.antt =====
-- paw_kit/backend/manifest_lineage.py: what of a manifest goes to its history, and how the history file is kept
-- short. A manifest is a table of values; an example is one too, where it is a dictionary at all. `json.dumps`
-- of an entry and the hash are parameters; permissions and the sync of the file are left out.
use paw_toolkit.Prelude.{
  ℕ, ◌+◌, ◌≤◌, ◌≡◌, ◌⊎◌, inl, inr, refl, String, List, [], ◌∷◌, ◌++◌, Option, none, some, Bool,
  true, false, append, leb, if◌then◌else◌, arith, leb→le, Bool-cases, lookup, str_eq, str_eq_iff,
  length, get_or, All, all, not,
}
use Prim.Native.String.{len}
use paw_toolkit.Harness.Fuzzer.{contains}

abbrev pub history_allowed_fields : List String
history_allowed_fields =
    "backend" ∷ "manifest_version" ∷ "program_id" ∷ "slug" ∷ "cached_program_id" ∷ "compiler"
    ∷ "compiler_snapshot" ∷ "status" ∷ "spec_sha256" ∷ "full_spec_sha256" ∷ "examples_count"
    ∷ "examples_folded_into_spec" ∷ "folded_example_ids" ∷ "public_requested" ∷ "public_confirmed"
    ∷ "public_confirmed_reason" ∷ "public" ∷ "ephemeral" ∷ "cache_hit" ∷ "parent_program_id"
    ∷ "parent_manifest_sha256" ∷ "compile_wall_s" ∷ "compiled_at" ∷ []

-- The keys of `_HISTORY_EXCLUDED_FIELDS`, whose values are its reasons.
abbrev pub history_excluded_fields : List String
history_excluded_fields = "spec" ∷ "examples" ∷ "rules" ∷ "default_response" ∷ []

-- `{k: v for k, v in manifest.items() if k in allowed}`
unfoldable pub only : {V : Type 0} → List String → List (String × V) → List (String × V)
unfolding contains
only allowed [] = []
only allowed ((k, v) ∷ manifest) =
    if contains k allowed then (k, v) ∷ only allowed manifest else only allowed manifest

unfoldable pub entry_of : {V : Type 0} → List (String × V) → List (String × V)
unfolding only
entry_of manifest = only history_allowed_fields manifest

-- A line of the history file. Its end is part of it, and its size is that of its UTF-8.
pub record Sidecar : Type 0 where
  -- The live file, where there is one, and the generation before it.
  pub live : Option (List String)
  pub rotated : Option (List String)

abbrev pub size_of : List String → ℕ
size_of [] = 0
size_of (line ∷ lines) = len line + size_of lines

abbrev pub history_max_bytes : ℕ
history_max_bytes = 1048576

-- What `os.replace` did.
abbrev pub moved : Bool → List String → Sidecar → Sidecar
moved true lines s = record { live = none; rotated = some lines }
moved false lines s = s

abbrev pub rotate_lines : Bool → ℕ → Sidecar → Option (List String) → Sidecar
rotate_lines renames incoming s none = s
rotate_lines renames incoming s (some lines) =
    if leb (size_of lines + incoming) history_max_bytes then s else moved renames lines s

-- `_rotate_history_if_full`. The rename may fail, and then nothing is moved.
unfoldable pub rotate_history_if_full : Bool → ℕ → Sidecar → Sidecar
rotate_history_if_full renames incoming s = rotate_lines renames incoming s s.live

abbrev pub with_line : String → Sidecar → Sidecar
with_line line s = record { live = some (get_or s.live [] ++ (line ∷ [])); rotated = s.rotated }

unfoldable pub append_history_entry :
    {V : Type 0} → (List (String × V) → String) → Bool → List (String × V) → Sidecar → Sidecar
unfolding entry_of rotate_history_if_full
append_history_entry dumps renames manifest s =
    let line = append (dumps (entry_of manifest)) "\n" in
    with_line line (rotate_history_if_full renames (len line) s)

lookup-only :
    {V : Type 0} (k : String) (allowed : List String) (manifest : List (String × V))
    → lookup k (only allowed manifest) ≡ (if contains k allowed then lookup k manifest else none)
unfolding lookup only
lookup-only k allowed [] = ground arith
lookup-only k allowed ((j, v) ∷ manifest) = grind (
  arith,
  lookup-only k allowed manifest,
  str_eq_iff j k,
  Bool-cases (str_eq j k),
  Bool-cases (contains j allowed),
  Bool-cases (contains k allowed),
)

-- The history entry of a manifest has the allowed fields with the manifest's own values, and no other field.
pub lookup-entry_of :
    {V : Type 0} (k : String) (manifest : List (String × V))
    → lookup k (entry_of manifest)
      ≡ (if contains k history_allowed_fields then lookup k manifest else none)
unfolding entry_of
lookup-entry_of k manifest = lookup-only k history_allowed_fields manifest

none_allowed : all (λ k. not (contains k history_allowed_fields)) history_excluded_fields ≡ true
unfolding contains
none_allowed = refl

all_allowed : all (λ k. contains k history_allowed_fields) history_allowed_fields ≡ true
unfolding contains
all_allowed = refl

module _ {V : Type 0} (manifest : List (String × V)) where
  excluded-none :
      (ks : List String)
      → all (λ k. not (contains k history_allowed_fields)) ks ≡ true
      → All (λ k. lookup k (entry_of manifest) ≡ none) ks
  excluded-none [] h = tt
  excluded-none (k ∷ ks) h =
      (ground (arith, lookup-entry_of k manifest), excluded-none ks (ground arith))

  allowed-same :
      (ks : List String)
      → all (λ k. contains k history_allowed_fields) ks ≡ true
      → All (λ k. lookup k (entry_of manifest) ≡ lookup k manifest) ks
  allowed-same [] h = tt
  allowed-same (k ∷ ks) h =
      (ground (arith, lookup-entry_of k manifest), allowed-same ks (ground arith))

  -- No excluded field of a manifest, the spec and the examples among them, is in its history entry; and each
  -- allowed field has there the manifest's own value.
  pub entry_of-excluded :
      All (λ k. lookup k (entry_of manifest) ≡ none) history_excluded_fields
      × All (λ k. lookup k (entry_of manifest) ≡ lookup k manifest) history_allowed_fields
  entry_of-excluded = (
    excluded-none history_excluded_fields none_allowed,
    allowed-same history_allowed_fields all_allowed,
  )

size_of-append : (xs ys : List String) → size_of (xs ++ ys) ≡ size_of xs + size_of ys
size_of-append [] ys = omega arith
size_of-append (x ∷ xs) ys = omega (arith, size_of-append xs ys)

-- A history file within its cap, or with no more than one line.
abbrev pub IsShort : Option (List String) → Type 0
IsShort none = Unit
IsShort (some lines) = (size_of lines ≤ history_max_bytes) ⊎ (length lines ≤ 1)

IsShort-after :
    (line : String) (s : Sidecar) (live : Option (List String))
    → s.live ≡ live
    → IsShort (with_line line (rotate_lines true (len line) s live)).live
IsShort-after line s none h = rw h (inr (omega arith))
IsShort-after line s (some lines) h =
    elim (Bool-cases (leb (size_of lines + len line) history_max_bytes)) [
      | inl fits ↦
          rw (fits, h) (inl (omega (arith, leb→le _ _ fits, size_of-append lines (line ∷ []))))
      | inr full ↦ rw full (inr (omega arith))
    ]

-- Where the rename succeeds, an append leaves a history file that is within its cap, or is the one new line,
-- whatever the file was like before.
pub append_history_entry-IsShort :
    {V : Type 0} (dumps : List (String × V) → String) (manifest : List (String × V)) (s : Sidecar)
    → IsShort (append_history_entry dumps true manifest s).live
unfolding append_history_entry rotate_history_if_full
append_history_entry-IsShort dumps manifest s =
    IsShort-after (append (dumps (entry_of manifest)) "\n") s s.live refl
