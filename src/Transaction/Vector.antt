-- ===== src/Transaction/Vector.antt =====
-- Dependencies and the commit vector: apps/config/config_dbdep.c.
use clicon.Base.{
  ℕ, Bool, true, false, ◌&&◌, ◌||◌, List, [], ◌∷◌, ◌++◌, Option, none, some, length, ◌==◌,
  if◌then◌else◌, str_eq,
}
use clicon.Proto.Types.{CString}
use clicon.Backend.Types.{ErrState}
use clicon.Transaction.Types.{DiffOp, op_first, op_second, op_both, Cvec, DiffEnt, Dep, DepDiff}
use clicon.Transaction.Match.{dbdep_match_key, dbdep_match}
mod Kept
mod Keeps
pub mod Unique
pub mod Registered
pub mod Entries
mod Tests

-- An error ends the construction of the vector.
infixl 5 ◌>>=◌
abbrev pub ◌>>=◌ : {A B : Type 0} → Option A → (A → Option B) → Option B
none >>= f = none
some a >>= f = f a

-- The key of an entry is the text before the first `:`.
unfoldable pub before_colon : CString → CString
before_colon [] = []
before_colon (c ∷ s) = elim (c == 58) [ true ↦ [] | false ↦ c ∷ before_colon s ]

-- The end of the list is where ADDQ puts a dependency. The number is new: dependencies are freed only
-- all at once.
unfoldable pub add_dep : Bool → Bool → Bool → List Dep → ℕ → ℕ → ℕ → CString → List Dep
add_dep tree validate commit deps prio cb arg key =
    deps
    ++ record {
      dp_nr = length deps;
      dp_row = prio;
      dp_tree = tree;
      dp_validate = validate;
      dp_commit = commit;
      dp_callback = cb;
      dp_arg = arg;
      dp_ent = before_colon key ∷ [];
    }
      ∷ []

unfoldable pub dbdep_validate : List Dep → ℕ → ℕ → ℕ → CString → List Dep
unfolding add_dep before_colon
dbdep_validate = add_dep false true false

unfoldable pub dbdep_tree_validate : List Dep → ℕ → ℕ → ℕ → CString → List Dep
unfolding add_dep before_colon
dbdep_tree_validate = add_dep true true false

unfoldable pub dbdep_tree : List Dep → ℕ → ℕ → ℕ → CString → List Dep
unfolding add_dep before_colon
dbdep_tree = add_dep true false true

unfoldable pub dbdep : List Dep → ℕ → ℕ → ℕ → CString → List Dep
unfolding add_dep before_colon
dbdep = add_dep false false true

-- `cvec_name_get`, which takes NULL as well.
abbrev pub cvec_name_get : Option Cvec → Option CString
cvec_name_get none = none
cvec_name_get (some vec) = vec.vec_name

-- The value of the first database if the key is in it, else the second's.
abbrev pub by_op : {A : Type 0} → DiffOp → A → A → A
by_op op_first first second = first
by_op op_both first second = first
by_op op_second first second = second

unfoldable pub diff_key : DiffEnt → Option CString
diff_key df = by_op df.dfe_op (cvec_name_get df.dfe_vec1) (cvec_name_get df.dfe_vec2)

unfoldable pub entry_key : DepDiff → Option CString
entry_key dd = by_op dd.dd_dbdiff.dfe_op dd.dd_mkey1 dd.dd_mkey2

abbrev is_key : Option CString → CString → Bool
is_key none match = false
is_key (some key) match = str_eq match key

-- The uniqueness test of tree dependencies: an entry of `dp` for this part of the key.
unfoldable pub has_entry : Dep → CString → List DepDiff → Bool
has_entry dp match [] = false
has_entry dp match (dd ∷ ddvec) =
    (dd.dd_dep.dp_nr == dp.dp_nr && is_key (entry_key dd) match) || has_entry dp match ddvec

-- The key that an entry keeps of a side of the difference: the matched part for a tree dependency,
-- and the name otherwise. The outer option is empty where the source reports an error.
unfoldable pub kept_key : Dep → Option CString → Option (Option CString)
kept_key dp none = some none
kept_key dp (some name) =
    if dp.dp_tree
    then elim dp.dp_ent [
      | [] ↦ none
      | dpe_key ∷ dent ↦ elim (dbdep_match_key name dpe_key) [
        | none ↦ none
        | some match ↦ some (some match)
      ]
    ]
    else some (some name)

unfoldable pub new_entry : Dep → DiffEnt → Option DepDiff
unfolding kept_key
new_entry dp df = do
  mkey1 ← kept_key dp (cvec_name_get df.dfe_vec1)
  mkey2 ← kept_key dp (cvec_name_get df.dfe_vec2)
  some (record { dd_dep = dp; dd_dbdiff = df; dd_mkey1 = mkey1; dd_mkey2 = mkey2 })

-- One round of the inner loop, for a key that matched in the part `match`.
unfoldable pub add_entry : DiffEnt → Dep → CString → List DepDiff → Option (List DepDiff)
unfolding has_entry new_entry
add_entry df dp match ddvec =
    if dp.dp_tree && has_entry dp match ddvec
    then some ddvec
    else elim (new_entry dp df) [ none ↦ none | some dd ↦ some (ddvec ++ dd ∷ []) ]

-- The source reads the key without a test whether there is one: every difference has a name on the
-- side of its operation. Without one nothing is added here.
unfoldable pub match_dep : DiffEnt → Dep → List DepDiff → Option (List DepDiff)
unfolding add_entry
match_dep df dp ddvec = elim (diff_key df) [
  | none ↦ some ddvec
  | some key ↦ elim (dbdep_match dp.dp_ent key) [
    | none ↦ some ddvec
    | some match ↦ add_entry df dp match ddvec
  ]
]

unfoldable pub match_deps : DiffEnt → List Dep → List DepDiff → Option (List DepDiff)
unfolding match_dep
match_deps df [] ddvec = some ddvec
match_deps df (dp ∷ deps) ddvec = do ddvec' ← match_dep df dp ddvec; match_deps df deps ddvec'

unfoldable pub match_diffs : List Dep → List DiffEnt → List DepDiff → Option (List DepDiff)
unfolding match_deps
match_diffs deps [] ddvec = some ddvec
match_diffs deps (df ∷ dfs) ddvec = do
  ddvec' ← match_deps df deps ddvec
  match_diffs deps dfs ddvec'

-- The vector, or the error.
unfoldable pub dbdep_commitvec :
    (List DepDiff → List DepDiff)
    → ErrState
    → List Dep
    → List DiffEnt
    → Option (List DepDiff) × Option ErrState
unfolding match_diffs
dbdep_commitvec qsort strdup_error deps dfs = elim (match_diffs deps dfs []) [
  | none ↦ (none, some strdup_error)
  | some ddvec ↦ (some (qsort ddvec), none)
]
