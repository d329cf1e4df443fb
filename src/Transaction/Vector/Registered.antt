-- ===== src/Transaction/Vector/Registered.antt =====
-- Dependencies that plugins have registered.
use clicon.Base.{
  ℕ, suc, ◌+◌, ◌≡◌, refl, ◌∙◌, Bool, true, false, not, List, [], ◌∷◌, ◌++◌, some, All, arith,
  length,
}
use clicon.Proto.Types.{CString}
use clicon.Transaction.Types.{DiffEnt, Dep, DepDiff}
use clicon.Transaction.Vector.{
  before_colon, add_dep, dbdep, dbdep_tree, dbdep_validate, dbdep_tree_validate, match_diffs,
}
use clicon.Transaction.Vector.Kept.{OneKey}
use clicon.Transaction.Vector.Unique.{Unique, match_diffs-Unique}

-- The lists that calls of the four functions make, from none.
pub data Registered : List Dep → Type 0 where
  nothing : Registered []
  by_dbdep :
      (deps : List Dep) (prio cb arg : ℕ) (key : CString)
      → Registered deps
      → Registered (dbdep deps prio cb arg key)
  by_dbdep_tree :
      (deps : List Dep) (prio cb arg : ℕ) (key : CString)
      → Registered deps
      → Registered (dbdep_tree deps prio cb arg key)
  by_dbdep_validate :
      (deps : List Dep) (prio cb arg : ℕ) (key : CString)
      → Registered deps
      → Registered (dbdep_validate deps prio cb arg key)
  by_dbdep_tree_validate :
      (deps : List Dep) (prio cb arg : ℕ) (key : CString)
      → Registered deps
      → Registered (dbdep_tree_validate deps prio cb arg key)

-- The numbers of the dependencies count up from `n`, and each does one of two things: it validates or
-- it commits.
unfoldable pub Listed : ℕ → List Dep → Type 0
Listed n [] = Unit
Listed n (dp ∷ deps) =
    (dp.dp_nr ≡ n) × (dp.dp_commit ≡ not dp.dp_validate) × OneKey dp × Listed (suc n) deps

Listed-snoc :
    (n : ℕ) (deps : List Dep) (dp : Dep)
    → Listed n deps
    → dp.dp_nr ≡ length deps + n
    → dp.dp_commit ≡ not dp.dp_validate
    → OneKey dp
    → Listed n (deps ++ dp ∷ [])
unfolding Listed
Listed-snoc n [] dp listed nr does one = (nr ∙ omega arith, does, one, tt)
Listed-snoc n (d ∷ deps) dp (here, d_does, d_one, listed) nr does one =
    (here, d_does, d_one, Listed-snoc (suc n) deps dp listed (nr ∙ omega arith) does one)

add_dep-Listed :
    (whole validate : Bool) (deps : List Dep) (prio cb arg : ℕ) (key : CString)
    → Listed 0 deps
    → Listed 0 (add_dep whole validate (not validate) deps prio cb arg key)
unfolding add_dep
add_dep-Listed whole validate deps prio cb arg key listed =
    Listed-snoc 0 deps _ listed (omega arith) refl (before_colon key, refl)

Listed-OneKey : (n : ℕ) (deps : List Dep) → Listed n deps → All OneKey deps
unfolding Listed
Listed-OneKey n [] listed = tt
Listed-OneKey n (dp ∷ deps) (nr, does, one, listed) = (one, Listed-OneKey (suc n) deps listed)

-- Whatever plugins add_dep, in whatever order: the dependencies are numbered in the order of
-- registration, each is for validation or for commit and not both, and each has one key.
pub Registered-Listed : (deps : List Dep) → Registered deps → Listed 0 deps
unfolding Listed dbdep dbdep_tree dbdep_validate dbdep_tree_validate
Registered-Listed deps nothing = tt
Registered-Listed deps (by_dbdep deps' prio cb arg key r) =
    add_dep-Listed false false deps' prio cb arg key (Registered-Listed deps' r)
Registered-Listed deps (by_dbdep_tree deps' prio cb arg key r) =
    add_dep-Listed true false deps' prio cb arg key (Registered-Listed deps' r)
Registered-Listed deps (by_dbdep_validate deps' prio cb arg key r) =
    add_dep-Listed false true deps' prio cb arg key (Registered-Listed deps' r)
Registered-Listed deps (by_dbdep_tree_validate deps' prio cb arg key r) =
    add_dep-Listed true true deps' prio cb arg key (Registered-Listed deps' r)

-- With the dependencies that plugins have registered, the loops over differences and dependencies
-- make a vector in which no two entries belong to the same tree dependency and the same subtree.
pub Registered-Unique :
    (deps : List Dep) (dfs : List DiffEnt) (ddvec : List DepDiff)
    → Registered deps
    → match_diffs deps dfs [] ≡ some ddvec
    → Unique ddvec
Registered-Unique deps dfs ddvec r =
    match_diffs-Unique deps dfs ddvec (Listed-OneKey 0 deps (Registered-Listed deps r))
