-- ===== src/Transaction/Vector/Entries.antt =====
-- Every match has its entry.
use clicon.Base.{
  ◌≡◌, sym, ap, Bool, true, false, ◌&&◌, ◌||◌, List, [], ◌∷◌, ◌++◌, Option, none, some, arith, ◌⊎◌,
  inl, inr, Bool-cases, Option-cases, ◌==◌, ==_iff, eq_of_str_eq,
}
use mathlib.Core.Path.{subst}
use clicon.Proto.Types.{CString}
use clicon.Transaction.Types.{DiffEnt, Dep, DepDiff}
use clicon.Transaction.Match.{dbdep_match}
use clicon.Transaction.Vector.{
  diff_key, entry_key, is_key, has_entry, new_entry, add_entry, match_dep, match_deps, match_diffs,
  ◌>>=◌,
}
use clicon.Transaction.Vector.Kept.{OneKey, new_entry-Kept, entry_key-match}
use clicon.Transaction.Vector.Keeps.{Keeps, match_deps-Keeps, match_diffs-Keeps}

abbrev pub Any {ℓ} : {A : Type ℓ} → (A → Type 0) → List A → Type 0
Any P [] = ⊥
Any P (x ∷ xs) = P x ⊎ Any P xs

Any-left : {A : Type 0} (P : A → Type 0) (xs ys : List A) → Any P xs → Any P (xs ++ ys)
Any-left P [] ys h = absurd h
Any-left P (x ∷ xs) ys (inl h) = inl h
Any-left P (x ∷ xs) ys (inr h) = inr (Any-left P xs ys h)

Any-last : {A : Type 0} (P : A → Type 0) (xs : List A) (x : A) → P x → Any P (xs ++ x ∷ [])
Any-last P [] x h = inl h
Any-last P (y ∷ xs) x h = inr (Any-last P xs x h)

-- An entry for a difference that a dependency matches in the part `match`: of that dependency, and of
-- that very difference, or, for a tree dependency, of the same subtree.
pub record Serves (dp : Dep) (df : DiffEnt) (match : CString) (dd : DepDiff) : Type 0 where
  pub same_dep : dd.dd_dep.dp_nr ≡ dp.dp_nr
  pub same_diff : dp.dp_tree ≡ false → dd.dd_dbdiff ≡ df
  pub same_tree : dp.dp_tree ≡ true → entry_key dd ≡ some match

-- The entry is in the vector, where one is returned.
abbrev Served : Dep → DiffEnt → CString → Option (List DepDiff) → Type 0
Served dp df match none = Unit
Served dp df match (some ddvec) = Any (Serves dp df match) ddvec

or_true : (a b : Bool) → (a || b) ≡ true → (a ≡ true) ⊎ (b ≡ true)
or_true a b h = ground arith

and_true : (a b : Bool) → (a && b) ≡ true → (a ≡ true) × (b ≡ true)
and_true a b h = ground arith

is_key-some : (key : Option CString) (match : CString) → is_key key match ≡ true → key ≡ some match
is_key-some none match h = cc
is_key-some (some key) match h = ap some (sym (eq_of_str_eq match key h))

has_entry-Any :
    (df : DiffEnt) (dp : Dep) (match : CString) (ddvec : List DepDiff)
    → dp.dp_tree ≡ true
    → has_entry dp match ddvec ≡ true
    → Any (Serves dp df match) ddvec
unfolding has_entry
has_entry-Any df dp match [] tree h = absurd cc
has_entry-Any df dp match (dd ∷ ddvec) tree h =
    elim (or_true (dd.dd_dep.dp_nr == dp.dp_nr && is_key (entry_key dd) match)
      (has_entry dp match ddvec) h) [
        | inr later ↦ inr (has_entry-Any df dp match ddvec tree later)
        | inl here ↦
            let (nr, key) =
              and_true (dd.dd_dep.dp_nr == dp.dp_nr) (is_key (entry_key dd) match) here in
            inl (record {
              same_dep = (==_iff dd.dd_dep.dp_nr dp.dp_nr).0 nr;
              same_diff = λ not_tree. absurd cc;
              same_tree = λ is_tree. is_key-some (entry_key dd) match key;
            })
      ]

add_entry-Served :
    (df : DiffEnt) (dp : Dep) (key match : CString) (ddvec : List DepDiff)
    → OneKey dp
    → diff_key df ≡ some key
    → dbdep_match dp.dp_ent key ≡ some match
    → Served dp df match (add_entry df dp match ddvec)
unfolding add_entry
add_entry-Served df dp key match ddvec one hk m =
    elim (Bool-cases (dp.dp_tree && has_entry dp match ddvec)) [
      | inl e ↦
          let (tree, has) = and_true dp.dp_tree (has_entry dp match ddvec) e in
          rw (e, add_entry) (has_entry-Any df dp match ddvec tree has)
      | inr e ↦ elim (Option-cases (new_entry dp df)) [
        | inl bad ↦ rw (e, bad, add_entry) tt
        | inr (dd, new) ↦
            let kept = new_entry-Kept dp df dd new in
            rw (e, new, add_entry)
              (Any-last (Serves dp df match) ddvec dd (record {
                same_dep = ap (λ d. d.dp_nr) kept.dep_kept;
                same_diff = λ not_tree. kept.diff_kept;
                same_tree = λ tree. entry_key-match dp df dd key match new tree one hk m;
              }))
      ]
    ]

match_dep-Served :
    (df : DiffEnt) (dp : Dep) (key match : CString) (ddvec : List DepDiff)
    → OneKey dp
    → diff_key df ≡ some key
    → dbdep_match dp.dp_ent key ≡ some match
    → Served dp df match (match_dep df dp ddvec)
unfolding match_dep
match_dep-Served df dp key match ddvec one hk m =
    rw (hk, m, match_dep) (add_entry-Served df dp key match ddvec one hk m)

Served-kept :
    (dp : Dep) (df : DiffEnt) (match : CString) (ddvec : List DepDiff) (r : Option (List DepDiff))
    → Any (Serves dp df match) ddvec
    → Keeps ddvec r
    → Served dp df match r
Served-kept dp df match ddvec none h kept = tt
Served-kept dp df match ddvec (some ddvec') h (new, e) =
    subst (Any (Serves dp df match)) (sym e) (Any-left (Serves dp df match) ddvec new h)

module _ (df : DiffEnt) (dp : Dep) (match : CString) where
  bind-here :
      (r : Option (List DepDiff)) (f : List DepDiff → Option (List DepDiff))
      → Served dp df match r
      → ((ddvec : List DepDiff) → Keeps ddvec (f ddvec))
      → Served dp df match (r >>= f)
  bind-here none f h kept = tt
  bind-here (some ddvec) f h kept = Served-kept dp df match ddvec (f ddvec) h (kept ddvec)

  bind-later :
      (r : Option (List DepDiff)) (f : List DepDiff → Option (List DepDiff))
      → ((ddvec : List DepDiff) → Served dp df match (f ddvec))
      → Served dp df match (r >>= f)
  bind-later none f h = tt
  bind-later (some ddvec) f h = h ddvec

  module _ (key : CString) (hk : diff_key df ≡ some key)
      (m : dbdep_match dp.dp_ent key ≡ some match) (one : OneKey dp) where
    match_deps-Served :
        (deps : List Dep) (ddvec : List DepDiff)
        → Any (λ d. d ≡ dp) deps
        → Served dp df match (match_deps df deps ddvec)
    unfolding match_deps
    match_deps-Served [] ddvec at = absurd at
    match_deps-Served (d ∷ deps) ddvec (inl e) =
        bind-here (match_dep df d ddvec) (match_deps df deps)
          (subst (λ d. Served dp df match (match_dep df d ddvec)) (sym e)
            (match_dep-Served df dp key match ddvec one hk m))
          (match_deps-Keeps df deps)
    match_deps-Served (d ∷ deps) ddvec (inr at) =
        bind-later (match_dep df d ddvec) (match_deps df deps)
          λ ddvec'. match_deps-Served deps ddvec' at

    match_diffs-Served :
        (deps : List Dep) (dfs : List DiffEnt) (ddvec : List DepDiff)
        → Any (λ d. d ≡ dp) deps
        → Any (λ d. d ≡ df) dfs
        → Served dp df match (match_diffs deps dfs ddvec)
    unfolding match_diffs
    match_diffs-Served deps [] ddvec dep_at at = absurd at
    match_diffs-Served deps (d ∷ dfs) ddvec dep_at (inl e) =
        bind-here (match_deps d deps ddvec) (match_diffs deps dfs)
          (subst (λ d. Served dp df match (match_deps d deps ddvec)) (sym e)
            (match_deps-Served deps ddvec dep_at))
          (match_diffs-Keeps deps dfs)
    match_diffs-Served deps (d ∷ dfs) ddvec dep_at (inr at) =
        bind-later (match_deps d deps ddvec) (match_diffs deps dfs)
          λ ddvec'. match_diffs-Served deps dfs ddvec' dep_at at

-- For each difference and each dependency with one key that its key matches, the vector that the loops
-- return has an entry: of that dependency, and of that difference, or, for a tree dependency, of the
-- subtree that the key is in.
pub match_diffs-Serves :
    (deps : List Dep) (dfs : List DiffEnt) (dp : Dep) (df : DiffEnt) (key match : CString)
    (ddvec : List DepDiff)
    → Any (λ d. d ≡ dp) deps
    → Any (λ d. d ≡ df) dfs
    → OneKey dp
    → diff_key df ≡ some key
    → dbdep_match dp.dp_ent key ≡ some match
    → match_diffs deps dfs [] ≡ some ddvec
    → Any (Serves dp df match) ddvec
match_diffs-Serves deps dfs dp df key match ddvec dep_at at one hk m h =
    subst (Served dp df match) h (match_diffs-Served df dp match key hk m one deps dfs [] dep_at at)
