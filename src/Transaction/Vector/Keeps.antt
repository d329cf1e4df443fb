-- ===== src/Transaction/Vector/Keeps.antt =====
-- The loops that make the commit vector only add entries.
use clicon.Base.{
  ◌≡◌, refl, sym, ap, ◌∙◌, ◌&&◌, List, [], ◌∷◌, ◌++◌, Option, none, some, inl, inr, Bool-cases,
  Option-cases, append_assoc, append-nil,
}
use clicon.Proto.Types.{CString}
use clicon.Transaction.Types.{DiffEnt, Dep, DepDiff}
use clicon.Transaction.Match.{dbdep_match}
use clicon.Transaction.Vector.{
  diff_key, has_entry, new_entry, add_entry, match_dep, match_deps, match_diffs, ◌>>=◌,
}

-- A part of the construction that returns a vector keeps the entries that there were.
abbrev pub Keeps : List DepDiff → Option (List DepDiff) → Type 0
Keeps ddvec none = Unit
Keeps ddvec (some ddvec') = (new : List DepDiff) × (ddvec' ≡ ddvec ++ new)

pub add_entry-Keeps :
    (df : DiffEnt) (dp : Dep) (match : CString) (ddvec : List DepDiff)
    → Keeps ddvec (add_entry df dp match ddvec)
unfolding add_entry
add_entry-Keeps df dp match ddvec = elim (Bool-cases (dp.dp_tree && has_entry dp match ddvec)) [
  | inl e ↦ rw (e, add_entry) ([], sym (append-nil ddvec))
  | inr e ↦ elim (Option-cases (new_entry dp df)) [
    | inl bad ↦ rw (e, bad, add_entry) tt
    | inr (dd, new) ↦ rw (e, new, add_entry) (dd ∷ [], refl)
  ]
]

pub match_dep-Keeps :
    (df : DiffEnt) (dp : Dep) (ddvec : List DepDiff) → Keeps ddvec (match_dep df dp ddvec)
unfolding match_dep
match_dep-Keeps df dp ddvec = elim (Option-cases (diff_key df)) [
  | inl e ↦ rw (e, match_dep) ([], sym (append-nil ddvec))
  | inr (key, e) ↦ elim (Option-cases (dbdep_match dp.dp_ent key)) [
    | inl differ ↦ rw (e, differ, match_dep) ([], sym (append-nil ddvec))
    | inr (match, m) ↦ rw (e, m, match_dep) (add_entry-Keeps df dp match ddvec)
  ]
]

Keeps-behind :
    (ddvec ddvec' new : List DepDiff) (r : Option (List DepDiff))
    → ddvec' ≡ ddvec ++ new
    → Keeps ddvec' r
    → Keeps ddvec r
Keeps-behind ddvec ddvec' new none e kept = tt
Keeps-behind ddvec ddvec' new (some ddvec'') e (more, e') =
    (new ++ more, e' ∙ ap (λ v. v ++ more) e ∙ append_assoc ddvec new more)

bind-Keeps :
    (ddvec : List DepDiff) (r : Option (List DepDiff)) (f : List DepDiff → Option (List DepDiff))
    → Keeps ddvec r
    → ((ddvec' : List DepDiff) → Keeps ddvec' (f ddvec'))
    → Keeps ddvec (r >>= f)
bind-Keeps ddvec none f kept h = tt
bind-Keeps ddvec (some ddvec') f (new, e) h = Keeps-behind ddvec ddvec' new (f ddvec') e (h ddvec')

pub match_deps-Keeps :
    (df : DiffEnt) (deps : List Dep) (ddvec : List DepDiff) → Keeps ddvec (match_deps df deps ddvec)
unfolding match_deps
match_deps-Keeps df [] ddvec = ([], sym (append-nil ddvec))
match_deps-Keeps df (dp ∷ deps) ddvec =
    bind-Keeps ddvec (match_dep df dp ddvec) (match_deps df deps) (match_dep-Keeps df dp ddvec)
      (match_deps-Keeps df deps)

pub match_diffs-Keeps :
    (deps : List Dep) (dfs : List DiffEnt) (ddvec : List DepDiff)
    → Keeps ddvec (match_diffs deps dfs ddvec)
unfolding match_diffs
match_diffs-Keeps deps [] ddvec = ([], sym (append-nil ddvec))
match_diffs-Keeps deps (df ∷ dfs) ddvec =
    bind-Keeps ddvec (match_deps df deps ddvec) (match_diffs deps dfs)
      (match_deps-Keeps df deps ddvec) (match_diffs-Keeps deps dfs)
