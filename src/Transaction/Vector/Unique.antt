-- ===== src/Transaction/Vector/Unique.antt =====
-- At most one entry for each subtree that a tree dependency watches.
use clicon.Base.{
  ◌≡◌, sym, ap, ◌∙◌, Bool, true, false, ◌&&◌, ◌||◌, List, [], ◌∷◌, ◌++◌, Option, none, some, All,
  arith, inl, inr, Bool-cases, Option-cases, ◌==◌, ==_iff, str_eq_refl,
}
use mathlib.Core.Path.{subst}
use clicon.Proto.Types.{CString}
use clicon.Transaction.Types.{DiffEnt, Dep, DepDiff}
use clicon.Transaction.Match.{dbdep_match}
use clicon.Transaction.Vector.{
  diff_key, entry_key, is_key, has_entry, new_entry, add_entry, match_dep, match_deps, match_diffs,
  ◌>>=◌,
}
use clicon.Transaction.Vector.Kept.{OneKey, new_entry-Kept, entry_key-match}

-- The two entries are not of the same tree dependency and subtree. The subtree is the key that the
-- entry keeps on the side of its operation.
unfoldable pub Apart : DepDiff → DepDiff → Type 0
Apart later earlier =
    later.dd_dep.dp_tree ≡ true
    → later.dd_dep.dp_nr ≡ earlier.dd_dep.dp_nr
    → entry_key later ≡ entry_key earlier
    → ⊥

unfoldable pub Unique : List DepDiff → Type 0
unfolding Apart
Unique [] = Unit
Unique (dd ∷ ddvec) = All (λ later. Apart later dd) ddvec × Unique ddvec

All-snoc :
    {A : Type 0} (P : A → Type 0) (xs : List A) (x : A) → All P xs → P x → All P (xs ++ x ∷ [])
All-snoc P [] x h p = (p, tt)
All-snoc P (y ∷ xs) x (hy, h) p = (hy, All-snoc P xs x h p)

Unique-snoc :
    (ddvec : List DepDiff) (new : DepDiff)
    → Unique ddvec
    → All (Apart new) ddvec
    → Unique (ddvec ++ new ∷ [])
unfolding Unique Apart
Unique-snoc [] new u apart = (tt, tt)
Unique-snoc (dd ∷ ddvec) new (later, u) (here, apart) =
    (All-snoc (λ later. Apart later dd) ddvec new later here, Unique-snoc ddvec new u apart)

or_false : (a b : Bool) → (a || b) ≡ false → (a ≡ false) × (b ≡ false)
or_false a b h = ground arith

and_false : (a b : Bool) → (a && b) ≡ false → a ≡ true → b ≡ true → ⊥
and_false a b h ha hb = ground arith

-- An entry for the part `match` does not pass the test of an entry for the same part.
is_key-same :
    (dd : DepDiff) (match : CString)
    → entry_key dd ≡ some match
    → is_key (entry_key dd) match ≡ true
is_key-same dd match e = ap (λ k. is_key k match) e ∙ str_eq_refl match

absent-Apart :
    (dp : Dep) (match : CString) (new : DepDiff) (ddvec : List DepDiff)
    → new.dd_dep.dp_nr ≡ dp.dp_nr
    → entry_key new ≡ some match
    → has_entry dp match ddvec ≡ false
    → All (Apart new) ddvec
unfolding has_entry Apart
absent-Apart dp match new [] hd hk h = tt
absent-Apart dp match new (dd ∷ ddvec) hd hk h =
    let (no_dd, no_rest) =
      or_false (dd.dd_dep.dp_nr == dp.dp_nr && is_key (entry_key dd) match)
        (has_entry dp match ddvec) h in
    (
      λ tree nr key.
          let same_nr : (dd.dd_dep.dp_nr == dp.dp_nr) ≡ true =
            (==_iff dd.dd_dep.dp_nr dp.dp_nr).1 (sym nr ∙ hd) in
          let same_key = is_key-same dd match (sym key ∙ hk) in
          absurd (and_false _ _ no_dd same_nr same_key),
      absent-Apart dp match new ddvec hd hk no_rest,
    )

not_tree-Apart :
    (new : DepDiff) (ddvec : List DepDiff) → new.dd_dep.dp_tree ≡ false → All (Apart new) ddvec
unfolding Apart
not_tree-Apart new [] h = tt
not_tree-Apart new (dd ∷ ddvec) h = (λ tree nr key. cc, not_tree-Apart new ddvec h)

-- A vector that a part of the construction may return.
abbrev UniqueIf : Option (List DepDiff) → Type 0
UniqueIf none = Unit
UniqueIf (some ddvec) = Unique ddvec

new_entry-Apart :
    (dp : Dep) (df : DiffEnt) (dd : DepDiff) (key match : CString) (ddvec : List DepDiff)
    → new_entry dp df ≡ some dd
    → OneKey dp
    → diff_key df ≡ some key
    → dbdep_match dp.dp_ent key ≡ some match
    → (dp.dp_tree && has_entry dp match ddvec) ≡ false
    → All (Apart dd) ddvec
new_entry-Apart dp df dd key match ddvec new one hk m test =
    let dep = (new_entry-Kept dp df dd new).dep_kept in
    elim (Bool-cases dp.dp_tree) [
      | inr e ↦ not_tree-Apart dd ddvec (ap (λ d. d.dp_tree) dep ∙ e)
      | inl e ↦
          absent-Apart dp match dd ddvec (ap (λ d. d.dp_nr) dep)
            (entry_key-match dp df dd key match new e one hk m)
            (ap (λ b. b && has_entry dp match ddvec) (sym e) ∙ test)
    ]

add_entry-Unique :
    (df : DiffEnt) (dp : Dep) (key match : CString) (ddvec : List DepDiff)
    → OneKey dp
    → diff_key df ≡ some key
    → dbdep_match dp.dp_ent key ≡ some match
    → Unique ddvec
    → UniqueIf (add_entry df dp match ddvec)
unfolding add_entry
add_entry-Unique df dp key match ddvec one hk m u =
    elim (Bool-cases (dp.dp_tree && has_entry dp match ddvec)) [
      | inl e ↦ rw (e, add_entry) u
      | inr e ↦ elim (Option-cases (new_entry dp df)) [
        | inl bad ↦ rw (e, bad, add_entry) tt
        | inr (dd, new) ↦
            rw (e, new, add_entry)
              (Unique-snoc ddvec dd u (new_entry-Apart dp df dd key match ddvec new one hk m e))
      ]
    ]

match_dep-Unique :
    (df : DiffEnt) (dp : Dep) (ddvec : List DepDiff)
    → OneKey dp
    → Unique ddvec
    → UniqueIf (match_dep df dp ddvec)
unfolding match_dep
match_dep-Unique df dp ddvec one u = elim (Option-cases (diff_key df)) [
  | inl e ↦ rw (e, match_dep) u
  | inr (key, e) ↦ elim (Option-cases (dbdep_match dp.dp_ent key)) [
    | inl differ ↦ rw (e, differ, match_dep) u
    | inr (match, m) ↦ rw (e, m, match_dep) (add_entry-Unique df dp key match ddvec one e m u)
  ]
]

bind-Unique :
    (r : Option (List DepDiff)) (f : List DepDiff → Option (List DepDiff))
    → UniqueIf r
    → ((ddvec : List DepDiff) → Unique ddvec → UniqueIf (f ddvec))
    → UniqueIf (r >>= f)
bind-Unique none f u h = tt
bind-Unique (some ddvec) f u h = h ddvec u

match_deps-Unique :
    (df : DiffEnt) (deps : List Dep) (ddvec : List DepDiff)
    → All OneKey deps
    → Unique ddvec
    → UniqueIf (match_deps df deps ddvec)
unfolding match_deps
match_deps-Unique df [] ddvec ones u = u
match_deps-Unique df (dp ∷ deps) ddvec (one, ones) u =
    bind-Unique (match_dep df dp ddvec) (match_deps df deps) (match_dep-Unique df dp ddvec one u)
      λ ddvec' u'. match_deps-Unique df deps ddvec' ones u'

match_diffs-UniqueIf :
    (deps : List Dep) (dfs : List DiffEnt) (ddvec : List DepDiff)
    → All OneKey deps
    → Unique ddvec
    → UniqueIf (match_diffs deps dfs ddvec)
unfolding match_diffs
match_diffs-UniqueIf deps [] ddvec ones u = u
match_diffs-UniqueIf deps (df ∷ dfs) ddvec ones u =
    bind-Unique (match_deps df deps ddvec) (match_diffs deps dfs)
      (match_deps-Unique df deps ddvec ones u)
      λ ddvec' u'. match_diffs-UniqueIf deps dfs ddvec' ones u'

-- A vector that the loops return, where every dependency has one key.
pub match_diffs-Unique :
    (deps : List Dep) (dfs : List DiffEnt) (ddvec : List DepDiff)
    → All OneKey deps
    → match_diffs deps dfs [] ≡ some ddvec
    → Unique ddvec
unfolding Unique
match_diffs-Unique deps dfs ddvec ones h =
    subst UniqueIf h (match_diffs-UniqueIf deps dfs [] ones tt)
