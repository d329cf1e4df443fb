-- ===== src/Transaction/Vector/Kept.antt =====
-- What an entry of the commit vector keeps of its dependency and difference.
use clicon.Base.{◌≡◌, refl, sym, ap, ◌∙◌, true, [], ◌∷◌, Option, none, some, inl, inr, Option-cases}
use clicon.Proto.Types.{CString}
use clicon.Transaction.Types.{DiffOp, op_first, op_second, op_both, DiffEnt, Dep, DepDiff}
use clicon.Transaction.Match.{dbdep_match_key, dbdep_match}
use clicon.Transaction.Vector.{
  cvec_name_get, by_op, diff_key, entry_key, kept_key, new_entry, ◌>>=◌,
}

-- Dependencies as they are registered: with one key.
abbrev pub OneKey : Dep → Type 0
OneKey dp = (dpe_key : CString) × (dp.dp_ent ≡ dpe_key ∷ [])

-- What an entry keeps of its dependency and difference.
pub record Kept (dp : Dep) (df : DiffEnt) (dd : DepDiff) : Type 0 where
  pub dep_kept : dd.dd_dep ≡ dp
  pub diff_kept : dd.dd_dbdiff ≡ df
  pub key_kept : kept_key dp (diff_key df) ≡ some (entry_key dd)

by_op-ap :
    {A B : Type 0} (f : A → B) (op : DiffOp) (a b : A) → f (by_op op a b) ≡ by_op op (f a) (f b)
by_op-ap f op_first a b = refl
by_op-ap f op_second a b = refl
by_op-ap f op_both a b = refl

abbrev made_entry : Dep → DiffEnt → Option CString → Option CString → DepDiff
made_entry dp df mkey1 mkey2 = record {
  dd_dep = dp;
  dd_dbdiff = df;
  dd_mkey1 = mkey1;
  dd_mkey2 = mkey2;
}

made-Kept :
    (dp : Dep) (df : DiffEnt) (dd : DepDiff) (k1 k2 : Option (Option CString))
    → (k1 >>= λ mkey1. k2 >>= λ mkey2. some (made_entry dp df mkey1 mkey2)) ≡ some dd
    → (dd.dd_dep ≡ dp) × (dd.dd_dbdiff ≡ df) × (by_op df.dfe_op k1 k2 ≡ some (entry_key dd))
unfolding entry_key
made-Kept dp df dd none k2 h = absurd cc
made-Kept dp df dd (some m1) none h = absurd cc
made-Kept dp df dd (some m1) (some m2) h =
    let made = made_entry dp df m1 m2 in
    let e : made ≡ dd = ap (λ x. (elim x [ none ↦ made | some d ↦ d ])) h in
    (
      ap (λ d. d.dd_dep) (sym e),
      ap (λ d. d.dd_dbdiff) (sym e),
      sym (by_op-ap some df.dfe_op m1 m2) ∙ ap (λ d. some (entry_key d)) e,
    )

pub new_entry-Kept :
    (dp : Dep) (df : DiffEnt) (dd : DepDiff) → new_entry dp df ≡ some dd → Kept dp df dd
unfolding new_entry diff_key
new_entry-Kept dp df dd h =
    let name1 = cvec_name_get df.dfe_vec1 in
    let name2 = cvec_name_get df.dfe_vec2 in
    let (dep, diff, key) = made-Kept dp df dd (kept_key dp name1) (kept_key dp name2) h in
    record {
      dep_kept = dep;
      diff_kept = diff;
      key_kept = by_op-ap (kept_key dp) df.dfe_op name1 name2 ∙ key;
    }

match-one :
    (key dpe_key match : CString)
    → dbdep_match (dpe_key ∷ []) key ≡ some match
    → dbdep_match_key key dpe_key ≡ some match
unfolding dbdep_match
match-one key dpe_key match = elim (Option-cases (dbdep_match_key key dpe_key)) [
  | inl e ↦ rw (e, dbdep_match) (λ h. absurd cc)
  | inr (part, e) ↦ rw (e, dbdep_match) (λ h. h)
]

-- For a tree dependency with one key the kept key is the part that matched.
kept-match :
    (dp : Dep) (key match : CString)
    → dp.dp_tree ≡ true
    → OneKey dp
    → dbdep_match dp.dp_ent key ≡ some match
    → kept_key dp (some key) ≡ some (some match)
unfolding kept_key
kept-match dp key match tree (dpe_key, ent) m =
    let one = match-one key dpe_key match (ap (λ e. dbdep_match e key) (sym ent) ∙ m) in
    rw (tree, ent, one) refl

pub entry_key-match :
    (dp : Dep) (df : DiffEnt) (dd : DepDiff) (key match : CString)
    → new_entry dp df ≡ some dd
    → dp.dp_tree ≡ true
    → OneKey dp
    → diff_key df ≡ some key
    → dbdep_match dp.dp_ent key ≡ some match
    → entry_key dd ≡ some match
entry_key-match dp df dd key match new tree one hk m =
    let same : some (entry_key dd) ≡ some (some match) =
      sym (new_entry-Kept dp df dd new).key_kept
      ∙ ap (kept_key dp) hk
      ∙ kept-match dp key match tree one m in
    ap (λ x. (elim x [ none ↦ none | some k ↦ k ])) same
