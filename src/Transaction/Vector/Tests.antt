-- ===== src/Transaction/Vector/Tests.antt =====
-- Keys of a small database.
use clicon.Base.{ℕ, ◌≡◌, refl, true, false, List, [], ◌∷◌, none, some, inl, inr, ◌↔◌, str_eq}
use clicon.Proto.Types.{CString}
use clicon.Transaction.Types.{op_second, DiffEnt, Dep, DepDiff}
use clicon.Transaction.Match.{dbdep_match_key, dbdep_match}
use clicon.Transaction.Match.Pattern.{Piece, char, index}
use clicon.Transaction.Match.Literal.{Within, dbdep_match_key-Plain}
use clicon.Transaction.Vector.{dbdep, dbdep_tree, diff_key, entry_key, match_diffs}
use clicon.Transaction.Vector.Unique.{Unique}
use clicon.Transaction.Vector.Registered.{nothing, by_dbdep, by_dbdep_tree, Registered-Unique}
use clicon.Transaction.Vector.Entries.{Any, Serves, match_diffs-Serves}

-- "a.12.b", and ".c" below it.
abbrev pieces : List Piece
pieces = char 97 ∷ index 49 (50 ∷ []) ∷ char 46 ∷ char 98 ∷ []

-- The key "a" and the pattern "ab".
dbdep_match_key-Plain_example :
    ((t : CString) × (dbdep_match_key (97 ∷ []) (97 ∷ 98 ∷ []) ≡ some t))
    ↔ Within (97 ∷ 98 ∷ []) (97 ∷ [])
dbdep_match_key-Plain_example =
    dbdep_match_key-Plain (97 ∷ 98 ∷ []) (97 ∷ []) ((refl, refl), ((refl, refl), tt))

-- "a*" for a tree and for each key.
abbrev registered_deps : List Dep
registered_deps = dbdep (dbdep_tree [] 3 1 0 (97 ∷ 42 ∷ [])) 4 2 0 (97 ∷ 42 ∷ [])

abbrev added : ℕ → DiffEnt
added c = record {
  dfe_vec1 = none;
  dfe_vec2 = some (record { vec_name = some (97 ∷ c ∷ []); vec_content = [] });
  dfe_op = op_second;
}

abbrev entry_of : Dep → DiffEnt → CString → DepDiff
entry_of dp df mkey2 = record {
  dd_dep = dp;
  dd_dbdiff = df;
  dd_mkey1 = none;
  dd_mkey2 = some mkey2;
}

abbrev tree_dep : Dep
tree_dep = record {
  dp_nr = 0;
  dp_row = 3;
  dp_tree = true;
  dp_validate = false;
  dp_commit = true;
  dp_callback = 1;
  dp_arg = 0;
  dp_ent = (97 ∷ 42 ∷ []) ∷ [];
}

abbrev key_dep : Dep
key_dep = record {
  dp_nr = 1;
  dp_row = 4;
  dp_tree = false;
  dp_validate = false;
  dp_commit = true;
  dp_callback = 2;
  dp_arg = 0;
  dp_ent = (97 ∷ 42 ∷ []) ∷ [];
}

-- Two differences in the tree give one entry of the tree dependency and two of the other.
abbrev expected_vector : List DepDiff
expected_vector =
    entry_of tree_dep (added 98) (97 ∷ [])
    ∷ entry_of key_dep (added 98) (97 ∷ 98 ∷ [])
    ∷ entry_of key_dep (added 99) (97 ∷ 99 ∷ [])
    ∷ []

Registered-Unique_example : Unique expected_vector
unfolding match_diffs dbdep dbdep_tree diff_key dbdep_match entry_key str_eq
Registered-Unique_example =
    Registered-Unique registered_deps (added 98 ∷ added 99 ∷ []) expected_vector
      (by_dbdep (dbdep_tree [] 3 1 0 (97 ∷ 42 ∷ [])) 4 2 0 (97 ∷ 42 ∷ [])
        (by_dbdep_tree [] 3 1 0 (97 ∷ 42 ∷ []) nothing))
      refl

match_diffs-Serves_example : Any (Serves tree_dep (added 99) (97 ∷ [])) expected_vector
unfolding match_diffs dbdep dbdep_tree diff_key dbdep_match entry_key str_eq
match_diffs-Serves_example =
    match_diffs-Serves registered_deps (added 98 ∷ added 99 ∷ []) tree_dep (added 99) (97 ∷ 99 ∷ [])
      (97 ∷ []) expected_vector (inl refl) (inr (inl refl)) (97 ∷ 42 ∷ [], refl) refl refl refl
