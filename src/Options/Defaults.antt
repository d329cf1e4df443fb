-- ===== src/Options/Defaults.antt =====
-- The options that are set when they have no value: lib/src/clicon_options.c.
use clicon.Base.{
  ℕ, ◌+◌, ◌≡◌, refl, sym, ap, ◌∙◌, Bool, true, false, ◌&&◌, not, List, [], ◌∷◌, ◌++◌, Option, none,
  some, if◌then◌else◌, str_eq, Option-cases, Bool-cases, inl, inr, eq_of_str_eq, str_eq_refl, All,
}
use mathlib.Core.Path.{subst}
use clicon.Proto.Types.{CString, strlen}
use clicon.Hash.Table.{Table, Entry, Memory, hash_lookup, hash_value, hash_add, add_new, value_of}
use clicon.Hash.Laws.{enough, hash_value-hash_add}
use clicon.Options.{with_nul, string_at, clicon_option_exists, is_some}
use clicon.Options.Names.{
  appdir_name, cli_dir_name, clispec_dir_name, backend_dir_name, netconf_dir_name, running_db_name,
  candidate_db_name, dbspec_type_name, dbspec_file_name, yang_dir_name, yang_module_main_name,
  archive_dir_name, startup_config_name, sock_name, backend_pidfile_name, sock_group_name,
  cli_mode_name, master_plugin_name, cli_genmodel_name, cli_genmodel_type_name, autocommit_name,
  commit_order_name, cli_varonly_name, cli_genmodel_completion_name,
}
pub mod Kept
pub mod Values

-- An option with its value for an application directory, and whether chunk_sprintf makes that.
pub record Default : Type 0 where
  pub name : CString
  pub value_in : CString → CString
  pub by_chunk : Bool

abbrev under : CString → CString → Default
under name path = record { name = name; value_in = λ dir. dir ++ path; by_chunk = true }

abbrev plain : CString → CString → Default
plain name val = record { name = name; value_in = λ dir. val; by_chunk = false }

unfoldable pub defaults : List Default
defaults =
    under cli_dir_name (47 ∷ 99 ∷ 108 ∷ 105 ∷ [])
    ∷ under clispec_dir_name (47 ∷ 99 ∷ 108 ∷ 105 ∷ 115 ∷ 112 ∷ 101 ∷ 99 ∷ [])
    ∷ under backend_dir_name (47 ∷ 98 ∷ 97 ∷ 99 ∷ 107 ∷ 101 ∷ 110 ∷ 100 ∷ [])
    ∷ under netconf_dir_name (47 ∷ 110 ∷ 101 ∷ 116 ∷ 99 ∷ 111 ∷ 110 ∷ 102 ∷ [])
    ∷ under running_db_name
        (47 ∷ 100 ∷ 98 ∷ 47 ∷ 114 ∷ 117 ∷ 110 ∷ 110 ∷ 105 ∷ 110 ∷ 103 ∷ 95 ∷ 100 ∷ 98 ∷ [])
    ∷ under candidate_db_name
        (47 ∷ 100 ∷ 98 ∷ 47 ∷ 99 ∷ 97 ∷ 110 ∷ 100 ∷ 105 ∷ 100 ∷ 97 ∷ 116 ∷ 101 ∷ 95 ∷ 100 ∷ 98 ∷ [])
    ∷ plain dbspec_type_name (89 ∷ 65 ∷ 78 ∷ 71 ∷ [])
    ∷ under dbspec_file_name
        (47 ∷ 100 ∷ 97 ∷ 116 ∷ 97 ∷ 109 ∷ 111 ∷ 100 ∷ 101 ∷ 108 ∷ 46 ∷ 115 ∷ 112 ∷ 101 ∷ 99 ∷ [])
    ∷ under yang_dir_name (47 ∷ 121 ∷ 97 ∷ 110 ∷ 103 ∷ [])
    ∷ plain yang_module_main_name (99 ∷ 108 ∷ 105 ∷ 99 ∷ 111 ∷ 110 ∷ [])
    ∷ under archive_dir_name (47 ∷ 97 ∷ 114 ∷ 99 ∷ 104 ∷ 105 ∷ 118 ∷ 101 ∷ [])
    ∷ under startup_config_name
        (47 ∷ 115 ∷ 116 ∷ 97 ∷ 114 ∷ 116 ∷ 117 ∷ 112 ∷ 45 ∷ 99 ∷ 111 ∷ 110 ∷ 102 ∷ 105 ∷ 103 ∷ [])
    ∷ under sock_name (47 ∷ 99 ∷ 108 ∷ 105 ∷ 99 ∷ 111 ∷ 110 ∷ 46 ∷ 115 ∷ 111 ∷ 99 ∷ 107 ∷ [])
    ∷ under backend_pidfile_name
        (47 ∷ 99 ∷ 108 ∷ 105 ∷ 99 ∷ 111 ∷ 110 ∷ 46 ∷ 112 ∷ 105 ∷ 100 ∷ 102 ∷ 105 ∷ 108 ∷ 101 ∷ [])
    ∷ plain sock_group_name (99 ∷ 108 ∷ 105 ∷ 99 ∷ 111 ∷ 110 ∷ [])
    ∷ plain cli_mode_name (98 ∷ 97 ∷ 115 ∷ 101 ∷ [])
    ∷ plain master_plugin_name (109 ∷ 97 ∷ 115 ∷ 116 ∷ 101 ∷ 114 ∷ [])
    ∷ plain cli_genmodel_name (49 ∷ [])
    ∷ plain cli_genmodel_type_name (86 ∷ 65 ∷ 82 ∷ 83 ∷ [])
    ∷ plain autocommit_name (48 ∷ [])
    ∷ plain commit_order_name (48 ∷ [])
    ∷ plain cli_varonly_name (49 ∷ [])
    ∷ plain cli_genmodel_completion_name (48 ∷ [])
    ∷ []

-- `granted` are the requests of chunk_sprintf, and `memory` what hash_add has for an option.
module _ (granted : ℕ → Bool) (memory : CString → Memory) (dir : CString) where
  -- `none` is the jump to the end. The result of hash_add, a pointer, is compared with 0 by `<`, so that
  -- a failure is not seen.
  unfoldable pub set_default : Table → Default → Option Table
  unfolding clicon_option_exists hash_add
  set_default copt d =
      if clicon_option_exists copt d.name
      then some copt
      else if d.by_chunk && not (granted (strlen (d.value_in dir) + 1))
      then none
      else some (hash_add (memory d.name) copt d.name (with_nul (d.value_in dir))).1

  unfoldable pub set_defaults : List Default → Table → Table
  unfolding set_default
  set_defaults [] copt = copt
  set_defaults (d ∷ ds) copt = elim (set_default copt d) [
    | none ↦ copt
    | some copt' ↦ set_defaults ds copt'
  ]

-- What `stat` says of a path: whether it is a directory, if there is anything.
abbrev pub may_be_dir : Option Bool → Bool
may_be_dir none = true
may_be_dir (some is_dir) = is_dir

abbrev pub nul_or : Option (List ℕ) → CString
unfolding string_at
nul_or none = []
nul_or (some bytes) = string_at bytes

-- True where the source returns 0, which it does also after a jump to the end.
unfoldable pub clicon_option_default :
    (ℕ → Bool) → (CString → Memory) → (CString → Option Bool) → Table → Bool × Table
unfolding set_defaults defaults nul_or clicon_option_exists hash_value
clicon_option_default granted memory stat copt =
    let dir = nul_or (hash_value copt appdir_name) in
    if clicon_option_exists copt appdir_name
    then (if may_be_dir (stat dir)
        then (true, set_defaults granted memory dir defaults copt)
        else (false, copt))
    else (false, copt)

-- An option has a value.
abbrev pub Has : Table → CString → List ℕ → Type 0
Has copt name val = hash_value copt name ≡ some val

missing_value :
    (copt : Table) (name : CString) → hash_lookup copt name ≡ none → hash_value copt name ≡ none
unfolding hash_value
missing_value copt name e = ap value_of e

-- Adding an option that is not there leaves the value of every other.
hash_add-Has :
    (e k v : Bool) (copt : Table) (name other : CString) (val old : List ℕ)
    → hash_lookup copt name ≡ none
    → Has copt other old
    → Has
        (hash_add (record { for_entry = e; for_key = k; for_value = v }) copt name val).1
        other
        old
unfolding hash_add add_new
hash_add-Has false k v copt name other val old m h = rw (hash_add, m) h
hash_add-Has true false v copt name other val old m h = rw (hash_add, m) h
hash_add-Has true true false copt name other val old m h = rw (hash_add, m) h
hash_add-Has true true true copt name other val old m h = elim (Bool-cases (str_eq name other)) [
  | inl e ↦
      let same = eq_of_str_eq name other e in
      let gone : hash_value copt other ≡ none =
        subst (λ n. hash_value copt n ≡ none) same (missing_value copt name m) in
      absurd cc
  | inr e ↦
      hash_value-hash_add copt name other val
      ∙ ap (λ b. if b then some val else hash_value copt other) e
      ∙ h
]

missing_lookup : (o : Option Entry) → is_some o ≡ false → o ≡ none
missing_lookup none e = refl
missing_lookup (some h) e = absurd cc

-- The table after a step, if there is one.
abbrev Keeping : CString → List ℕ → Option Table → Type 0
Keeping other old none = Unit
Keeping other old (some copt) = Has copt other old

module _ (granted : ℕ → Bool) (memory : CString → Memory) (dir : CString) where
  set_default-Keeping :
      (copt : Table) (d : Default) (other : CString) (old : List ℕ)
      → Has copt other old
      → Keeping other old (set_default granted memory dir copt d)
  unfolding set_default clicon_option_exists
  set_default-Keeping copt d other old h = elim (Bool-cases (is_some (hash_lookup copt d.name))) [
    | inl e ↦ rw (e, set_default) h
    | inr e ↦ elim (Bool-cases (d.by_chunk && not (granted (strlen (d.value_in dir) + 1)))) [
      | inl c ↦ rw (e, c, set_default) tt
      | inr c ↦
          let m = memory d.name in
          rw (e, c, set_default)
            (hash_add-Has m.for_entry m.for_key m.for_value copt d.name other
              (with_nul (d.value_in dir)) old (missing_lookup (hash_lookup copt d.name) e) h)
    ]
  ]

  set_defaults-Has :
      (ds : List Default) (copt : Table) (other : CString) (old : List ℕ)
      → Has copt other old
      → Has (set_defaults granted memory dir ds copt) other old
  unfolding set_defaults
  set_defaults-Has [] copt other old h = h
  set_defaults-Has (d ∷ ds) copt other old h =
      elim (Option-cases (set_default granted memory dir copt d)) [
        | inl e ↦ rw (e, set_defaults) h
        | inr (copt', e) ↦
            rw (e, set_defaults)
              (set_defaults-Has ds copt' other old
                (subst (Keeping other old) e (set_default-Keeping copt d other old h)))
      ]

-- Whatever the memory and the directory, clicon_option_default changes no option that has a value.
pub option_default-Has :
    (granted : ℕ → Bool) (memory : CString → Memory) (stat : CString → Option Bool) (copt : Table)
    (other : CString) (old : List ℕ)
    → Has copt other old
    → Has (clicon_option_default granted memory stat copt).1 other old
unfolding clicon_option_default
option_default-Has granted memory stat copt other old h =
    let dir = nul_or (hash_value copt appdir_name) in
    elim (Bool-cases (clicon_option_exists copt appdir_name)) [
      | inr e ↦ rw (e, clicon_option_default) h
      | inl e ↦ elim (Bool-cases (may_be_dir (stat dir))) [
        | inl d ↦
            rw (e, d, clicon_option_default)
              (set_defaults-Has granted memory dir defaults copt other old h)
        | inr d ↦ rw (e, d, clicon_option_default) h
      ]
    ]
