-- ===== src/Options.antt =====
-- The options: lib/src/clicon_options.c. They are strings in a hash table of lib/src/clicon_hash.c.
use clicon.Base.{
  ℕ, zero, suc, ◌+◌, ◌-◌, ◌*◌, ◌/◌, ◌%◌, ◌^◌, Bool, true, false, ◌&&◌, List, [], ◌∷◌, ◌++◌, Option,
  none, some, leb, ltb, ◌==◌, if◌then◌else◌, str_eq,
}
use clicon.Proto.Types.{CString, strlen}
use clicon.Hash.Table.{Table, Entry, Memory, hash_lookup, hash_value, hash_add, hash_del}
use clicon.Strings.{until, skip_spaces}
use clicon.Options.Names.{
  appdir_name, configfile_name, dbspec_type_name, dbspec_file_name, yang_dir_name,
  yang_module_main_name, candidate_db_name, running_db_name, backend_dir_name, cli_dir_name,
  clispec_dir_name, netconf_dir_name, archive_dir_name, startup_config_name, sock_name,
  backend_pidfile_name, sock_group_name, master_plugin_name, cli_mode_name, quiet_name,
  cli_genmodel_name, autocommit_name, commit_order_name, cli_varonly_name,
  cli_genmodel_completion_name, cli_genmodel_type_name, dbspec_name,
}
mod Names
pub mod Access
pub mod Decimal
pub mod Defaults
mod Tests

-- The bytes of a C string, and the string that stands at the start of some bytes.
abbrev pub with_nul : CString → List ℕ
with_nul s = s ++ (0 ∷ [])

abbrev pub string_at : List ℕ → CString
unfolding until
string_at bytes = (until (λ c. c == 0) bytes).0

abbrev pub is_some : {A : Type 0} → Option A → Bool
is_some none = false
is_some (some a) = true

unfoldable pub clicon_option_exists : Table → CString → Bool
unfolding hash_lookup
clicon_option_exists copt name = is_some (hash_lookup copt name)

abbrev pub string_of : Option (List ℕ) → Option CString
unfolding string_at
string_of none = none
string_of (some bytes) = some (string_at bytes)

unfoldable pub clicon_option_str : Table → CString → Option CString
unfolding hash_lookup hash_value string_of
clicon_option_str copt name = elim (hash_lookup copt name) [
  | none ↦ none
  | some h ↦ string_of (hash_value copt name)
]

-- True where the source returns 0.
unfoldable pub clicon_option_str_set : Memory → Table → CString → CString → Bool × Table
unfolding hash_add
clicon_option_str_set memory copt name val =
    let (entry, copt') = hash_add memory copt name (with_nul val) in (is_some entry, copt')

-- The digits at the start of a string, behind a number.
unfoldable pub digits_from : ℕ → CString → ℕ
digits_from n [] = n
digits_from n (c ∷ s) = if leb 48 c && leb c 57 then digits_from (n * 10 + (c - 48)) s else n

-- An `int` is its 32 bits as a number. Where the C library leaves the value of a number that is too
-- large open, it wraps around here.
abbrev pub signed : CString → ℕ
unfolding digits_from
signed [] = 0
signed (c ∷ s) =
    if c == 45
    then (2 ^ 32 - digits_from 0 s % 2 ^ 32) % 2 ^ 32
    else if c == 43
    then digits_from 0 s % 2 ^ 32
    else digits_from 0 (c ∷ s) % 2 ^ 32

unfoldable pub atoi : CString → ℕ
unfolding signed skip_spaces
atoi s = signed (skip_spaces s)

-- -1.
abbrev pub minus_one : ℕ
minus_one = 2 ^ 32 - 1

unfoldable pub clicon_option_int : Table → CString → ℕ
unfolding clicon_option_str atoi
clicon_option_int copt name = elim (clicon_option_str copt name) [
  | none ↦ minus_one
  | some s ↦ atoi s
]

-- `%u`: each digit takes one of the fuel, and `suc n` is enough for `n`.
unfoldable pub decimal_from : ℕ → ℕ → CString
decimal_from zero n = []
decimal_from (suc fuel) n =
    let front = decimal_from fuel (n / 10) in
    if ltb n 10 then (48 + n) ∷ [] else front ++ ((48 + n % 10) ∷ [])

-- The ten digits of a number of 32 bits.
unfoldable pub decimal : ℕ → CString
unfolding decimal_from
decimal n = decimal_from 10 n

unfoldable pub clicon_option_int_set : Memory → Table → CString → ℕ → Bool × Table
unfolding decimal clicon_option_str_set
clicon_option_int_set memory copt name val = clicon_option_str_set memory copt name (decimal val)

abbrev pub clicon_option_del : Table → CString → Bool × Table
unfolding hash_del
clicon_option_del copt name = hash_del copt name

abbrev pub clicon_appdir : Table → Option CString
unfolding clicon_option_str
clicon_appdir copt = clicon_option_str copt appdir_name

abbrev pub clicon_configfile : Table → Option CString
unfolding clicon_option_str
clicon_configfile copt = clicon_option_str copt configfile_name

abbrev pub clicon_dbspec_type : Table → Option CString
unfolding clicon_option_str
clicon_dbspec_type copt = clicon_option_str copt dbspec_type_name

abbrev pub clicon_dbspec_file : Table → Option CString
unfolding clicon_option_str
clicon_dbspec_file copt = clicon_option_str copt dbspec_file_name

abbrev pub clicon_yang_dir : Table → Option CString
unfolding clicon_option_str
clicon_yang_dir copt = clicon_option_str copt yang_dir_name

abbrev pub clicon_yang_module_main : Table → Option CString
unfolding clicon_option_str
clicon_yang_module_main copt = clicon_option_str copt yang_module_main_name

abbrev pub clicon_candidate_db : Table → Option CString
unfolding clicon_option_str
clicon_candidate_db copt = clicon_option_str copt candidate_db_name

abbrev pub clicon_running_db : Table → Option CString
unfolding clicon_option_str
clicon_running_db copt = clicon_option_str copt running_db_name

abbrev pub clicon_backend_dir : Table → Option CString
unfolding clicon_option_str
clicon_backend_dir copt = clicon_option_str copt backend_dir_name

abbrev pub clicon_cli_dir : Table → Option CString
unfolding clicon_option_str
clicon_cli_dir copt = clicon_option_str copt cli_dir_name

abbrev pub clicon_clispec_dir : Table → Option CString
unfolding clicon_option_str
clicon_clispec_dir copt = clicon_option_str copt clispec_dir_name

abbrev pub clicon_netconf_dir : Table → Option CString
unfolding clicon_option_str
clicon_netconf_dir copt = clicon_option_str copt netconf_dir_name

abbrev pub clicon_archive_dir : Table → Option CString
unfolding clicon_option_str
clicon_archive_dir copt = clicon_option_str copt archive_dir_name

abbrev pub clicon_startup_config : Table → Option CString
unfolding clicon_option_str
clicon_startup_config copt = clicon_option_str copt startup_config_name

abbrev pub clicon_sock : Table → Option CString
unfolding clicon_option_str
clicon_sock copt = clicon_option_str copt sock_name

abbrev pub clicon_backend_pidfile : Table → Option CString
unfolding clicon_option_str
clicon_backend_pidfile copt = clicon_option_str copt backend_pidfile_name

abbrev pub clicon_sock_group : Table → Option CString
unfolding clicon_option_str
clicon_sock_group copt = clicon_option_str copt sock_group_name

abbrev pub clicon_master_plugin : Table → Option CString
unfolding clicon_option_str
clicon_master_plugin copt = clicon_option_str copt master_plugin_name

abbrev pub clicon_cli_mode : Table → Option CString
unfolding clicon_option_str
clicon_cli_mode copt = clicon_option_str copt cli_mode_name

abbrev pub clicon_quiet_mode : Table → Option CString
unfolding clicon_option_str
clicon_quiet_mode copt = clicon_option_str copt quiet_name

-- The number under a name, or 0 when there is none.
abbrev int_or_zero : Table → CString → ℕ
unfolding clicon_option_exists clicon_option_int
int_or_zero copt opt = if clicon_option_exists copt opt then clicon_option_int copt opt else 0

abbrev pub clicon_cli_genmodel : Table → ℕ
unfolding int_or_zero
clicon_cli_genmodel copt = int_or_zero copt cli_genmodel_name

abbrev pub clicon_autocommit : Table → ℕ
unfolding int_or_zero
clicon_autocommit copt = int_or_zero copt autocommit_name

abbrev pub clicon_commit_order : Table → ℕ
unfolding int_or_zero
clicon_commit_order copt = int_or_zero copt commit_order_name

abbrev pub clicon_cli_varonly : Table → ℕ
unfolding int_or_zero
clicon_cli_varonly copt = int_or_zero copt cli_varonly_name

abbrev pub clicon_cli_genmodel_completion : Table → ℕ
unfolding int_or_zero
clicon_cli_genmodel_completion copt = int_or_zero copt cli_genmodel_completion_name

abbrev pub clicon_autocommit_set : Memory → Table → ℕ → Bool × Table
unfolding clicon_option_int_set
clicon_autocommit_set memory copt val = clicon_option_int_set memory copt autocommit_name val

abbrev pub clicon_cli_varonly_set : Memory → Table → ℕ → Bool × Table
unfolding clicon_option_int_set
clicon_cli_varonly_set memory copt val = clicon_option_int_set memory copt cli_varonly_name val

-- `enum genmodel_type`.
pub data GenmodelType : Type 0 where
  gt_err gt_none gt_vars gt_all : GenmodelType

-- "NONE", "VARS" and "ALL".
abbrev genmodel_of : CString → GenmodelType
unfolding str_eq
genmodel_of s =
    if str_eq s (78 ∷ 79 ∷ 78 ∷ 69 ∷ [])
    then GenmodelType.gt_none
    else if str_eq s (86 ∷ 65 ∷ 82 ∷ 83 ∷ [])
    then GenmodelType.gt_vars
    else if str_eq s (65 ∷ 76 ∷ 76 ∷ [])
    then GenmodelType.gt_all
    else GenmodelType.gt_err

unfoldable pub clicon_cli_genmodel_type : Table → GenmodelType
unfolding clicon_option_str genmodel_of
clicon_cli_genmodel_type copt = elim (clicon_option_str copt cli_genmodel_type_name) [
  | none ↦ GenmodelType.gt_vars
  | some s ↦ genmodel_of s
]

abbrev pub clicon_dbspec_name : Table → Option CString
unfolding clicon_option_str
clicon_dbspec_name copt = clicon_option_str copt dbspec_name

abbrev pub clicon_dbspec_name_set : Memory → Table → CString → Bool × Table
unfolding clicon_option_str_set
clicon_dbspec_name_set memory copt name = clicon_option_str_set memory copt dbspec_name name
