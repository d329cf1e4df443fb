-- ===== src/Options/Defaults/Values.antt =====
-- The values that the options have after `clicon_option_default` of lib/src/clicon_options.c.
use clicon.Base.{◌≡◌, Bool, true, false, List, [], ◌∷◌, ◌++◌, All}
use clicon.Proto.Types.{CString}
use clicon.Hash.Table.{Table, hash_value}
use clicon.Options.Names.{
  cli_dir_name, clispec_dir_name, backend_dir_name, netconf_dir_name, running_db_name,
  candidate_db_name, dbspec_type_name, dbspec_file_name, yang_dir_name, yang_module_main_name,
  archive_dir_name, startup_config_name, sock_name, backend_pidfile_name, sock_group_name,
  cli_mode_name, master_plugin_name, cli_genmodel_name, cli_genmodel_type_name, autocommit_name,
  commit_order_name, cli_varonly_name, cli_genmodel_completion_name,
}
use clicon.Options.Defaults.Kept.{kept_or}

-- The options and their values below an application directory, as an application finds them.
abbrev pub documented : CString → List (CString × CString)
documented dir =
    (cli_dir_name, dir ++ (b'/' ∷ b'c' ∷ b'l' ∷ b'i' ∷ []))
    ∷ (clispec_dir_name, dir ++ (b'/' ∷ b'c' ∷ b'l' ∷ b'i' ∷ b's' ∷ b'p' ∷ b'e' ∷ b'c' ∷ []))
    ∷ (backend_dir_name, dir ++ (b'/' ∷ b'b' ∷ b'a' ∷ b'c' ∷ b'k' ∷ b'e' ∷ b'n' ∷ b'd' ∷ []))
    ∷ (netconf_dir_name, dir ++ (b'/' ∷ b'n' ∷ b'e' ∷ b't' ∷ b'c' ∷ b'o' ∷ b'n' ∷ b'f' ∷ []))
    ∷ (
      running_db_name,
      dir
          ++ (b'/' ∷ b'd' ∷ b'b' ∷ b'/' ∷ b'r' ∷ b'u' ∷ b'n' ∷ b'n' ∷ b'i' ∷ b'n' ∷ b'g' ∷ b'_'
              ∷ b'd' ∷ b'b' ∷ []),
    )
    ∷ (
      candidate_db_name,
      dir
          ++ (b'/' ∷ b'd' ∷ b'b' ∷ b'/' ∷ b'c' ∷ b'a' ∷ b'n' ∷ b'd' ∷ b'i' ∷ b'd' ∷ b'a' ∷ b't'
              ∷ b'e' ∷ b'_' ∷ b'd' ∷ b'b' ∷ []),
    )
    ∷ (dbspec_type_name, (b'Y' ∷ b'A' ∷ b'N' ∷ b'G' ∷ []))
    ∷ (
      dbspec_file_name,
      dir
          ++ (b'/' ∷ b'd' ∷ b'a' ∷ b't' ∷ b'a' ∷ b'm' ∷ b'o' ∷ b'd' ∷ b'e' ∷ b'l' ∷ b'.' ∷ b's'
              ∷ b'p' ∷ b'e' ∷ b'c' ∷ []),
    )
    ∷ (yang_dir_name, dir ++ (b'/' ∷ b'y' ∷ b'a' ∷ b'n' ∷ b'g' ∷ []))
    ∷ (yang_module_main_name, (b'c' ∷ b'l' ∷ b'i' ∷ b'c' ∷ b'o' ∷ b'n' ∷ []))
    ∷ (archive_dir_name, dir ++ (b'/' ∷ b'a' ∷ b'r' ∷ b'c' ∷ b'h' ∷ b'i' ∷ b'v' ∷ b'e' ∷ []))
    ∷ (
      startup_config_name,
      dir
          ++ (b'/' ∷ b's' ∷ b't' ∷ b'a' ∷ b'r' ∷ b't' ∷ b'u' ∷ b'p' ∷ b'-' ∷ b'c' ∷ b'o' ∷ b'n'
              ∷ b'f' ∷ b'i' ∷ b'g' ∷ []),
    )
    ∷ (
      sock_name,
      dir
          ++ (b'/' ∷ b'c' ∷ b'l' ∷ b'i' ∷ b'c' ∷ b'o' ∷ b'n' ∷ b'.' ∷ b's' ∷ b'o' ∷ b'c' ∷ b'k'
              ∷ []),
    )
    ∷ (
      backend_pidfile_name,
      dir
          ++ (b'/' ∷ b'c' ∷ b'l' ∷ b'i' ∷ b'c' ∷ b'o' ∷ b'n' ∷ b'.' ∷ b'p' ∷ b'i' ∷ b'd' ∷ b'f'
              ∷ b'i' ∷ b'l' ∷ b'e' ∷ []),
    )
    ∷ (sock_group_name, (b'c' ∷ b'l' ∷ b'i' ∷ b'c' ∷ b'o' ∷ b'n' ∷ []))
    ∷ (cli_mode_name, (b'b' ∷ b'a' ∷ b's' ∷ b'e' ∷ []))
    ∷ (master_plugin_name, (b'm' ∷ b'a' ∷ b's' ∷ b't' ∷ b'e' ∷ b'r' ∷ []))
    ∷ (cli_genmodel_name, (b'1' ∷ []))
    ∷ (cli_genmodel_type_name, (b'V' ∷ b'A' ∷ b'R' ∷ b'S' ∷ []))
    ∷ (autocommit_name, (b'0' ∷ []))
    ∷ (commit_order_name, (b'0' ∷ []))
    ∷ (cli_varonly_name, (b'1' ∷ []))
    ∷ (cli_genmodel_completion_name, (b'0' ∷ []))
    ∷ []

-- When the result is 0, the table.
abbrev Valuing : CString → Table → Bool × Table → Type 0
Valuing dir copt (false, copt') = Unit
Valuing dir copt (true, copt') =
    All (λ row. hash_value copt' row.0 ≡ kept_or (hash_value copt row.0) row.1) (documented dir)
