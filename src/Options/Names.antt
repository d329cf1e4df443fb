-- ===== src/Options/Names.antt =====
-- The names of the options: lib/src/clicon_options.c.
use clicon.Base.{[], ◌∷◌, ◌++◌}
use clicon.Proto.Types.{CString}

-- The name with its prefix "CLICON_".
abbrev option : CString → CString
option name = (67 ∷ 76 ∷ 73 ∷ 67 ∷ 79 ∷ 78 ∷ 95 ∷ []) ++ name

-- "CLICON_APPDIR".
abbrev pub appdir_name : CString
appdir_name = option (65 ∷ 80 ∷ 80 ∷ 68 ∷ 73 ∷ 82 ∷ [])

-- "CLICON_CONFIGFILE".
abbrev pub configfile_name : CString
configfile_name = option (67 ∷ 79 ∷ 78 ∷ 70 ∷ 73 ∷ 71 ∷ 70 ∷ 73 ∷ 76 ∷ 69 ∷ [])

-- "CLICON_DBSPEC_TYPE".
abbrev pub dbspec_type_name : CString
dbspec_type_name = option (68 ∷ 66 ∷ 83 ∷ 80 ∷ 69 ∷ 67 ∷ 95 ∷ 84 ∷ 89 ∷ 80 ∷ 69 ∷ [])

-- "CLICON_DBSPEC_FILE".
abbrev pub dbspec_file_name : CString
dbspec_file_name = option (68 ∷ 66 ∷ 83 ∷ 80 ∷ 69 ∷ 67 ∷ 95 ∷ 70 ∷ 73 ∷ 76 ∷ 69 ∷ [])

-- "CLICON_YANG_DIR".
abbrev pub yang_dir_name : CString
yang_dir_name = option (89 ∷ 65 ∷ 78 ∷ 71 ∷ 95 ∷ 68 ∷ 73 ∷ 82 ∷ [])

-- "CLICON_YANG_MODULE_MAIN".
abbrev pub yang_module_main_name : CString
yang_module_main_name =
    option (89 ∷ 65 ∷ 78 ∷ 71 ∷ 95 ∷ 77 ∷ 79 ∷ 68 ∷ 85 ∷ 76 ∷ 69 ∷ 95 ∷ 77 ∷ 65 ∷ 73 ∷ 78 ∷ [])

-- "CLICON_CANDIDATE_DB".
abbrev pub candidate_db_name : CString
candidate_db_name = option (67 ∷ 65 ∷ 78 ∷ 68 ∷ 73 ∷ 68 ∷ 65 ∷ 84 ∷ 69 ∷ 95 ∷ 68 ∷ 66 ∷ [])

-- "CLICON_RUNNING_DB".
abbrev pub running_db_name : CString
running_db_name = option (82 ∷ 85 ∷ 78 ∷ 78 ∷ 73 ∷ 78 ∷ 71 ∷ 95 ∷ 68 ∷ 66 ∷ [])

-- "CLICON_BACKEND_DIR".
abbrev pub backend_dir_name : CString
backend_dir_name = option (66 ∷ 65 ∷ 67 ∷ 75 ∷ 69 ∷ 78 ∷ 68 ∷ 95 ∷ 68 ∷ 73 ∷ 82 ∷ [])

-- "CLICON_CLI_DIR".
abbrev pub cli_dir_name : CString
cli_dir_name = option (67 ∷ 76 ∷ 73 ∷ 95 ∷ 68 ∷ 73 ∷ 82 ∷ [])

-- "CLICON_CLISPEC_DIR".
abbrev pub clispec_dir_name : CString
clispec_dir_name = option (67 ∷ 76 ∷ 73 ∷ 83 ∷ 80 ∷ 69 ∷ 67 ∷ 95 ∷ 68 ∷ 73 ∷ 82 ∷ [])

-- "CLICON_NETCONF_DIR".
abbrev pub netconf_dir_name : CString
netconf_dir_name = option (78 ∷ 69 ∷ 84 ∷ 67 ∷ 79 ∷ 78 ∷ 70 ∷ 95 ∷ 68 ∷ 73 ∷ 82 ∷ [])

-- "CLICON_ARCHIVE_DIR".
abbrev pub archive_dir_name : CString
archive_dir_name = option (65 ∷ 82 ∷ 67 ∷ 72 ∷ 73 ∷ 86 ∷ 69 ∷ 95 ∷ 68 ∷ 73 ∷ 82 ∷ [])

-- "CLICON_STARTUP_CONFIG".
abbrev pub startup_config_name : CString
startup_config_name =
    option (83 ∷ 84 ∷ 65 ∷ 82 ∷ 84 ∷ 85 ∷ 80 ∷ 95 ∷ 67 ∷ 79 ∷ 78 ∷ 70 ∷ 73 ∷ 71 ∷ [])

-- "CLICON_SOCK".
abbrev pub sock_name : CString
sock_name = option (83 ∷ 79 ∷ 67 ∷ 75 ∷ [])

-- "CLICON_BACKEND_PIDFILE".
abbrev pub backend_pidfile_name : CString
backend_pidfile_name =
    option (66 ∷ 65 ∷ 67 ∷ 75 ∷ 69 ∷ 78 ∷ 68 ∷ 95 ∷ 80 ∷ 73 ∷ 68 ∷ 70 ∷ 73 ∷ 76 ∷ 69 ∷ [])

-- "CLICON_SOCK_GROUP".
abbrev pub sock_group_name : CString
sock_group_name = option (83 ∷ 79 ∷ 67 ∷ 75 ∷ 95 ∷ 71 ∷ 82 ∷ 79 ∷ 85 ∷ 80 ∷ [])

-- "CLICON_MASTER_PLUGIN".
abbrev pub master_plugin_name : CString
master_plugin_name = option (77 ∷ 65 ∷ 83 ∷ 84 ∷ 69 ∷ 82 ∷ 95 ∷ 80 ∷ 76 ∷ 85 ∷ 71 ∷ 73 ∷ 78 ∷ [])

-- "CLICON_CLI_MODE".
abbrev pub cli_mode_name : CString
cli_mode_name = option (67 ∷ 76 ∷ 73 ∷ 95 ∷ 77 ∷ 79 ∷ 68 ∷ 69 ∷ [])

-- "CLICON_QUIET".
abbrev pub quiet_name : CString
quiet_name = option (81 ∷ 85 ∷ 73 ∷ 69 ∷ 84 ∷ [])

-- "CLICON_CLI_GENMODEL".
abbrev pub cli_genmodel_name : CString
cli_genmodel_name = option (67 ∷ 76 ∷ 73 ∷ 95 ∷ 71 ∷ 69 ∷ 78 ∷ 77 ∷ 79 ∷ 68 ∷ 69 ∷ 76 ∷ [])

-- "CLICON_AUTOCOMMIT".
abbrev pub autocommit_name : CString
autocommit_name = option (65 ∷ 85 ∷ 84 ∷ 79 ∷ 67 ∷ 79 ∷ 77 ∷ 77 ∷ 73 ∷ 84 ∷ [])

-- "CLICON_COMMIT_ORDER".
abbrev pub commit_order_name : CString
commit_order_name = option (67 ∷ 79 ∷ 77 ∷ 77 ∷ 73 ∷ 84 ∷ 95 ∷ 79 ∷ 82 ∷ 68 ∷ 69 ∷ 82 ∷ [])

-- "CLICON_CLI_VARONLY".
abbrev pub cli_varonly_name : CString
cli_varonly_name = option (67 ∷ 76 ∷ 73 ∷ 95 ∷ 86 ∷ 65 ∷ 82 ∷ 79 ∷ 78 ∷ 76 ∷ 89 ∷ [])

-- "CLICON_CLI_GENMODEL_COMPLETION".
abbrev pub cli_genmodel_completion_name : CString
cli_genmodel_completion_name = option (
    67 ∷ 76 ∷ 73 ∷ 95 ∷ 71 ∷ 69 ∷ 78 ∷ 77 ∷ 79 ∷ 68 ∷ 69 ∷ 76 ∷ 95 ∷ 67 ∷ 79 ∷ 77 ∷ 80 ∷ 76 ∷ 69
    ∷ 84 ∷ 73 ∷ 79 ∷ 78 ∷ [])

-- "CLICON_CLI_GENMODEL_TYPE".
abbrev pub cli_genmodel_type_name : CString
cli_genmodel_type_name =
    option (67 ∷ 76 ∷ 73 ∷ 95 ∷ 71 ∷ 69 ∷ 78 ∷ 77 ∷ 79 ∷ 68 ∷ 69 ∷ 76 ∷ 95 ∷ 84 ∷ 89 ∷ 80 ∷ 69 ∷ [])

-- "dbspec_name".
abbrev pub dbspec_name : CString
dbspec_name = 100 ∷ 98 ∷ 115 ∷ 112 ∷ 101 ∷ 99 ∷ 95 ∷ 110 ∷ 97 ∷ 109 ∷ 101 ∷ []
