-- ===== src/Options/Tests.antt =====
-- Options in a table that is empty but for the application directory.
use clicon.Base.{ℕ, ◌≡◌, Bool, true, [], ◌∷◌, Option, none, arith}
use clicon.Proto.Types.{CString}
use clicon.Hash.Table.{Table, hash_init}
use clicon.Hash.Laws.{enough}
use clicon.Options.{clicon_option_int, clicon_option_int_set, clicon_option_str_set}
use clicon.Options.Names.{appdir_name, autocommit_name}
use clicon.Options.Decimal.{option_int-set}
use clicon.Options.Defaults.{clicon_option_default}

abbrev always : ℕ → Bool
always n = true

abbrev no_file : CString → Option Bool
no_file path = none

abbrev start : Table
start = (clicon_option_str_set enough hash_init appdir_name (97 ∷ [])).1

option_int-set_example :
    clicon_option_int (clicon_option_int_set enough hash_init autocommit_name 120).1 autocommit_name
    ≡ 120
option_int-set_example = option_int-set hash_init autocommit_name 120 (omega arith)

abbrev after_defaults : Table
after_defaults = (clicon_option_default always (λ n. enough) no_file start).1
