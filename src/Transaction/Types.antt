-- ===== src/Transaction/Types.antt =====
-- What a transaction is about: apps/config/clicon_backend_api.h, config_dbdep.h, config_dbdiff.h.
use clicon.Base.{ℕ, Bool, List, Option}
use clicon.Proto.Types.{CString}
use clicon.Backend.Types.{ErrState}

-- `enum commit_op_enum`.
pub data CommitOp : Type 0 where
  co_add co_delete co_change : CommitOp

-- `enum dbdiff_op`: the key is in the first database, in the second, or in both.
pub data DiffOp : Type 0 where
  op_first op_second op_both : DiffOp

-- A variable vector of cligen: its name, and content that this code hands on.
pub record Cvec : Type 0 where
  pub vec_name : Option CString
  pub vec_content : List ℕ

-- `struct dbdiff_ent`.
pub record DiffEnt : Type 0 where
  pub dfe_vec1 : Option Cvec
  pub dfe_vec2 : Option Cvec
  pub dfe_op : DiffOp

-- `struct dbdep`. `dp_nr` tells the entries apart, as their addresses do; `dp_tree` is the type
-- DBDEP_TREE, and `dp_validate` and `dp_commit` are the bits of `dp_type`. An entry has its keys.
pub record Dep : Type 0 where
  pub dp_nr : ℕ
  pub dp_row : ℕ
  pub dp_tree : Bool
  pub dp_validate : Bool
  pub dp_commit : Bool
  pub dp_callback : ℕ
  pub dp_arg : ℕ
  pub dp_ent : List CString

-- `struct dbdep_dd`.
pub record DepDiff : Type 0 where
  pub dd_dep : Dep
  pub dd_dbdiff : DiffEnt
  pub dd_mkey1 : Option CString
  pub dd_mkey2 : Option CString

-- A call of a plugin's callback: the function, the operation and `commit_data_t`.
pub record Call : Type 0 where
  pub callback : ℕ
  pub op : CommitOp
  pub source_db : CString
  pub target_db : CString
  pub source_key : Option CString
  pub target_key : Option CString
  pub source_vec : Option Cvec
  pub target_vec : Option Cvec
  pub arg : ℕ

-- The four hooks of a plugin.
pub data Hook : Type 0 where
  begin complete end abort : Hook

-- What a plugin's function returns: whether it is 0, and the error that it reported last, if any.
pub record Outcome : Type 0 where
  pub succeeded : Bool
  pub reported : Option ErrState

-- What happens in a transaction, for the record.
pub data Event : Type 0 where
  did_call : Call → Event
  -- from, to, and whether `file_cp` succeeded
  did_copy : CString → CString → Bool → Event
  did_hook : Hook → ℕ → Event

-- `S` is what plugins and the database layer see and change: databases, files, the system.
pub record Plugins (S : Type 0) : Type 0 where
  -- which hooks plugin 0, 1, ... has, and how many plugins there are
  pub nplugins : ℕ
  pub has_hook : Hook → ℕ → Bool
  pub run_hook : Hook → ℕ → S → S × Outcome
  pub run_callback : Call → S → S × Outcome
  pub exists : CString → S → Bool
  pub file_cp : CString → CString → S → S × Bool
  -- the differences of two databases, or the error
  pub db_diff : CString → CString → S → Option (List DiffEnt) × Option ErrState
  -- the registered dependencies, the sorting of the vector by `dp_row`, and the error without a key
  pub deps : List Dep
  pub qsort : List DepDiff → List DepDiff
  pub strdup_error : ErrState
  pub generic_validate : CString → List DiffEnt → S → S × Outcome
  pub commit_order : ℕ
  -- whether `clicon_err_save` finds memory, and the error of a system call that failed
  pub save_memory : Bool
  pub stat_error : CString → S → ErrState
  pub copy_error : S → ErrState

pub record Tx (S : Type 0) : Type 0 where
  pub state : S
  pub err : ErrState
  -- the newest event first
  pub trace : List Event
