-- ===== src/Backend/Types.antt =====
-- The daemon's state, and what it takes from the database layer, the plugins and the system.
use clicon.Base.{ℕ, Bool, Option, List}
use clicon.Proto.Types.{Msg, CString}

-- `clicon_errno`, `clicon_suberrno` and `clicon_err_reason`: the last error that was reported.
pub record ErrState : Type 0 where
  pub errno : ℕ
  pub suberrno : ℕ
  pub reason : CString

-- What a format string of `send_msg_err` and its arguments are.
pub data Reason : Type 0 where
  last_reason candidate_not_set : Reason
  lock_failed unlock_failed : ℕ → Reason
  can_not_lock can_not_unlock : CString → CString → Reason
  rm_failed : CString → Reason
  copy_failed : CString → CString → Reason
  unexpected_message : ℕ → Reason
  -- texts of `clicon_err`
  no_archive_dir no_archive_for_startup no_startup_config startup_failed running_not_set
        chunk_failed :
      Reason
  malloc_failed accept_failed getsockopt_failed no_sock_group send_failed : Reason

-- `struct client_subscription`.
pub record Subscription : Type 0 where
  pub su_format : ℕ
  pub su_stream : CString
  pub su_filter : CString

-- `struct client_entry`. `ce_nr` tells the entries apart, as their addresses do in the source.
pub record Client : Type 0 where
  pub ce_s : ℕ
  pub ce_nr : ℕ
  pub ce_pid : ℕ
  pub ce_uid : ℕ
  pub ce_subscription : List Subscription

-- `F` is the state of the files. An operation reports an error or none, with the files after it.
pub record Env (F : Type 0) : Type 0 where
  pub granted : ℕ → Bool
  -- what `malloc` has, what a socket takes, the text of a format, and whether a process is there
  pub malloced : ℕ → Bool
  pub writable : ℕ → Bool
  pub text : Reason → CString
  pub alive : ℕ → Bool
  -- `errno` after an operation that failed
  pub os_errno : F → ℕ
  pub candidate_db : Option CString
  pub running_db : Option CString
  pub archive_dir : Option CString
  pub startup_config : Option CString
  pub lvec2cvec : Option (List ℕ) → ℕ → Bool
  pub db_lv_op_exec : CString → CString → ℕ → Option (List ℕ) → F → F × Option ErrState
  pub config_snapshot : CString → CString → F → F × Option ErrState
  pub save_db_to_xml : CString → CString → F → F × Option ErrState
  pub load_xml_to_db : CString → CString → F → F × Option ErrState
  pub db_init : CString → F → F × Option ErrState
  pub unlink : CString → F → F × Bool
  pub file_cp : CString → CString → F → F × Bool
  pub chmod : CString → F → F
  pub candidate_commit : CString → CString → F → F × Option ErrState
  pub candidate_validate : CString → CString → F → F × Option ErrState
  -- the reply, none for -1, and the error that was reported, if any was
  pub plugin_downcall : List ℕ → F → F × Option (List ℕ) × Option ErrState

pub record World (F : Type 0) : Type 0 where
  -- `_db_locked`: the process id of the session that holds the lock, 0 if none does
  pub db_locked : ℕ
  pub ce_list : List Client
  pub ce_nr : ℕ
  -- the sockets for which `from_client` is registered with the event loop
  pub registered : List ℕ
  pub files : F
  pub err : ErrState
  pub sent : List (ℕ × Msg)
  pub debug_level : ℕ
  -- the processes that were sent SIGTERM
  pub signalled : List ℕ
  -- whether the callback of `clicon_log_register_callback` is set
  pub log_callback : Bool
