-- ===== src/Backend/Quiet.antt =====
-- The database commands and the replies leave the lock, the clients and the event loop alone.
use clicon.Base.{ℕ, ◌≡◌, List, Option, arith}
use clicon.Proto.Types.{CString, MsgType}
use clicon.Backend.Types.{ErrState, Reason, Env, World}
use clicon.Backend.Reply.{send_msg_reply, send_msg_ok, send_msg_err, refuse}
use clicon.Backend.Handlers.{
  refuse_with, from_client_change, from_client_save, from_client_load, from_client_initdb,
  from_client_rm, from_client_copy,
}
use clicon.Backend.Commit.{
  from_client_commit, from_client_validate, commit_undecoded, validate_undecoded,
}
use clicon.Backend.Sessions.{from_client_debug, from_client_call}
use clicon.Backend.Dispatch.{undecoded, decode_failed}

module _ {F : Type 0} where
  -- Only the files, the last error, the messages sent and the like may differ.
  pub record Quiet (w w' : World F) : Type 0 where
    pub same_lock : w'.db_locked ≡ w.db_locked
    pub same_clients : w'.ce_list ≡ w.ce_list
    pub same_nr : w'.ce_nr ≡ w.ce_nr
    pub same_registered : w'.registered ≡ w.registered

module _ {F : Type 0} (env : Env F) where
  pub send_msg_ok-Quiet : (s : ℕ) (w : World F) → Quiet w (send_msg_ok env s w).0
  unfolding send_msg_ok
  send_msg_ok-Quiet s w = ground arith

  pub send_msg_reply-Quiet :
      (s : ℕ) (t : MsgType) (b : List ℕ) (w : World F) → Quiet w (send_msg_reply env s t b w).0
  unfolding send_msg_reply
  send_msg_reply-Quiet s t b w = ground arith

  pub send_msg_err-Quiet :
      (s e u : ℕ) (why : Reason) (w : World F) → Quiet w (send_msg_err env s e u why w).0
  unfolding send_msg_err
  send_msg_err-Quiet s e u why w = ground arith

  pub change-Quiet :
      (s pid : ℕ) (a : CString × ℕ × CString × Option (List ℕ) × ℕ) (w : World F)
      → Quiet w (from_client_change env s pid a w).0
  unfolding from_client_change
  change-Quiet s pid (dbname, op, basekey, lvec, lvec_len) w = ground arith

  pub save-Quiet :
      (s : ℕ) (a : CString × ℕ × Option CString) (w : World F)
      → Quiet w (from_client_save env s a w).0
  unfolding from_client_save
  save-Quiet s (db, snapshot, filename) w = ground arith

  pub load-Quiet :
      (s pid : ℕ) (a : ℕ × CString × CString) (w : World F)
      → Quiet w (from_client_load env s pid a w).0
  unfolding from_client_load
  load-Quiet s pid (replace, db, filename) w = ground arith

  pub initdb-Quiet :
      (s pid : ℕ) (a : CString) (w : World F) → Quiet w (from_client_initdb env s pid a w).0
  unfolding from_client_initdb
  initdb-Quiet s pid a w = ground arith

  pub rm-Quiet : (s pid : ℕ) (a : CString) (w : World F) → Quiet w (from_client_rm env s pid a w).0
  unfolding from_client_rm
  rm-Quiet s pid a w = ground arith

  pub copy-Quiet :
      (s pid : ℕ) (a : CString × CString) (w : World F) → Quiet w (from_client_copy env s pid a w).0
  unfolding from_client_copy
  copy-Quiet s pid (from, to) w = ground arith

  pub commit-Quiet :
      (s : ℕ) (a : CString × CString × ℕ × ℕ) (w : World F)
      → Quiet w (from_client_commit env s a w).0
  unfolding from_client_commit
  commit-Quiet s (candidate, running, snapshot, startup) w = ground arith

  pub validate-Quiet :
      (s : ℕ) (a : CString) (w : World F) → Quiet w (from_client_validate env s a w).0
  unfolding from_client_validate
  validate-Quiet s a w = ground arith

  pub refuse-Quiet : (s e u : ℕ) (why : Reason) (w : World F) → Quiet w (refuse env s e u why w).0
  unfolding refuse
  refuse-Quiet s e u why w = ground arith

  pub refuse_with-Quiet : (s : ℕ) (e : ErrState) (w : World F) → Quiet w (refuse_with env s e w).0
  unfolding refuse_with
  refuse_with-Quiet s e w = ground arith

  pub debug-Quiet : (s level : ℕ) (w : World F) → Quiet w (from_client_debug env s level w).0
  unfolding from_client_debug
  debug-Quiet s level w = ground arith

  pub call-Quiet : (s : ℕ) (body : List ℕ) (w : World F) → Quiet w (from_client_call env s body w).0
  unfolding from_client_call
  call-Quiet s body w = ground arith

  pub undecoded-Quiet : (s : ℕ) (w : World F) → Quiet w (undecoded env s w).0
  unfolding undecoded
  undecoded-Quiet s w = ground arith

  pub commit_failed-Quiet :
      (s : ℕ) (w : World F) → Quiet w (commit_undecoded env s (decode_failed env w)).0
  unfolding commit_undecoded decode_failed
  commit_failed-Quiet s w = ground arith

  pub validate_failed-Quiet :
      (s : ℕ) (w : World F) → Quiet w (validate_undecoded env s (decode_failed env w)).0
  unfolding validate_undecoded decode_failed
  validate_failed-Quiet s w = ground arith
