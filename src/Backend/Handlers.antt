-- ===== src/Backend/Handlers.antt =====
-- The database commands of apps/config/config_client.c and config_commit.c, on decoded arguments.
-- Each returns the new state, and true where the source returns 0.
use clicon.Base.{
  ℕ, Bool, true, false, ◌&&◌, not, List, Option, none, some, ◌==◌, if◌then◌else◌, str_eq,
}
use clicon.Proto.Types.{CString}
use clicon.Backend.Types.{
  ErrState, Reason, last_reason, candidate_not_set, lock_failed, rm_failed, copy_failed,
  no_archive_dir, Env, World,
}
pub use clicon.Backend.Reply.{oe_proto}
use clicon.Backend.Reply.{send_msg_ok, refuse}

abbrev pub oe_db : ℕ
oe_db = 1

abbrev pub oe_plugin : ℕ
oe_plugin = 11

abbrev pub oe_fatal : ℕ
oe_fatal = 13

abbrev pub oe_unix : ℕ
oe_unix = 7

-- `clicon_err(...)`.
abbrev pub report : {F : Type 0} → ErrState → World F → World F
report e w = record w { err = e }

module _ {F : Type 0} (env : Env F) where
  -- `candidate is locked by other client`.
  unfoldable pub lock_denied : CString → CString → ℕ → World F → Bool
  lock_denied name candidate pid w =
      str_eq name candidate && (not (w.db_locked == 0) && not (pid == w.db_locked))

  -- The two checks with which the commands that write to a database begin.
  unfoldable pub guarded : ℕ → ℕ → CString → World F → (CString → World F × Bool) → World F × Bool
  unfolding lock_denied refuse
  guarded s pid name w run = elim env.candidate_db [
    | none ↦ refuse env s 0 0 candidate_not_set w
    | some candidate ↦
        if lock_denied name candidate pid w
        then refuse env s oe_db 0 (lock_failed w.db_locked) w
        else run candidate
  ]

  -- An operation that failed with an error, reported to the client.
  unfoldable pub refuse_with : ℕ → ErrState → World F → World F × Bool
  unfolding refuse
  refuse_with s e w = refuse env s e.errno e.suberrno last_reason (report e w)

  finish : ℕ → F × Option ErrState → World F → World F × Bool
  unfolding refuse_with send_msg_ok
  finish s (files, none) w = send_msg_ok env s (record w { files = files })
  finish s (files, some e) w = refuse_with s e (record w { files = files })

  -- A vector that is not understood ends the command with no reply.
  unfoldable pub from_client_change :
      ℕ → ℕ → CString × ℕ × CString × Option (List ℕ) × ℕ → World F → World F × Bool
  unfolding guarded finish
  from_client_change s pid (dbname, op, basekey, lvec, lvec_len) w =
      guarded s pid dbname w λ candidate.
        if env.lvec2cvec lvec lvec_len
        then finish s (env.db_lv_op_exec dbname basekey op lvec w.files) w
        else (w, false)

  error_text : ℕ → ℕ → Reason → ErrState
  error_text errno suberrno why = record {
    errno = errno;
    suberrno = suberrno;
    reason = env.text why;
  }

  -- With no archive directory the command ends with no reply. The decoder gives a file name where
  -- no snapshot is asked for.
  unfoldable pub from_client_save : ℕ → CString × ℕ × Option CString → World F → World F × Bool
  unfolding finish error_text
  from_client_save s (db, snapshot, filename) w =
      if snapshot == 0
      then elim filename [
        | some name ↦ finish s (env.save_db_to_xml name db w.files) w
        | none ↦ (w, false)
      ]
      else elim env.archive_dir [
        | some dir ↦ finish s (env.config_snapshot db dir w.files) w
        | none ↦ (report (error_text oe_plugin 0 no_archive_dir) w, false)
      ]

  load_into : ℕ → CString → CString → World F → World F × Bool
  unfolding finish
  load_into s dbname filename w = finish s (env.load_xml_to_db filename dbname w.files) w

  -- After `db_init`: where it fails the command ends with no reply.
  load_after_init : ℕ → CString → CString → F × Option ErrState → World F → World F × Bool
  unfolding load_into
  load_after_init s dbname filename (files, none) w =
      load_into s dbname filename (record w { files = files })
  load_after_init s dbname filename (files, some e) w =
      (report e (record w { files = files }), false)

  load_after_unlink : ℕ → CString → CString → F × Bool → World F → World F × Bool
  unfolding load_after_init refuse
  load_after_unlink s dbname filename (files, true) w =
      load_after_init s dbname filename (env.db_init dbname files) (record w { files = files })
  load_after_unlink s dbname filename (files, false) w =
      refuse env s oe_unix 0 (rm_failed filename) (record w { files = files })

  unfoldable pub from_client_load : ℕ → ℕ → ℕ × CString × CString → World F → World F × Bool
  unfolding guarded load_after_unlink
  from_client_load s pid (replace, dbname, filename) w = guarded s pid dbname w λ candidate.
      if replace == 0
      then load_into s dbname filename w
      else load_after_unlink s dbname filename (env.unlink dbname w.files) w

  -- The mode of a shared candidate is changed.
  share : CString → CString → F → F
  share name candidate files = if str_eq name candidate then env.chmod name files else files

  initdb_after : ℕ → CString → CString → F × Option ErrState → World F → World F × Bool
  unfolding share send_msg_ok
  initdb_after s name candidate (files, none) w =
      send_msg_ok env s (record w { files = share name candidate files })
  initdb_after s name candidate (files, some e) w = (report e (record w { files = files }), false)

  unfoldable pub from_client_initdb : ℕ → ℕ → CString → World F → World F × Bool
  unfolding guarded initdb_after
  from_client_initdb s pid filename1 w =
      guarded s pid filename1 w
        λ candidate. initdb_after s filename1 candidate (env.db_init filename1 w.files) w

  rm_after : ℕ → CString → F × Bool → World F → World F × Bool
  unfolding send_msg_ok refuse
  rm_after s name (files, true) w = send_msg_ok env s (record w { files = files })
  rm_after s name (files, false) w =
      refuse env s oe_unix 0 (rm_failed name) (record w { files = files })

  unfoldable pub from_client_rm : ℕ → ℕ → CString → World F → World F × Bool
  unfolding guarded rm_after
  from_client_rm s pid filename1 w =
      guarded s pid filename1 w λ candidate. rm_after s filename1 (env.unlink filename1 w.files) w

  copy_after : ℕ → CString → CString → CString → F × Bool → World F → World F × Bool
  unfolding share send_msg_ok refuse
  copy_after s from to candidate (files, true) w =
      send_msg_ok env s (record w { files = share to candidate files })
  copy_after s from to candidate (files, false) w =
      refuse env s oe_unix (env.os_errno files) (copy_failed from to) (record w { files = files })

  unfoldable pub from_client_copy : ℕ → ℕ → CString × CString → World F → World F × Bool
  unfolding guarded copy_after
  from_client_copy s pid (filename1, filename2) w = guarded s pid filename2 w λ candidate.
      copy_after s filename1 filename2 candidate (env.file_cp filename1 filename2 w.files) w
