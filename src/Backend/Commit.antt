-- ===== src/Backend/Commit.antt =====
-- The commit and validate commands of apps/config/config_commit.c, on decoded arguments.
use clicon.Base.{ℕ, Bool, true, false, [], ◌∷◌, ◌++◌, Option, none, some, ◌==◌, if◌then◌else◌}
use clicon.Proto.Types.{CString}
use clicon.Backend.Types.{
  ErrState, Reason, last_reason, no_archive_dir, no_archive_for_startup, no_startup_config,
  startup_failed, running_not_set, Env, World,
}
use clicon.Backend.Reply.{send_msg_ok, send_msg_err}
use clicon.Backend.Handlers.{report, oe_plugin, oe_proto, oe_fatal}

module _ {F : Type 0} (env : Env F) where
  error_text : ℕ → ℕ → Reason → ErrState
  error_text errno suberrno why = record {
    errno = errno;
    suberrno = suberrno;
    reason = env.text why;
  }

  -- A step on the files that is not made after a failed one.
  then_step : F × Option ErrState → (F → F × Option ErrState) → F × Option ErrState
  then_step (files, none) step = step files
  then_step (files, some e) step = (files, some e)

  take_snapshot : CString → ℕ → F → F × Option ErrState
  unfolding error_text
  take_snapshot running snapshot files =
      if snapshot == 0 then (files, none) else elim env.archive_dir [
        | none ↦ (files, some (error_text oe_plugin 0 no_archive_dir))
        | some dir ↦ env.config_snapshot running dir files
      ]

  copied : F × Bool → F × Option ErrState
  unfolding error_text
  copied (files, true) = (files, none)
  copied (files, false) = (files, some (error_text oe_proto (env.os_errno files) startup_failed))

  -- The newest snapshot, "DIR/0", is copied to the startup configuration.
  save_startup : ℕ → F → F × Option ErrState
  unfolding error_text copied
  save_startup startup files = if startup == 0 then (files, none) else elim env.archive_dir [
    | none ↦ (files, some (error_text oe_plugin 0 no_archive_for_startup))
    | some dir ↦ elim env.startup_config [
      | none ↦ (files, some (error_text oe_plugin 0 no_startup_config))
      | some config ↦ copied (env.file_cp (dir ++ b'/' ∷ b'0' ∷ []) config files)
    ]
  ]

  -- The label `err` of both functions: `retval` is true where it was 0 before the jump.
  unfoldable pub send_error : ℕ → Bool → World F → World F × Bool
  unfolding send_msg_err
  send_error s retval w =
      let sent = send_msg_err env s w.err.errno w.err.suberrno last_reason w in
      (sent.0, if sent.1 then retval else false)

  commit_saved : ℕ → F × Option ErrState → World F → World F × Bool
  unfolding send_error send_msg_ok
  commit_saved s (files, none) w = ((send_msg_ok env s (record w { files = files })).0, true)
  commit_saved s (files, some e) w = send_error s false (report e (record w { files = files }))

  commit_after : ℕ → CString → ℕ → ℕ → F × Option ErrState → World F → World F × Bool
  unfolding commit_saved then_step take_snapshot save_startup
  commit_after s running snapshot startup (files, none) w =
      commit_saved s (then_step (take_snapshot running snapshot files) (save_startup startup)) w
  commit_after s running snapshot startup (files, some e) w =
      send_error s true (report e (record w { files = files }))

  -- The lock on the candidate is not looked at.
  unfoldable pub from_client_commit : ℕ → CString × CString × ℕ × ℕ → World F → World F × Bool
  unfolding commit_after
  from_client_commit s (candidate, running, snapshot, startup) w =
      commit_after s running snapshot startup (env.candidate_commit candidate running w.files) w

  validate_after : ℕ → F × Option ErrState → World F → World F × Bool
  unfolding send_error send_msg_ok
  validate_after s (files, none) w = ((send_msg_ok env s (record w { files = files })).0, true)
  validate_after s (files, some e) w = send_error s true (report e (record w { files = files }))

  unfoldable pub from_client_validate : ℕ → CString → World F → World F × Bool
  unfolding validate_after error_text
  from_client_validate s dbname w = elim env.running_db [
    | none ↦ send_error s false (report (error_text oe_fatal 0 running_not_set) w)
    | some running ↦ validate_after s (env.candidate_validate dbname running w.files) w
  ]

  -- Where the message cannot be decoded, the error is sent, and sent again at the label `err`.
  unfoldable pub validate_undecoded : ℕ → World F → World F × Bool
  unfolding send_error send_msg_err
  validate_undecoded s w =
      send_error s false (send_msg_err env s w.err.errno w.err.suberrno last_reason w).0

  unfoldable pub commit_undecoded : ℕ → World F → World F × Bool
  unfolding send_error
  commit_undecoded s w = send_error s false w
