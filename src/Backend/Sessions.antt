-- ===== src/Backend/Sessions.antt =====
-- The lock of apps/config/config_lock.c, and the session commands of config_client.c on decoded
-- arguments.
use clicon.Base.{ℕ, Bool, true, false, List, ◌∷◌, ◌==◌, if◌then◌else◌, Option, none, some, str_eq}
use clicon.Proto.Types.{CString, MsgType}
use clicon.Backend.Types.{
  Reason, last_reason, candidate_not_set, lock_failed, unlock_failed, can_not_lock, can_not_unlock,
  malloc_failed, ErrState, Client, Env, World,
}
use clicon.Backend.Reply.{send_msg_ok, send_msg_reply, refuse}
use clicon.Backend.Clients.{
  put_client, ce_find_bypid, backend_client_rm, client_subscription_add, drop_stream,
}
use clicon.Backend.Handlers.{report, oe_db, oe_plugin, refuse_with}

module _ {F : Type 0} where
  unfoldable pub db_lock : ℕ → World F → World F
  db_lock id w = record w { db_locked = id }

  unfoldable pub db_unlock : World F → World F
  db_unlock w = if w.db_locked == 0 then w else record w { db_locked = 0 }

  abbrev pub db_islocked : World F → ℕ
  db_islocked w = w.db_locked

module _ {F : Type 0} (env : Env F) where
  -- Both commands want the name of the candidate.
  on_candidate :
      ℕ → CString → (CString → CString → Reason) → World F → World F × Bool → World F × Bool
  unfolding refuse
  on_candidate s db why w run = elim env.candidate_db [
    | none ↦ refuse env s 0 0 candidate_not_set w
    | some candidate ↦
        if str_eq db candidate then run else refuse env s oe_db 0 (why db candidate) w
  ]

  unfoldable pub from_client_lock : ℕ → ℕ → CString → World F → World F × Bool
  unfolding on_candidate db_lock send_msg_ok refuse
  from_client_lock s pid db w = on_candidate s db can_not_lock w (
      if db_islocked w == 0
      then send_msg_ok env s (db_lock pid w)
      else if pid == db_islocked w
      then send_msg_ok env s w
      else refuse env s oe_db 0 (lock_failed (db_islocked w)) w)

  unfoldable pub from_client_unlock : ℕ → ℕ → CString → World F → World F × Bool
  unfolding on_candidate db_unlock send_msg_ok refuse
  from_client_unlock s pid db w = on_candidate s db can_not_unlock w (
      if db_islocked w == 0
      then send_msg_ok env s w
      else if pid == db_islocked w
      then send_msg_ok env s (db_unlock w)
      else refuse env s oe_db 0 (unlock_failed (db_islocked w)) w)

  unfoldable pub remove_pid : ℕ → World F → World F
  unfolding ce_find_bypid backend_client_rm
  remove_pid pid w = elim (ce_find_bypid pid w.ce_list) [
    | none ↦ w
    | some ce ↦ backend_client_rm ce w
  ]

  signal : ℕ → World F → World F
  signal pid w = if env.alive pid then record w { signalled = pid ∷ w.signalled } else w

  clear_lock : ℕ → World F → World F
  unfolding db_unlock
  clear_lock pid w = if db_islocked w == pid then db_unlock w else w

  -- The state when the killer is answered.
  unfoldable pub killed : ℕ → World F → World F
  unfolding clear_lock signal remove_pid
  killed pid w = clear_lock pid (signal pid (remove_pid pid w))

  unfoldable pub from_client_kill : ℕ → ℕ → World F → World F × Bool
  unfolding killed send_msg_ok
  from_client_kill s pid w = send_msg_ok env s (killed pid w)

  unfoldable pub from_client_debug : ℕ → ℕ → World F → World F × Bool
  unfolding send_msg_ok
  from_client_debug s level w = send_msg_ok env s (record w { debug_level = level })

  after_downcall : F → Option ErrState → World F → World F
  after_downcall files none w = record w { files = files }
  after_downcall files (some e) w = report e (record w { files = files })

  -- A downcall that fails is refused with the last error that was reported, by it or before it.
  answer_call : ℕ → Option (List ℕ) → World F → World F × Bool
  unfolding send_msg_reply refuse
  answer_call s (some reply) w = send_msg_reply env s MsgType.ok_reply reply w
  answer_call s none w = refuse env s w.err.errno w.err.suberrno last_reason w

  called : ℕ → F × Option (List ℕ) × Option ErrState → World F → World F × Bool
  unfolding answer_call after_downcall
  called s (files, reply, reported) w = answer_call s reply (after_downcall files reported w)

  -- The plugin is handed the undecoded body.
  unfoldable pub from_client_call : ℕ → List ℕ → World F → World F × Bool
  unfolding called
  from_client_call s body w = called s (env.plugin_downcall body w.files) w

  -- `clicon_log_register_callback(NULL, NULL)`, the reply, and the old callback again, unless the
  -- reply could not be sent.
  acknowledge : Bool → World F × Bool → World F × Bool
  acknowledge old (w, true) = (record w { log_callback = old }, true)
  acknowledge old (w, false) = (w, false)

  subscribed : ℕ → List Client → World F → World F × Bool
  unfolding acknowledge send_msg_ok
  subscribed s clients w =
      acknowledge w.log_callback
        (send_msg_ok env s (record w { ce_list = clients; log_callback = false }))

  -- `sizeof(struct client_subscription)` is 32.
  unfoldable pub from_client_subscription :
      Client → ℕ × CString × ℕ × CString → World F → World F × Bool
  unfolding subscribed put_client client_subscription_add drop_stream refuse_with
  from_client_subscription ce (status, stream, format, filter) w =
      if status == 0
      then subscribed ce.ce_s
          (put_client (record ce { ce_subscription = drop_stream stream ce.ce_subscription })
            w.ce_list)
          w
      else if env.malloced 32
      then subscribed ce.ce_s
          (put_client (client_subscription_add ce stream format filter) w.ce_list) w
      else refuse_with env ce.ce_s
          (record {
            errno = oe_plugin;
            suberrno = env.os_errno w.files;
            reason = env.text malloc_failed;
          })
          w
