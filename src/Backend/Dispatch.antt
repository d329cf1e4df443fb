-- ===== src/Backend/Dispatch.antt =====
-- `from_client` of apps/config/config_client.c: what arrives on a client's socket is decoded and
-- handed to its command. It returns 0 on every path, so the result is the state alone.
use clicon.Base.{ℕ, Bool, Option, none, some, ◌==◌, if◌then◌else◌}
use clicon.Proto.Types.{Msg, MsgType, CString, Sized}
use clicon.Proto.Buffer.{Run, ok, failed, overrun}
use clicon.Proto.Decode.{
  clicon_msg_commit_decode, clicon_msg_validate_decode, clicon_msg_change_decode,
  clicon_msg_save_decode, clicon_msg_load_decode, clicon_msg_initdb_decode, clicon_msg_rm_decode,
  clicon_msg_copy_decode, clicon_msg_lock_decode, clicon_msg_unlock_decode, clicon_msg_kill_decode,
  clicon_msg_debug_decode, clicon_msg_subscription_decode,
}
use clicon.Backend.Types.{chunk_failed, unexpected_message, Client, Env, World}
use clicon.Backend.Reply.{oe_cfg, refuse}
use clicon.Backend.Clients.{backend_client_rm}
use clicon.Backend.Handlers.{
  oe_proto, report, refuse_with, from_client_change, from_client_save, from_client_load,
  from_client_initdb, from_client_rm, from_client_copy,
}
use clicon.Backend.Commit.{
  from_client_commit, from_client_validate, commit_undecoded, validate_undecoded,
}
use clicon.Backend.Sessions.{
  from_client_lock, from_client_unlock, from_client_kill, from_client_debug, from_client_call,
  from_client_subscription,
}

-- What `clicon_msg_rcv` gives: an error, of which it reports the system's number and a text, the end of
-- the stream, or a message, which has as many bytes as its header says.
pub data Input : Type 0 where
  broken : ℕ → CString → Input
  eof : Input
  received : (msg : Msg) → Sized msg → Input

-- The label of the `switch` that the message type selects.
unfoldable pub msg_case : ℕ → Option MsgType
msg_case t =
    if t == 1
    then some MsgType.commit
    else if t == 2
    then some MsgType.validate
    else if t == 3
    then some MsgType.change
    else if t == 4
    then some MsgType.save
    else if t == 5
    then some MsgType.load
    else if t == 7
    then some MsgType.rm
    else if t == 8
    then some MsgType.initdb
    else if t == 6
    then some MsgType.copy
    else if t == 9
    then some MsgType.lock
    else if t == 10
    then some MsgType.unlock
    else if t == 11
    then some MsgType.kill
    else if t == 12
    then some MsgType.debug
    else if t == 13
    then some MsgType.call
    else if t == 14
    then some MsgType.subscription
    else none

-- A command on what was decoded, or what is done where nothing was.
module _ {F : Type 0} where
  unfoldable pub run_decoded :
      {A : Type 0} → Run A → World F × Bool → (A → World F × Bool) → Run (World F)
  run_decoded (ok args) undecoded run = ok (run args).0
  run_decoded failed undecoded run = ok undecoded.0
  run_decoded overrun undecoded run = overrun

module _ {F : Type 0} (env : Env F) where
  -- The state after `clicon_err` of a decoder that found no memory.
  unfoldable pub decode_failed : World F → World F
  decode_failed w =
      report
        (record {
          errno = oe_proto;
          suberrno = env.os_errno w.files;
          reason = env.text chunk_failed;
        })
        w

  unfoldable pub undecoded : ℕ → World F → World F × Bool
  unfolding refuse_with
  undecoded s w =
      refuse_with env s
        (record {
          errno = oe_proto;
          suberrno = env.os_errno w.files;
          reason = env.text chunk_failed;
        })
        w

  unfoldable pub dispatch : Client → Msg → Option MsgType → World F → Run (World F)
  unfolding run_decoded undecoded decode_failed
  dispatch ce msg (some MsgType.commit) w =
      run_decoded (clicon_msg_commit_decode env.granted msg)
        (commit_undecoded env ce.ce_s (decode_failed w)) (λ a. from_client_commit env ce.ce_s a w)
  dispatch ce msg (some MsgType.validate) w =
      run_decoded (clicon_msg_validate_decode env.granted msg)
        (validate_undecoded env ce.ce_s (decode_failed w))
        (λ a. from_client_validate env ce.ce_s a w)
  dispatch ce msg (some MsgType.change) w =
      run_decoded (clicon_msg_change_decode env.granted msg) (undecoded ce.ce_s w)
        (λ a. from_client_change env ce.ce_s ce.ce_pid a w)
  dispatch ce msg (some MsgType.save) w =
      run_decoded (clicon_msg_save_decode env.granted msg) (undecoded ce.ce_s w)
        (λ a. from_client_save env ce.ce_s a w)
  dispatch ce msg (some MsgType.load) w =
      run_decoded (clicon_msg_load_decode env.granted msg) (undecoded ce.ce_s w)
        (λ a. from_client_load env ce.ce_s ce.ce_pid a w)
  dispatch ce msg (some MsgType.rm) w =
      run_decoded (clicon_msg_rm_decode env.granted msg) (undecoded ce.ce_s w)
        (λ a. from_client_rm env ce.ce_s ce.ce_pid a w)
  dispatch ce msg (some MsgType.initdb) w =
      run_decoded (clicon_msg_initdb_decode env.granted msg) (undecoded ce.ce_s w)
        (λ a. from_client_initdb env ce.ce_s ce.ce_pid a w)
  dispatch ce msg (some MsgType.copy) w =
      run_decoded (clicon_msg_copy_decode env.granted msg) (undecoded ce.ce_s w)
        (λ a. from_client_copy env ce.ce_s ce.ce_pid a w)
  dispatch ce msg (some MsgType.lock) w =
      run_decoded (clicon_msg_lock_decode env.granted msg) (undecoded ce.ce_s w)
        (λ a. from_client_lock env ce.ce_s ce.ce_pid a w)
  dispatch ce msg (some MsgType.unlock) w =
      run_decoded (clicon_msg_unlock_decode env.granted msg) (undecoded ce.ce_s w)
        (λ a. from_client_unlock env ce.ce_s ce.ce_pid a w)
  dispatch ce msg (some MsgType.kill) w =
      run_decoded (clicon_msg_kill_decode msg) (undecoded ce.ce_s w)
        (λ a. from_client_kill env ce.ce_s a w)
  dispatch ce msg (some MsgType.debug) w =
      run_decoded (clicon_msg_debug_decode msg) (undecoded ce.ce_s w)
        (λ a. from_client_debug env ce.ce_s a w)
  dispatch ce msg (some MsgType.call) w = ok (from_client_call env ce.ce_s msg.op_body w).0
  dispatch ce msg (some MsgType.subscription) w =
      run_decoded (clicon_msg_subscription_decode env.granted msg) (undecoded ce.ce_s w)
        (λ a. from_client_subscription env ce a w)
  dispatch ce msg _ w = ok (refuse env ce.ce_s oe_proto 0 (unexpected_message msg.op_type) w).0

  unfoldable pub from_client : Client → Input → World F → Run (World F)
  unfolding dispatch msg_case backend_client_rm
  from_client ce (broken suberr reason) w =
      ok (report (record { errno = oe_cfg; suberrno = suberr; reason = reason }) w)
  from_client ce eof w = ok (backend_client_rm ce w)
  from_client ce (received msg sized) w = dispatch ce msg (msg_case msg.op_type) w
