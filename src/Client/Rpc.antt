-- ===== src/Client/Rpc.antt =====
-- Requests of a client: `clicon_rpc` and `clicon_rpc_connect` of lib/src/clicon_proto.c, and
-- lib/src/clicon_proto_client.c.
use clicon.Base.{ℕ, Bool, List, take, ◌==◌, if◌then◌else◌}
use clicon.Proto.Types.{Msg, MsgType, op_code, CString}
use clicon.Proto.Buffer.{Run, ok, failed, overrun}
use clicon.Proto.Encode.{
  clicon_msg_copy_encode, clicon_msg_change_encode, clicon_msg_commit_encode,
  clicon_msg_validate_encode, clicon_msg_save_encode, clicon_msg_load_encode,
  clicon_msg_initdb_encode, clicon_msg_rm_encode, clicon_msg_lock_encode, clicon_msg_unlock_encode,
  clicon_msg_kill_encode, clicon_msg_debug_encode,
}
use clicon.Proto.Decode.{clicon_msg_err_decode}
use clicon.Backend.Types.{ErrState}
use clicon.Client.Socket.{
  Arrival, Received, message_rcvd, eof_rcvd, rcv_failed, rcv_overrun, Host16, clicon_msg_rcv,
}

-- Where a request fails: the errors that the library reports itself.
pub data Trouble : Type 0 where
  not_running not_a_socket not_connected not_sent not_received not_decoded : Trouble
  unexpected_close not_encoded : Trouble
  unexpected_reply : ℕ → Trouble

-- What a client finds: memory, the order of bytes, the path of the daemon's socket, and what the
-- daemon sends back on it to a message.
pub record Remote : Type 0 where
  pub granted : ℕ → Bool
  pub host : Host16
  pub path_exists : Bool
  pub path_is_socket : Bool
  pub accepts : Bool
  pub takes : Msg → Bool
  pub answers : Msg → List Arrival
  -- the error that each report leaves in the globals
  pub trouble : Trouble → ErrState

-- What a call of the library returns: the body of the reply, -1 with the globals, or no C value.
pub data Outcome : Type 0 where
  done : List ℕ → Outcome
  refused : ErrState → Outcome
  broken_off : Outcome

-- `clicon_err(err, suberr, "%s", reason)`; the text is cut at ERR_STRLEN - 1 characters.
abbrev pub clicon_err : ℕ → ℕ → CString → ErrState
clicon_err err suberr reason = record { errno = err; suberrno = suberr; reason = take 255 reason }

module _ (peer : Remote) where
  decoded_error : Run (ℕ × ℕ × CString) → Outcome
  decoded_error (ok (err, suberr, reason)) = refused (clicon_err err suberr reason)
  decoded_error failed = refused (peer.trouble not_decoded)
  decoded_error overrun = broken_off

  -- The switch on the type of the reply.
  on_reply : Msg → Outcome
  unfolding decoded_error
  on_reply reply =
      if reply.op_type == op_code MsgType.ok_reply
      then done reply.op_body
      else if reply.op_type == op_code MsgType.err_reply
      then decoded_error (clicon_msg_err_decode peer.granted reply)
      else refused (peer.trouble (unexpected_reply reply.op_type))

  after_rcv : Received → Outcome
  unfolding on_reply
  after_rcv (message_rcvd reply) = on_reply reply
  after_rcv eof_rcvd = refused (peer.trouble unexpected_close)
  after_rcv rcv_failed = refused (peer.trouble not_received)
  after_rcv rcv_overrun = broken_off

  unfoldable pub clicon_rpc : Msg → Outcome
  unfolding after_rcv
  clicon_rpc msg =
      if peer.takes msg
      then after_rcv (clicon_msg_rcv peer.granted peer.host (peer.answers msg))
      else refused (peer.trouble not_sent)

  -- A connection for one request: connect, send, receive, close.
  unfoldable pub clicon_rpc_connect : Msg → Outcome
  unfolding clicon_rpc
  clicon_rpc_connect msg =
      if peer.path_exists
      then if peer.path_is_socket
        then if peer.accepts then clicon_rpc msg else refused (peer.trouble not_connected)
        else refused (peer.trouble not_a_socket)
      else refused (peer.trouble not_running)

  -- The functions of clicon_proto_client.c encode a message and send it.
  unfoldable pub request : Run Msg → Outcome
  unfolding clicon_rpc_connect
  request (ok msg) = clicon_rpc_connect msg
  request failed = refused (peer.trouble not_encoded)
  request overrun = broken_off

  unfoldable pub clicon_proto_copy : CString → CString → Outcome
  unfolding request
  clicon_proto_copy filename1 filename2 =
      request (clicon_msg_copy_encode peer.granted filename1 filename2)

  unfoldable pub clicon_proto_change : CString → ℕ → CString → List ℕ → Outcome
  unfolding request
  clicon_proto_change db op key lvec =
      request (clicon_msg_change_encode peer.granted db op key lvec)

  unfoldable pub clicon_proto_commit : CString → CString → ℕ → ℕ → Outcome
  unfolding request
  clicon_proto_commit running_db db snapshot startup =
      request (clicon_msg_commit_encode peer.granted db running_db snapshot startup)

  unfoldable pub clicon_proto_validate : CString → Outcome
  unfolding request
  clicon_proto_validate db = request (clicon_msg_validate_encode peer.granted db)

  unfoldable pub clicon_proto_save : CString → ℕ → CString → Outcome
  unfolding request
  clicon_proto_save dbname snapshot filename =
      request (clicon_msg_save_encode peer.granted dbname snapshot filename)

  unfoldable pub clicon_proto_load : ℕ → CString → CString → Outcome
  unfolding request
  clicon_proto_load replace db filename =
      request (clicon_msg_load_encode peer.granted replace db filename)

  unfoldable pub clicon_proto_initdb : CString → Outcome
  unfolding request
  clicon_proto_initdb filename = request (clicon_msg_initdb_encode peer.granted filename)

  unfoldable pub clicon_proto_rm : CString → Outcome
  unfolding request
  clicon_proto_rm filename = request (clicon_msg_rm_encode peer.granted filename)

  unfoldable pub clicon_proto_lock : CString → Outcome
  unfolding request
  clicon_proto_lock db = request (clicon_msg_lock_encode peer.granted db)

  unfoldable pub clicon_proto_unlock : CString → Outcome
  unfolding request
  clicon_proto_unlock db = request (clicon_msg_unlock_encode peer.granted db)

  unfoldable pub clicon_proto_kill : ℕ → Outcome
  unfolding request
  clicon_proto_kill session_id = request (clicon_msg_kill_encode peer.granted session_id)

  unfoldable pub clicon_proto_debug : ℕ → Outcome
  unfolding request
  clicon_proto_debug level = request (clicon_msg_debug_encode peer.granted level)
