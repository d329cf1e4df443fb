-- ===== src/Backend/Reply.antt =====
-- The replies: `send_msg_ok`, `send_msg_reply` and `send_msg_err` of lib/src/clicon_proto.c. The
-- Boolean is true where the source returns 0, and the newest message stands first in `sent`.
use clicon.Base.{ℕ, ◌+◌, Bool, true, false, List, [], ◌∷◌, length, if◌then◌else◌}
use clicon.Proto.Types.{Msg, MsgType, CString, strlen, sizeof_msg}
use clicon.Proto.Buffer.{Run, ok, failed, overrun, message}
use clicon.Proto.Encode.{clicon_msg_err_encode}
use clicon.Backend.Types.{Reason, last_reason, chunk_failed, send_failed, Env, World}

abbrev pub oe_cfg : ℕ
oe_cfg = 4

abbrev pub oe_proto : ℕ
oe_proto = 5

module _ {F : Type 0} (env : Env F) where
  -- `clicon_err` with the `errno` of the system.
  failing : ℕ → Reason → World F → World F × Bool
  failing errno why w = (
    record w {
      err = record { errno = errno; suberrno = env.os_errno w.files; reason = env.text why };
    },
    false,
  )

  -- Whether the socket takes the message is up to the system.
  clicon_msg_send : ℕ → Msg → World F → World F × Bool
  unfolding failing
  clicon_msg_send s msg w =
      if env.writable s
      then (record w { sent = (s, msg) ∷ w.sent }, true)
      else failing oe_cfg send_failed w

  unfoldable pub send_msg_reply : ℕ → MsgType → List ℕ → World F → World F × Bool
  unfolding clicon_msg_send
  send_msg_reply s type data_bytes w =
      let len = sizeof_msg + length data_bytes in
      if env.granted len then clicon_msg_send s (message type len data_bytes) w else (w, false)

  unfoldable pub send_msg_ok : ℕ → World F → World F × Bool
  unfolding send_msg_reply
  send_msg_ok s w = send_msg_reply s MsgType.ok_reply [] w

  unfoldable pub reason_text : Reason → World F → CString
  reason_text last_reason w = w.err.reason
  reason_text why w = env.text why

  -- The message of an encoder, which reports that it found no memory.
  send_encoded : ℕ → Run Msg → World F → World F × Bool
  unfolding clicon_msg_send failing
  send_encoded s (ok msg) w = clicon_msg_send s msg w
  send_encoded s failed w = failing oe_proto chunk_failed w
  send_encoded s overrun w = (w, false)

  -- The arguments `err` and `suberr` are not used: the encoder is handed the globals.
  unfoldable pub send_msg_err : ℕ → ℕ → ℕ → Reason → World F → World F × Bool
  unfolding reason_text send_encoded
  send_msg_err s err suberr why w =
      let reason = reason_text why w in
      if env.granted (strlen reason + 1)
      then send_encoded s (clicon_msg_err_encode env.granted w.err.errno w.err.suberrno reason) w
      else (w, false)

  -- The two ways in which the handlers end: an error reply with -1, a reply that all is well.
  unfoldable pub refuse : ℕ → ℕ → ℕ → Reason → World F → World F × Bool
  unfolding send_msg_err
  refuse s err suberr why w = ((send_msg_err s err suberr why w).0, false)
