-- ===== src/Backend/Refusal.antt =====
-- What the client reads in an error reply of `send_msg_err`.
use clicon.Base.{ℕ, ◌+◌, ◌≡◌, ◌<◌, ◌^◌, refl, true, [], ◌∷◌, length, some, arith}
use clicon.Proto.Types.{Sized, Msg, MsgType, CString, IsCString, strlen}
use clicon.Proto.Buffer.{ok, failed}
use clicon.Proto.Reading.{Grants, decode_sent}
use clicon.Proto.Writing.{length-str}
use clicon.Proto.Wire.{u32, str, wire, wire_message}
use clicon.Proto.Decode.{clicon_msg_err_decode, clicon_msg_validate_decode}
use clicon.Proto.Layout.Replies.{err_layout}
use clicon.Proto.RoundTrip.Replies.{err_roundtrip}
use clicon.Backend.Types.{ErrState, Reason, last_reason, Client, Env, World}
use clicon.Backend.Reply.{send_msg_err, reason_text}
use clicon.Backend.Commit.{validate_undecoded, send_error}
use clicon.Backend.Dispatch.{received, msg_case, run_decoded, decode_failed, from_client}

module _ {F : Type 0} (env : Env F) where
  abbrev pub err_reply : ErrState → CString → Msg
  err_reply e text = wire_message MsgType.err_reply (u32 e.errno ∷ u32 e.suberrno ∷ str text ∷ [])

  -- The codes of the last error fit 32 bits, and there is memory for the reply.
  pub record Sendable (s : ℕ) (text : CString) (w : World F) : Type 0 where
    pub socket_writable : env.writable s ≡ true
    pub errno_fits : w.err.errno < 2 ^ 32
    pub suberrno_fits : w.err.suberrno < 2 ^ 32
    pub text_string : IsCString text
    pub reply_grants :
        Grants env.granted
          (4 + length (wire (u32 w.err.errno ∷ u32 w.err.suberrno ∷ str text ∷ [])))

  reply-decode :
      (s : ℕ) (text : CString) (w : World F)
      → Sendable s text w
      → clicon_msg_err_decode env.granted (err_reply w.err text)
        ≡ ok (w.err.errno, w.err.suberrno, text)
  reply-decode s text w h =
      decode_sent _ _ (clicon_msg_err_decode env.granted) _
        (err_layout env.granted w.err.errno w.err.suberrno text
          (h.reply_grants _ (omega arith) (omega arith)))
        (err_roundtrip env.granted w.err.errno w.err.suberrno text h.errno_fits h.suberrno_fits
          h.text_string h.reply_grants)

  send_msg_err_lem :
      (s err suberr : ℕ) (why : Reason) (w : World F)
      → Sendable s (reason_text env why w) w
      → send_msg_err env s err suberr why w
        ≡ (record w { sent = (s, err_reply w.err (reason_text env why w)) ∷ w.sent }, true)
  unfolding send_msg_err
  send_msg_err_lem s err suberr why w h =
      let text = reason_text env why w in
      rw
        (
          h.reply_grants (strlen text + 1) (omega arith) (omega (arith, length-str text [])),
          err_layout env.granted w.err.errno w.err.suberrno text
              (h.reply_grants _ (omega arith) (omega arith)),
          h.socket_writable,
        )
        refl

  -- The client of an error reply reads the codes of the last reported error, whatever codes
  -- `send_msg_err` was called with, and the text of the call.
  pub send_msg_err-decode :
      (s err suberr : ℕ) (why : Reason) (w : World F)
      → Sendable s (reason_text env why w) w
      → (m : Msg) × (send_msg_err env s err suberr why w
          ≡ (record w { sent = (s, m) ∷ w.sent }, true))
        × (clicon_msg_err_decode env.granted m
            ≡ ok (w.err.errno, w.err.suberrno, reason_text env why w))
  send_msg_err-decode s err suberr why w h =
      (_, send_msg_err_lem s err suberr why w h, reply-decode s _ w h)

  -- A validate message for which the decoder finds no memory is answered with the same error reply
  -- twice, where replies can be sent: nothing else happens but that
  -- the decoder reports its error.
  pub validate-answered_twice :
      (ce : Client) (msg : Msg) (sized : Sized msg) (w : World F)
      → msg_case msg.op_type ≡ some MsgType.validate
      → clicon_msg_validate_decode env.granted msg ≡ failed
      → Sendable ce.ce_s (decode_failed env w).err.reason (decode_failed env w)
      → (m : Msg) × (from_client env ce (received msg sized) w
          ≡ ok (record (decode_failed env w) { sent = (ce.ce_s, m) ∷ (ce.ce_s, m) ∷ w.sent }))
  unfolding from_client run_decoded validate_undecoded send_error reason_text decode_failed
  validate-answered_twice ce msg sized w label unread h =
      let v = decode_failed env w in
      let reply = err_reply v.err v.err.reason in
      let once : World F = record v { sent = (ce.ce_s, reply) ∷ v.sent } in
      let again : Sendable ce.ce_s once.err.reason once = record {
        socket_writable = h.socket_writable;
        errno_fits = h.errno_fits;
        suberrno_fits = h.suberrno_fits;
        text_string = h.text_string;
        reply_grants = h.reply_grants;
      } in
      (
        reply,
        rw
            (
              label,
              unread,
              send_msg_err_lem ce.ce_s v.err.errno v.err.suberrno last_reason v h,
              send_msg_err_lem ce.ce_s once.err.errno once.err.suberrno last_reason once again,
            )
            refl,
      )
