-- ===== src/Backend/Request/Served.antt =====
-- A request on its way, from the encoder of lib/src/clicon_proto_encode.c over a socket to `from_client`.
use clicon.Base.{
  ℕ, ◌+◌, ◌≡◌, ◌<◌, ◌^◌, ◌%◌, ap, ◌∙◌, ◌++◌, refl, Bool, List, [], ◌∷◌, length, arith,
}
use clicon.Proto.Types.{Msg, MsgType, op_code, CString, Sized}
use clicon.Client.Socket.{Arrival, Host16, message_rcvd, clicon_msg_rcv}
use clicon.Client.Receive.{packed, clicon_msg_rcv-body}
use clicon.Proto.Buffer.{Run, ok, ◌>>=◌}
use clicon.Proto.Reading.{Grants, decode_sent}
use clicon.Proto.Wire.{wire}
use clicon.Proto.Encode.{
  clicon_msg_initdb_encode, clicon_msg_rm_encode, clicon_msg_lock_encode, clicon_msg_unlock_encode,
}
use clicon.Proto.Decode.{
  clicon_msg_commit_decode, clicon_msg_validate_decode, clicon_msg_change_decode,
  clicon_msg_save_decode, clicon_msg_load_decode, clicon_msg_initdb_decode, clicon_msg_rm_decode,
  clicon_msg_copy_decode, clicon_msg_lock_decode, clicon_msg_unlock_decode, clicon_msg_kill_decode,
  clicon_msg_debug_decode, clicon_msg_subscription_decode,
}
use clicon.Proto.Layout.Commands.{
  save_layout, commit_layout, load_layout, copy_layout, change_layout,
}
use clicon.Proto.Layout.Replies.{
  1str_layout, kill_layout, debug_layout, subscription_layout, validate_layout,
}
use clicon.Proto.RoundTrip.Commands.{
  commit_roundtrip, load_roundtrip, copy_roundtrip, change_roundtrip, save_roundtrip,
}
use clicon.Proto.RoundTrip.Replies.{
  1str_roundtrip, kill_roundtrip, debug_roundtrip, subscription_roundtrip, validate_roundtrip,
}
use clicon.Backend.Types.{Client, Env, World}
use clicon.Backend.Handlers.{
  from_client_change, from_client_save, from_client_load, from_client_initdb, from_client_rm,
  from_client_copy,
}
use clicon.Backend.Commit.{from_client_commit, from_client_validate}
use clicon.Backend.Sessions.{
  from_client_lock, from_client_unlock, from_client_kill, from_client_debug,
  from_client_subscription,
}
use clicon.Backend.Dispatch.{received, run_decoded, msg_case, dispatch, from_client}
use clicon.Backend.Request.{
  Request, request_fields, Encodable, encode, request_type, request_message, perform,
}

op_code-small : (t : MsgType) → op_code t < 2 ^ 16
op_code-small MsgType.commit = omega arith
op_code-small MsgType.validate = omega arith
op_code-small MsgType.change = omega arith
op_code-small MsgType.save = omega arith
op_code-small MsgType.load = omega arith
op_code-small MsgType.copy = omega arith
op_code-small MsgType.rm = omega arith
op_code-small MsgType.initdb = omega arith
op_code-small MsgType.lock = omega arith
op_code-small MsgType.unlock = omega arith
op_code-small MsgType.kill = omega arith
op_code-small MsgType.debug = omega arith
op_code-small MsgType.call = omega arith
op_code-small MsgType.subscription = omega arith
op_code-small MsgType.ok_reply = omega arith
op_code-small MsgType.notify = omega arith
op_code-small MsgType.err_reply = omega arith

-- A string field takes a byte at least.
str-HasBody : (s : CString) (rest : List ℕ) → 0 < length ((s ++ 0 ∷ []) ++ rest)
str-HasBody [] rest = omega arith
str-HasBody (c ∷ s) rest = omega arith

request-HasBody : (r : Request) → 0 < length (wire (request_fields r))
request-HasBody (Request.commit src dst snapshot startup) = omega arith
request-HasBody (Request.change db op key lvec) = omega arith
request-HasBody (Request.save db snapshot filename) = omega arith
request-HasBody (Request.load replace db filename) = omega arith
request-HasBody (Request.copy src dst) = str-HasBody src _
request-HasBody (Request.validate db) = str-HasBody db _
request-HasBody (Request.initdb db) = str-HasBody db _
request-HasBody (Request.rm db) = str-HasBody db _
request-HasBody (Request.lock db) = str-HasBody db _
request-HasBody (Request.unlock db) = str-HasBody db _
request-HasBody (Request.kill pid) = omega arith
request-HasBody (Request.debug level) = omega arith
request-HasBody (Request.subscription status stream format filter) = omega arith

module _ {F : Type 0} (env : Env F) where
  served :
      {A : Type 0} (encoded : Run Msg) (msg : Msg) (decode : Msg → Run A) (a : A)
      (serve : Run (World F)) (undecoded : World F × Bool) (run : A → World F × Bool)
      → encoded ≡ ok msg
      → (encoded >>= decode) ≡ ok a
      → serve ≡ run_decoded (decode msg) undecoded run
      → (encoded ≡ ok msg) × (serve ≡ ok (run a).0)
  unfolding run_decoded
  served encoded msg decode a serve undecoded run sent understood same =
      (sent, rw (same, decode_sent encoded msg decode a sent understood) refl)

  -- What is dispatched for a request.
  dispatch-encode :
      (ce : Client) (r : Request) (w : World F)
      → Encodable r
      → Grants env.granted (4 + length (wire (request_fields r)))
      → (encode env.granted r ≡ ok (request_message r))
        × (dispatch env ce (request_message r) (msg_case (request_message r).op_type) w
            ≡ ok (perform env ce r w))
  unfolding dispatch msg_case clicon_msg_initdb_encode clicon_msg_rm_encode clicon_msg_lock_encode
      clicon_msg_unlock_encode clicon_msg_initdb_decode clicon_msg_rm_decode clicon_msg_lock_decode
      clicon_msg_unlock_decode
  dispatch-encode ce (Request.commit src dst snapshot startup) w (h0, h1, h2, h3) g =
      served _ _ (clicon_msg_commit_decode env.granted) _ _ _
        (λ a. from_client_commit env ce.ce_s a w)
        (commit_layout env.granted src dst snapshot startup (g _ (omega arith) (omega arith)))
        (commit_roundtrip env.granted src dst snapshot startup h0 h1 h2 h3 g) refl
  dispatch-encode ce (Request.change db op key lvec) w (h0, h1, h2, h3) g =
      served _ _ (clicon_msg_change_decode env.granted) _ _ _
        (λ a. from_client_change env ce.ce_s ce.ce_pid a w)
        (change_layout env.granted db op key lvec (g _ (omega arith) (omega arith)))
        (change_roundtrip env.granted db op key lvec h0 h1 h2 h3 g) refl
  dispatch-encode ce (Request.save db snapshot filename) w (h0, h1, h2) g =
      served _ _ (clicon_msg_save_decode env.granted) _ _ _ (λ a. from_client_save env ce.ce_s a w)
        (save_layout env.granted db snapshot filename (g _ (omega arith) (omega arith)))
        (save_roundtrip env.granted db snapshot filename h0 h1 h2 g) refl
  dispatch-encode ce (Request.load replace db filename) w (h0, h1, h2) g =
      served _ _ (clicon_msg_load_decode env.granted) _ _ _
        (λ a. from_client_load env ce.ce_s ce.ce_pid a w)
        (load_layout env.granted replace db filename (g _ (omega arith) (omega arith)))
        (load_roundtrip env.granted replace db filename h0 h1 h2 g) refl
  dispatch-encode ce (Request.copy src dst) w (h0, h1) g =
      served _ _ (clicon_msg_copy_decode env.granted) _ _ _
        (λ a. from_client_copy env ce.ce_s ce.ce_pid a w)
        (copy_layout env.granted src dst (g _ (omega arith) (omega arith)))
        (copy_roundtrip env.granted src dst h0 h1 g) refl
  dispatch-encode ce (Request.validate db) w h0 g =
      served _ _ (clicon_msg_validate_decode env.granted) _ _ _
        (λ a. from_client_validate env ce.ce_s a w)
        (validate_layout env.granted db (g _ (omega arith) (omega arith)))
        (validate_roundtrip env.granted db h0 g) refl
  dispatch-encode ce (Request.initdb db) w h0 g =
      served _ _ (clicon_msg_initdb_decode env.granted) _ _ _
        (λ a. from_client_initdb env ce.ce_s ce.ce_pid a w)
        (1str_layout env.granted db MsgType.initdb (g _ (omega arith) (omega arith)))
        (1str_roundtrip env.granted db MsgType.initdb h0 g) refl
  dispatch-encode ce (Request.rm db) w h0 g =
      served _ _ (clicon_msg_rm_decode env.granted) _ _ _
        (λ a. from_client_rm env ce.ce_s ce.ce_pid a w)
        (1str_layout env.granted db MsgType.rm (g _ (omega arith) (omega arith)))
        (1str_roundtrip env.granted db MsgType.rm h0 g) refl
  dispatch-encode ce (Request.lock db) w h0 g =
      served _ _ (clicon_msg_lock_decode env.granted) _ _ _
        (λ a. from_client_lock env ce.ce_s ce.ce_pid a w)
        (1str_layout env.granted db MsgType.lock (g _ (omega arith) (omega arith)))
        (1str_roundtrip env.granted db MsgType.lock h0 g) refl
  dispatch-encode ce (Request.unlock db) w h0 g =
      served _ _ (clicon_msg_unlock_decode env.granted) _ _ _
        (λ a. from_client_unlock env ce.ce_s ce.ce_pid a w)
        (1str_layout env.granted db MsgType.unlock (g _ (omega arith) (omega arith)))
        (1str_roundtrip env.granted db MsgType.unlock h0 g) refl
  dispatch-encode ce (Request.kill pid) w h0 g =
      served _ _ (clicon_msg_kill_decode) _ _ _ (λ a. from_client_kill env ce.ce_s a w)
        (kill_layout env.granted pid (g _ (omega arith) (omega arith)))
        (kill_roundtrip env.granted pid h0 g) refl
  dispatch-encode ce (Request.debug level) w h0 g =
      served _ _ (clicon_msg_debug_decode) _ _ _ (λ a. from_client_debug env ce.ce_s a w)
        (debug_layout env.granted level (g _ (omega arith) (omega arith)))
        (debug_roundtrip env.granted level h0 g) refl
  dispatch-encode ce (Request.subscription status stream format filter) w (h0, h1, h2, h3) g =
      served _ _ (clicon_msg_subscription_decode env.granted) _ _ _
        (λ a. from_client_subscription env ce a w)
        (subscription_layout env.granted status stream format filter
          (g _ (omega arith) (omega arith)))
        (subscription_roundtrip env.granted status stream format filter h0 h1 h2 h3 g) refl

  -- A request that the client encodes and sends, and that comes in one piece, is received by the daemon
  -- as the message that was sent, and is there the command with exactly the client's arguments. The
  -- numbers fit 32 bits, the strings are C strings, the length of the message fits the 16 bits of its
  -- header, both sides have the memory for the message, and two bytes of a header that were packed are
  -- unpacked to the same number.
  pub from_client-encode :
      (host : Host16) (ce : Client) (r : Request) (w : World F) (rest : List Arrival)
      → Encodable r
      → 4 + length (wire (request_fields r)) < 2 ^ 16
      → Grants env.granted (4 + length (wire (request_fields r)))
      → ((n : ℕ) → n < 2 ^ 16 → host.unpack (host.pack n) ≡ n)
      → (msg : Msg) × (encode env.granted r ≡ ok msg)
        × (clicon_msg_rcv env.granted host (packed host msg ∷ rest) ≡ message_rcvd msg)
        × ((sized : Sized msg) × (from_client env ce (received msg sized) w
              ≡ ok (perform env ce r w)))
  unfolding from_client
  from_client-encode host ce r w rest h fits g back =
      let len = 4 + length (wire (request_fields r)) in
      let size : len % 2 ^ 16 ≡ len = omega (arith, fits) in
      let (sent, done) = dispatch-encode ce r w h g in
      (
        request_message r,
        sent,
        clicon_msg_rcv-body env.granted host (op_code (request_type r)) (len % 2 ^ 16)
            (wire (request_fields r)) rest size (request-HasBody r)
            (ap env.granted size ∙ g len (omega arith) (omega arith))
            (back (len % 2 ^ 16) (omega arith))
            (back (op_code (request_type r)) (op_code-small (request_type r))),
        (size, done),
      )
