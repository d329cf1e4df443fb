-- ===== src/Backend/Request.antt =====
-- What a client asks for, from the encoder on its side to the command that the daemon carries out.
use clicon.Base.{
  ℕ, ◌+◌, ◌≡◌, ◌<◌, ◌^◌, ◌%◌, ap, ◌∙◌, ◌++◌, refl, Bool, List, [], ◌∷◌, length, some, none,
  if◌then◌else◌, ◌==◌, arith,
}
use clicon.Proto.Types.{Msg, MsgType, op_code, CString, IsCString, Sized}
use clicon.Client.Socket.{Arrival, Host16, message_rcvd, clicon_msg_rcv}
use clicon.Client.Receive.{packed, clicon_msg_rcv-body}
use clicon.Proto.Buffer.{Run, ok, ◌>>=◌}
use clicon.Proto.Reading.{Grants, decode_sent}
use clicon.Proto.Wire.{Field, u32, str, raw, wire, wire_message}
use clicon.Proto.Encode.{
  clicon_msg_commit_encode, clicon_msg_validate_encode, clicon_msg_change_encode,
  clicon_msg_save_encode, clicon_msg_load_encode, clicon_msg_initdb_encode, clicon_msg_rm_encode,
  clicon_msg_copy_encode, clicon_msg_lock_encode, clicon_msg_unlock_encode, clicon_msg_kill_encode,
  clicon_msg_debug_encode, clicon_msg_subscription_encode,
}
use clicon.Proto.Decode.{
  clicon_msg_commit_decode, clicon_msg_validate_decode, clicon_msg_change_decode,
  clicon_msg_save_decode, clicon_msg_load_decode, clicon_msg_initdb_decode, clicon_msg_rm_decode,
  clicon_msg_copy_decode, clicon_msg_lock_decode, clicon_msg_unlock_decode, clicon_msg_kill_decode,
  clicon_msg_debug_decode, clicon_msg_subscription_decode,
}
use clicon.Proto.Layout.Commands.{
  save_fields, save_layout, commit_layout, load_layout, copy_layout, change_layout,
}
use clicon.Proto.Layout.Replies.{
  1str_layout, kill_layout, debug_layout, subscription_layout, validate_layout,
}
use clicon.Proto.RoundTrip.Commands.{
  commit_roundtrip, load_roundtrip, copy_roundtrip, change_roundtrip, save_roundtrip,
}
use clicon.Proto.RoundTrip.Replies.{
  1str_roundtrip, kill_roundtrip, debug_roundtrip, subscription_roundtrip, validate_roundtrip,
}
use clicon.Backend.Types.{Client, Env, World}
use clicon.Backend.Handlers.{
  from_client_change, from_client_save, from_client_load, from_client_initdb, from_client_rm,
  from_client_copy,
}
use clicon.Backend.Commit.{from_client_commit, from_client_validate}
use clicon.Backend.Sessions.{
  from_client_lock, from_client_unlock, from_client_kill, from_client_debug,
  from_client_subscription,
}
use clicon.Backend.Dispatch.{received, run_decoded, msg_case, dispatch, from_client}
pub mod Served

-- The commands, with the arguments of their encoders.
pub data Request : Type 0 where
  commit : CString → CString → ℕ → ℕ → Request
  change : CString → ℕ → CString → List ℕ → Request
  save : CString → ℕ → CString → Request
  load : ℕ → CString → CString → Request
  copy : CString → CString → Request
  validate initdb rm lock unlock : CString → Request
  kill debug : ℕ → Request
  subscription : ℕ → CString → ℕ → CString → Request

abbrev pub request_fields : Request → List Field
request_fields (Request.commit src dst snapshot startup) =
    u32 snapshot ∷ u32 startup ∷ str src ∷ str dst ∷ []
request_fields (Request.change db op key lvec) =
    u32 op ∷ u32 (length lvec) ∷ str db ∷ str key ∷ raw lvec ∷ []
request_fields (Request.save db snapshot filename) = save_fields db snapshot filename
request_fields (Request.load replace db filename) = u32 replace ∷ str db ∷ str filename ∷ []
request_fields (Request.copy src dst) = str src ∷ str dst ∷ []
request_fields (Request.validate db) = str db ∷ []
request_fields (Request.initdb db) = str db ∷ []
request_fields (Request.rm db) = str db ∷ []
request_fields (Request.lock db) = str db ∷ []
request_fields (Request.unlock db) = str db ∷ []
request_fields (Request.kill pid) = u32 pid ∷ []
request_fields (Request.debug level) = u32 level ∷ []
request_fields (Request.subscription status stream format filter) =
    u32 status ∷ u32 format ∷ str stream ∷ str filter ∷ []

-- The numbers fit 32 bits, and the strings are C strings.
abbrev pub Encodable : Request → Type 0
Encodable (Request.commit src dst snapshot startup) =
    (snapshot < 2 ^ 32) × (startup < 2 ^ 32) × (IsCString src) × (IsCString dst)
Encodable (Request.change db op key lvec) =
    (op < 2 ^ 32) × (length lvec < 2 ^ 32) × (IsCString db) × (IsCString key)
Encodable (Request.save db snapshot filename) =
    (snapshot < 2 ^ 32) × (IsCString db) × (IsCString filename)
Encodable (Request.load replace db filename) =
    (replace < 2 ^ 32) × (IsCString db) × (IsCString filename)
Encodable (Request.copy src dst) = (IsCString src) × (IsCString dst)
Encodable (Request.validate db) = IsCString db
Encodable (Request.initdb db) = IsCString db
Encodable (Request.rm db) = IsCString db
Encodable (Request.lock db) = IsCString db
Encodable (Request.unlock db) = IsCString db
Encodable (Request.kill pid) = pid < 2 ^ 32
Encodable (Request.debug level) = level < 2 ^ 32
Encodable (Request.subscription status stream format filter) =
    (status < 2 ^ 32) × (format < 2 ^ 32) × (IsCString stream) × (IsCString filter)

-- The message that the client sends.
abbrev pub encode : (ℕ → Bool) → Request → Run Msg
encode granted (Request.commit src dst snapshot startup) =
    clicon_msg_commit_encode granted src dst snapshot startup
encode granted (Request.change db op key lvec) = clicon_msg_change_encode granted db op key lvec
encode granted (Request.save db snapshot filename) =
    clicon_msg_save_encode granted db snapshot filename
encode granted (Request.load replace db filename) =
    clicon_msg_load_encode granted replace db filename
encode granted (Request.copy src dst) = clicon_msg_copy_encode granted src dst
encode granted (Request.validate db) = clicon_msg_validate_encode granted db
encode granted (Request.initdb db) = clicon_msg_initdb_encode granted db
encode granted (Request.rm db) = clicon_msg_rm_encode granted db
encode granted (Request.lock db) = clicon_msg_lock_encode granted db
encode granted (Request.unlock db) = clicon_msg_unlock_encode granted db
encode granted (Request.kill pid) = clicon_msg_kill_encode granted pid
encode granted (Request.debug level) = clicon_msg_debug_encode granted level
encode granted (Request.subscription status stream format filter) =
    clicon_msg_subscription_encode granted status stream format filter

abbrev pub request_type : Request → MsgType
request_type (Request.commit src dst snapshot startup) = MsgType.commit
request_type (Request.change db op key lvec) = MsgType.change
request_type (Request.save db snapshot filename) = MsgType.save
request_type (Request.load replace db filename) = MsgType.load
request_type (Request.copy src dst) = MsgType.copy
request_type (Request.validate db) = MsgType.validate
request_type (Request.initdb db) = MsgType.initdb
request_type (Request.rm db) = MsgType.rm
request_type (Request.lock db) = MsgType.lock
request_type (Request.unlock db) = MsgType.unlock
request_type (Request.kill pid) = MsgType.kill
request_type (Request.debug level) = MsgType.debug
request_type (Request.subscription status stream format filter) = MsgType.subscription

abbrev pub request_message : Request → Msg
request_message r = wire_message (request_type r) (request_fields r)

module _ {F : Type 0} (env : Env F) where
  -- The command that the daemon carries out on it, for the session `ce`.
  abbrev pub perform : Client → Request → World F → World F
  perform ce (Request.commit src dst snapshot startup) w =
      (from_client_commit env ce.ce_s (src, dst, snapshot, startup) w).0
  perform ce (Request.change db op key lvec) w =
      (from_client_change env ce.ce_s ce.ce_pid
        (db, op, key, (if length lvec == 0 then none else some lvec), length lvec) w).0
  perform ce (Request.save db snapshot filename) w =
      (from_client_save env ce.ce_s (db, snapshot, (if snapshot == 0 then some filename else none))
        w).0
  perform ce (Request.load replace db filename) w =
      (from_client_load env ce.ce_s ce.ce_pid (replace, db, filename) w).0
  perform ce (Request.copy src dst) w = (from_client_copy env ce.ce_s ce.ce_pid (src, dst) w).0
  perform ce (Request.validate db) w = (from_client_validate env ce.ce_s db w).0
  perform ce (Request.initdb db) w = (from_client_initdb env ce.ce_s ce.ce_pid db w).0
  perform ce (Request.rm db) w = (from_client_rm env ce.ce_s ce.ce_pid db w).0
  perform ce (Request.lock db) w = (from_client_lock env ce.ce_s ce.ce_pid db w).0
  perform ce (Request.unlock db) w = (from_client_unlock env ce.ce_s ce.ce_pid db w).0
  perform ce (Request.kill pid) w = (from_client_kill env ce.ce_s pid w).0
  perform ce (Request.debug level) w = (from_client_debug env ce.ce_s level w).0
  perform ce (Request.subscription status stream format filter) w =
      (from_client_subscription env ce (status, stream, format, filter) w).0
