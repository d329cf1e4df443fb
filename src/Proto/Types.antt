-- ===== src/Proto/Types.antt =====
-- The message types and the message header of lib/clicon/clicon_proto.h.
use clicon.Base.{ℕ, ◌+◌, ◌≡◌, List, ◌<◌, All, length}

-- `enum clicon_msg_type`.
pub data MsgType : Type 0 where
  commit validate change save load copy rm initdb lock unlock kill : MsgType
  debug call subscription ok_reply notify err_reply : MsgType

-- The enumeration starts at 1.
abbrev pub op_code : MsgType → ℕ
op_code MsgType.commit = 1
op_code MsgType.validate = 2
op_code MsgType.change = 3
op_code MsgType.save = 4
op_code MsgType.load = 5
op_code MsgType.copy = 6
op_code MsgType.rm = 7
op_code MsgType.initdb = 8
op_code MsgType.lock = 9
op_code MsgType.unlock = 10
op_code MsgType.kill = 11
op_code MsgType.debug = 12
op_code MsgType.call = 13
op_code MsgType.subscription = 14
op_code MsgType.ok_reply = 15
op_code MsgType.notify = 16
op_code MsgType.err_reply = 17

-- `struct clicon_msg`: two 16-bit fields, then the body.
pub record Msg : Type 0 where
  pub op_len : ℕ
  pub op_type : ℕ
  pub op_body : List ℕ

-- `sizeof(struct clicon_msg)`.
abbrev pub sizeof_msg : ℕ
sizeof_msg = 4

-- The length field of a message counts the header and the body.
abbrev pub Sized : Msg → Type 0
Sized msg = msg.op_len ≡ sizeof_msg + length msg.op_body

-- A C string without its terminating NUL.
abbrev pub CString : Type 0
CString = List ℕ

abbrev pub strlen : CString → ℕ
strlen = length

-- No character of a C string is NUL.
abbrev pub IsCString : CString → Type 0
IsCString s = All (λ c. 0 < c) s
