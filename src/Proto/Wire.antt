-- ===== src/Proto/Wire.antt =====
-- The message bodies as lib/clicon/clicon_proto.h documents them: a sequence of 32-bit numbers,
-- strings and raw bytes.
use clicon.Base.{ℕ, ◌+◌, List, [], ◌∷◌, ◌++◌, length}
use clicon.Proto.Types.{Msg, MsgType, CString, sizeof_msg}
use clicon.Proto.Buffer.{htonl, message}

pub data Field : Type 0 where
  u32 : ℕ → Field
  str : CString → Field
  raw : List ℕ → Field

abbrev pub field_bytes : Field → List ℕ
field_bytes (u32 v) = htonl v
field_bytes (str s) = s ++ 0 ∷ []
field_bytes (raw b) = b

abbrev pub wire : List Field → List ℕ
wire [] = []
wire (f ∷ fs) = field_bytes f ++ wire fs

-- The message of a type over some fields: its length field counts the header and the body.
abbrev pub wire_message : MsgType → List Field → Msg
wire_message type fs = message type (sizeof_msg + length (wire fs)) (wire fs)
