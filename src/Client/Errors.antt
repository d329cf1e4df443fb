-- ===== src/Client/Errors.antt =====
-- The error of the daemon in the client.
use clicon.Base.{ℕ, ◌+◌, ◌^◌, ◌<◌, ◌≡◌, [], ◌∷◌, length}
use clicon.Proto.Types.{Msg, MsgType, CString, IsCString}
use clicon.Proto.Wire.{u32, str, wire_message}
use clicon.Proto.Reading.{Grants}
use clicon.Client.Rpc.{Remote}

abbrev pub error_message : ℕ → ℕ → CString → Msg
error_message err suberr reason =
    wire_message MsgType.err_reply (u32 err ∷ u32 suberr ∷ str reason ∷ [])

module _ (peer : Remote) where
  -- The reply can be sent and read: the fields fit their bits, there is memory, and two bytes of a
  -- header that were packed are unpacked to the same number.
  pub record Readable (err suberr : ℕ) (reason : CString) : Type 0 where
    pub err_fits : err < 2 ^ 32
    pub suberr_fits : suberr < 2 ^ 32
    pub reason_string : IsCString reason
    pub fits : 4 + length (error_message err suberr reason).op_body < 2 ^ 16
    pub reply_grants : Grants peer.granted (4 + length (error_message err suberr reason).op_body)
    pub unpack-pack : (n : ℕ) → n < 2 ^ 16 → peer.host.unpack (peer.host.pack n) ≡ n
