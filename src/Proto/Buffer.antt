-- ===== src/Proto/Buffer.antt =====
-- Byte buffers as the C library and the chunk allocator give them to the encoders and decoders of
-- lib/src/clicon_proto_encode.c. A write or a read outside a buffer is a result of its own.
use clicon.Base.{
  ℕ, zero, suc, ◌+◌, ◌-◌, ◌*◌, ◌/◌, ◌%◌, ◌^◌, Bool, List, [], ◌∷◌, ◌++◌, leb, length, take, drop,
  replicate, if◌then◌else◌,
}
use clicon.Proto.Types.{Msg, MsgType, op_code, sizeof_msg, CString, strlen}

-- `failed` is a NULL or -1 that the function returns; `overrun` is no C value: the code touched
-- bytes outside its buffer.
pub data Run {ℓ} (A : Type ℓ) : Type ℓ where
  ok : A → Run A
  failed : Run A
  overrun : Run A

infixl 5 ◌>>=◌
abbrev pub ◌>>=◌ {ℓ κ} : {A : Type ℓ} {B : Type κ} → Run A → (A → Run B) → Run B
ok a >>= f = f a
failed >>= f = failed
overrun >>= f = overrun

abbrev pub zeros : ℕ → List ℕ
zeros n = replicate n 0

-- `memcpy(buf + p, src, n)` for the n bytes `src`.
unfoldable pub memcpy : List ℕ → ℕ → List ℕ → Run (List ℕ)
memcpy buf p src =
    if leb (p + length src) (length buf)
    then ok (take p buf ++ (src ++ drop (p + length src) buf))
    else overrun

-- `strncpy(buf + p, s, n)`: n bytes are written, those behind the string are NUL.
unfoldable pub strncpy : List ℕ → ℕ → CString → ℕ → Run (List ℕ)
unfolding memcpy
strncpy buf p s n = memcpy buf p (take n (s ++ zeros n))

-- The bytes of `htonl(v)` in memory, for a 32-bit `v`.
abbrev pub htonl : ℕ → List ℕ
htonl v = (v / 2 ^ 24) ∷ (v / 2 ^ 16 % 256) ∷ (v / 2 ^ 8 % 256) ∷ (v % 256) ∷ []

be32 : List ℕ → Run ℕ
be32 (b3 ∷ b2 ∷ b1 ∷ b0 ∷ _) = ok (b3 * 2 ^ 24 + b2 * 2 ^ 16 + b1 * 2 ^ 8 + b0)
be32 _ = overrun

-- `memcpy(&tmp, buf + p, 4)` and `ntohl(tmp)`.
unfoldable pub ntohl_at : List ℕ → ℕ → Run ℕ
unfolding be32
ntohl_at buf p = be32 (drop p buf)

-- The string that a read up to the first NUL finds.
unfoldable pub c_string : List ℕ → Run CString
c_string [] = overrun
c_string (zero ∷ _) = ok []
c_string (suc c ∷ bs) = do s ← c_string bs; ok (suc c ∷ s)

bytes_at : List ℕ → ℕ → List ℕ → Run (List ℕ)
bytes_at buf n found = if leb n (length found) then ok (take n found) else overrun

-- `memcpy(dst, buf + p, n)`.
memcpy_from : List ℕ → ℕ → ℕ → Run (List ℕ)
unfolding bytes_at
memcpy_from buf p n = bytes_at buf n (drop p buf)

-- `granted n` says whether the chunk allocator has n bytes.
module _ (granted : ℕ → Bool) where
  -- `chunk(len)` for a message, cleared by `memset`: the body of the new message.
  unfoldable pub chunk_body : ℕ → Run (List ℕ)
  chunk_body len = if granted len then ok (zeros (len - sizeof_msg)) else failed

  -- `chunk(n)`, and `memcpy` of n bytes from `buf + p` to the new chunk.
  unfoldable pub chunk_memcpy : List ℕ → ℕ → ℕ → Run (List ℕ)
  unfolding memcpy_from
  chunk_memcpy buf p n = if granted n then memcpy_from buf p n else failed

  -- `chunk_sprintf(label, "%s", buf + p)`.
  unfoldable pub chunk_sprintf : List ℕ → ℕ → Run CString
  unfolding c_string
  chunk_sprintf buf p = do
    s ← c_string (drop p buf)
    if granted (strlen s + 1) then ok s else failed

-- The header fields hold 16 bits each.
abbrev pub message : MsgType → ℕ → List ℕ → Msg
message type len body = record { op_len = len % 2 ^ 16; op_type = op_code type; op_body = body }
