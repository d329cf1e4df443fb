-- ===== src/Client/Socket.antt =====
-- Receiving on a socket: `atomicio` and `clicon_msg_rcv` of lib/src/clicon_proto.c.
use clicon.Base.{
  ℕ, zero, suc, ◌-◌, Bool, true, false, List, [], ◌∷◌, ◌++◌, length, take, drop, leb, ◌==◌,
  if◌then◌else◌,
}
use clicon.Proto.Types.{Msg, sizeof_msg}

-- What the calls of `read` find, one after the other: bytes, at least one, of which a call takes as
-- many as it has room for and leaves the others; a signal (EINTR) or EAGAIN; or another error. At the
-- end of the list the peer has closed the socket.
pub data Arrival : Type 0 where
  bytes : ℕ → List ℕ → Arrival
  again : Arrival
  broken : Arrival

-- What `read` leaves of some bytes.
abbrev pub leftover : List ℕ → List Arrival → List Arrival
leftover [] rest = rest
leftover (b ∷ bs) rest = bytes b bs ∷ rest

-- -1, or 0 at the end of the stream, or the bytes, with what has not been read.
pub data ReadResult : Type 0 where
  error : List Arrival → ReadResult
  closed : List Arrival → ReadResult
  got : List ℕ → List Arrival → ReadResult

-- `atomicio(read, s, buf + pos, n - pos)` with `before` in the buffer. The end of the stream gives 0
-- however much was read. The signal handler is never installed, so that EINTR is tried again.
unfoldable pub atomicio_from : ℕ → List ℕ → List Arrival → ReadResult
atomicio_from zero before arrivals = got before arrivals
atomicio_from (suc n) before [] = closed []
atomicio_from (suc n) before (again ∷ rest) = atomicio_from (suc n) before rest
atomicio_from (suc n) before (broken ∷ rest) = error rest
atomicio_from (suc n) before (bytes b bs ∷ rest) = elim (leb (length bs) n) [
  | true ↦ atomicio_from (n - length bs) (before ++ b ∷ bs) rest
  | false ↦ got (before ++ b ∷ take n bs) (leftover (drop n bs) rest)
]

unfoldable pub atomicio : ℕ → List Arrival → ReadResult
unfolding atomicio_from
atomicio n = atomicio_from n []

-- One `read` of at most n bytes, n not 0.
unfoldable pub read : ℕ → List Arrival → ReadResult
read n [] = closed []
read n (again ∷ rest) = error rest
read n (broken ∷ rest) = error rest
read n (bytes b bs ∷ rest) = got (take n (b ∷ bs)) (leftover (drop n (b ∷ bs)) rest)

-- What `clicon_msg_rcv` returns: a message, the end of the stream, or -1, or no C value where it
-- writes outside the memory that it was given.
pub data Received : Type 0 where
  message_rcvd : Msg → Received
  eof_rcvd : Received
  rcv_failed : Received
  rcv_overrun : Received

-- The fields of the header in memory, in the order of bytes of the host: length, type.
pub record Host16 : Type 0 where
  pub pack : ℕ → ℕ × ℕ
  pub unpack : ℕ × ℕ → ℕ

module _ (granted : ℕ → Bool) (host : Host16) where
  -- The body is read by one call of `read`. A length of a message without a body makes `read` return 0.
  unfoldable pub body_rcvd : ℕ → ℕ → ReadResult → Received
  body_rcvd type len (error rest) = rcv_failed
  body_rcvd type len (closed rest) = rcv_failed
  body_rcvd type len (got body rest) =
      if length body == len - sizeof_msg
      then message_rcvd (record { op_len = len; op_type = type; op_body = body })
      else rcv_failed

  -- With a length below that of the header, `memcpy` of the header writes behind the chunk.
  unfoldable pub body_rcv : ℕ → ℕ → List Arrival → Received
  unfolding body_rcvd read
  body_rcv type len arrivals =
      if granted len
      then if leb sizeof_msg len
        then if len == sizeof_msg
          then message_rcvd (record { op_len = len; op_type = type; op_body = [] })
          else body_rcvd type len (read (len - sizeof_msg) arrivals)
        else rcv_overrun
      else rcv_failed

  unfoldable pub header_rcvd : ReadResult → Received
  unfolding body_rcv
  header_rcvd (error rest) = rcv_failed
  header_rcvd (closed rest) = eof_rcvd
  header_rcvd (got (l0 ∷ l1 ∷ t0 ∷ t1 ∷ []) rest) =
      body_rcv (host.unpack (t0, t1)) (host.unpack (l0, l1)) rest
  header_rcvd (got header rest) = rcv_failed

  unfoldable pub clicon_msg_rcv : List Arrival → Received
  unfolding header_rcvd atomicio
  clicon_msg_rcv arrivals = header_rcvd (atomicio sizeof_msg arrivals)
