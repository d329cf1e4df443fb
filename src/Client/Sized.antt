-- ===== src/Client/Sized.antt =====
-- The length of what `clicon_msg_rcv` of lib/src/clicon_proto.c receives.
use clicon.Base.{
  ℕ, ◌-◌, ◌≡◌, Bool, true, List, [], ◌∷◌, arith, inl, inr, length, leb, ◌==◌, Bool-cases,
}
use clicon.Proto.Types.{sizeof_msg, Sized}
use clicon.Client.Socket.{
  Arrival, ReadResult, error, closed, got, Received, message_rcvd, eof_rcvd, rcv_failed,
  rcv_overrun, Host16, read, atomicio, body_rcvd, body_rcv, header_rcvd, clicon_msg_rcv,
}

abbrev pub ReceivedSized : Received → Type 0
ReceivedSized (message_rcvd msg) = Sized msg
ReceivedSized eof_rcvd = Unit
ReceivedSized rcv_failed = Unit
ReceivedSized rcv_overrun = Unit

module _ (granted : ℕ → Bool) (host : Host16) where
  body_rcvd-Sized :
      (type len : ℕ) (r : ReadResult)
      → leb sizeof_msg len ≡ true
      → ReceivedSized (body_rcvd granted host type len r)
  unfolding body_rcvd
  body_rcvd-Sized type len (error rest) room = tt
  body_rcvd-Sized type len (closed rest) room = tt
  body_rcvd-Sized type len (got body rest) room =
      elim (Bool-cases (length body == len - sizeof_msg)) [
        | inl e ↦ rw (e, body_rcvd) (ground arith)
        | inr e ↦ rw (e, body_rcvd) tt
      ]

  body_rcv-Sized :
      (type len : ℕ) (arrivals : List Arrival)
      → ReceivedSized (body_rcv granted host type len arrivals)
  unfolding body_rcv
  body_rcv-Sized type len arrivals = elim (Bool-cases (granted len)) [
    | inr e ↦ rw (e, body_rcv) tt
    | inl e ↦ elim (Bool-cases (leb sizeof_msg len)) [
      | inr room ↦ rw (e, room, body_rcv) tt
      | inl room ↦ elim (Bool-cases (len == sizeof_msg)) [
        | inl empty ↦ rw (e, room, empty, body_rcv) (ground arith)
        | inr some_body ↦
            rw (e, room, some_body, body_rcv)
              (body_rcvd-Sized type len (read (len - sizeof_msg) arrivals) room)
      ]
    ]
  ]

  header_rcvd-Sized : (r : ReadResult) → ReceivedSized (header_rcvd granted host r)
  unfolding header_rcvd
  header_rcvd-Sized (error rest) = tt
  header_rcvd-Sized (closed rest) = tt
  header_rcvd-Sized (got [] rest) = tt
  header_rcvd-Sized (got (a ∷ []) rest) = tt
  header_rcvd-Sized (got (a ∷ b ∷ []) rest) = tt
  header_rcvd-Sized (got (a ∷ b ∷ c ∷ []) rest) = tt
  header_rcvd-Sized (got (l0 ∷ l1 ∷ t0 ∷ t1 ∷ []) rest) =
      body_rcv-Sized (host.unpack (t0, t1)) (host.unpack (l0, l1)) rest
  header_rcvd-Sized (got (a ∷ b ∷ c ∷ d ∷ e ∷ more) rest) = tt

  -- Whatever comes on the socket, a message that is received has exactly the bytes that its length
  -- field says.
  clicon_msg_rcv-Sized :
      (arrivals : List Arrival) → ReceivedSized (clicon_msg_rcv granted host arrivals)
  unfolding clicon_msg_rcv
  clicon_msg_rcv-Sized arrivals = header_rcvd-Sized (atomicio sizeof_msg arrivals)
