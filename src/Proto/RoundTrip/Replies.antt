-- ===== src/Proto/RoundTrip/Replies.antt =====
-- The session commands and the replies of lib/src/clicon_proto_encode.c: decoding what was encoded.
use clicon.Base.{ℕ, ◌+◌, ◌≡◌, ◌<◌, ◌^◌, refl, Bool, [], ◌∷◌, arith, length}
use clicon.Proto.Types.{MsgType, CString, IsCString, strlen}
use clicon.Proto.Buffer.{ok, ◌>>=◌}
use clicon.Proto.Writing.{length-str}
use clicon.Proto.Reading.{Grants, ntohl-htonl, At-htonl, At-str, chunk_sprintf-str}
use clicon.Proto.Wire.{u32, str, wire}
use clicon.Proto.Layout.Replies.{
  1str_layout, validate_layout, kill_layout, debug_layout, subscription_layout, notify_layout,
  err_layout,
}
use clicon.Proto.Encode.{
  clicon_msg_1str_encode, clicon_msg_validate_encode, clicon_msg_kill_encode,
  clicon_msg_debug_encode, clicon_msg_subscription_encode, clicon_msg_notify_encode,
  clicon_msg_err_encode,
}
use clicon.Proto.Decode.{
  clicon_msg_1str_decode, clicon_msg_validate_decode, clicon_msg_kill_decode,
  clicon_msg_debug_decode, clicon_msg_subscription_decode, clicon_msg_notify_decode,
  clicon_msg_err_decode,
}

module _ (granted : ℕ → Bool) where
  -- Decoding an encoded message of one string, of whatever type, gives back the string, where it is
  -- a C string and the memory is granted.
  pub 1str_roundtrip :
      (name : CString) (op : MsgType)
      → IsCString name
      → Grants granted (4 + length (wire (str name ∷ [])))
      → (clicon_msg_1str_encode granted name op >>= clicon_msg_1str_decode granted) ≡ ok name
  unfolding clicon_msg_1str_decode
  1str_roundtrip name op h_name g =
      let fs = str name ∷ [] in
      let body = wire fs in
      rw
        (
          1str_layout granted name op (g (4 + length body) (omega arith) (omega arith)),
          chunk_sprintf-str granted body 0 name (wire []) refl h_name
              (g (strlen name + 1) (omega arith) (omega (arith, length-str name []))),
        )
        refl

  -- Decoding an encoded kill message gives back the session id, where it fits 32 bits and the
  -- memory is granted.
  pub kill_roundtrip :
      (session_id : ℕ)
      → session_id < 2 ^ 32
      → Grants granted (4 + length (wire (u32 session_id ∷ [])))
      → (clicon_msg_kill_encode granted session_id >>= clicon_msg_kill_decode) ≡ ok session_id
  unfolding clicon_msg_kill_decode
  kill_roundtrip session_id h_session_id g =
      let fs = u32 session_id ∷ [] in
      let body = wire fs in
      rw
        (
          kill_layout granted session_id (g (4 + length body) (omega arith) (omega arith)),
          ntohl-htonl body 0 session_id (wire []) refl h_session_id,
        )
        refl

  -- Decoding an encoded debug message gives back the level, where it fits 32 bits and the memory is
  -- granted.
  pub debug_roundtrip :
      (level : ℕ)
      → level < 2 ^ 32
      → Grants granted (4 + length (wire (u32 level ∷ [])))
      → (clicon_msg_debug_encode granted level >>= clicon_msg_debug_decode) ≡ ok level
  unfolding clicon_msg_debug_decode
  debug_roundtrip level h_level g =
      let fs = u32 level ∷ [] in
      let body = wire fs in
      rw
        (
          debug_layout granted level (g (4 + length body) (omega arith) (omega arith)),
          ntohl-htonl body 0 level (wire []) refl h_level,
        )
        refl

  -- Decoding an encoded subscription message gives back the status, the stream, the format and the
  -- filter, where the numbers fit 32 bits, the strings are C strings and the memory is granted.
  pub subscription_roundtrip :
      (status : ℕ) (stream : CString) (format : ℕ) (filter : CString)
      → status < 2 ^ 32
      → format < 2 ^ 32
      → IsCString stream
      → IsCString filter
      → Grants granted (4 + length (wire (u32 status ∷ u32 format ∷ str stream ∷ str filter ∷ [])))
      → (clicon_msg_subscription_encode granted status stream format filter
          >>= clicon_msg_subscription_decode granted)
        ≡ ok (status, stream, format, filter)
  unfolding clicon_msg_subscription_decode
  subscription_roundtrip status stream format filter h_status h_format h_stream h_filter g =
      let f3 = str filter ∷ [] in
      let f2 = str stream ∷ f3 in
      let f1 = u32 format ∷ f2 in
      let fs = u32 status ∷ f1 in
      let body = wire fs in
      let a1 = At-htonl body 0 status (wire f1) refl in
      let a2 = At-htonl body 4 format (wire f2) a1 in
      let a3 = At-str body 8 stream (wire f3) a2 in
      let p3 = 8 + (strlen stream + 1) in
      rw
        (
          subscription_layout granted status stream format filter
              (g (4 + length body) (omega arith) (omega arith)),
          ntohl-htonl body 0 status (wire f1) refl h_status,
          ntohl-htonl body 4 format (wire f2) a1 h_format,
          chunk_sprintf-str granted body 8 stream (wire f3) a2 h_stream (
              g (strlen stream + 1) (omega arith)
                (omega (arith, length-str stream f3, length-str filter []))),
          chunk_sprintf-str granted body p3 filter (wire []) a3 h_filter (
              g (strlen filter + 1) (omega arith)
                (omega (arith, length-str stream f3, length-str filter []))),
        )
        refl

  -- Decoding an encoded notify message gives back the level and the event, where the level fits 32
  -- bits, the event is a C string and the memory is granted.
  pub notify_roundtrip :
      (level : ℕ) (event : CString)
      → level < 2 ^ 32
      → IsCString event
      → Grants granted (4 + length (wire (u32 level ∷ str event ∷ [])))
      → (clicon_msg_notify_encode granted level event >>= clicon_msg_notify_decode granted)
        ≡ ok (level, event)
  unfolding clicon_msg_notify_decode
  notify_roundtrip level event h_level h_event g =
      let f1 = str event ∷ [] in
      let fs = u32 level ∷ f1 in
      let body = wire fs in
      let a1 = At-htonl body 0 level (wire f1) refl in
      rw
        (
          notify_layout granted level event (g (4 + length body) (omega arith) (omega arith)),
          ntohl-htonl body 0 level (wire f1) refl h_level,
          chunk_sprintf-str granted body 4 event (wire []) a1 h_event
              (g (strlen event + 1) (omega arith) (omega (arith, length-str event []))),
        )
        refl

  -- Decoding an encoded error message gives back both codes and the reason, where the codes fit 32
  -- bits, the reason is a C string and the memory is granted.
  pub err_roundtrip :
      (err : ℕ) (suberr : ℕ) (reason : CString)
      → err < 2 ^ 32
      → suberr < 2 ^ 32
      → IsCString reason
      → Grants granted (4 + length (wire (u32 err ∷ u32 suberr ∷ str reason ∷ [])))
      → (clicon_msg_err_encode granted err suberr reason >>= clicon_msg_err_decode granted)
        ≡ ok (err, suberr, reason)
  unfolding clicon_msg_err_decode
  err_roundtrip err suberr reason h_err h_suberr h_reason g =
      let f2 = str reason ∷ [] in
      let f1 = u32 suberr ∷ f2 in
      let fs = u32 err ∷ f1 in
      let body = wire fs in
      let a1 = At-htonl body 0 err (wire f1) refl in
      let a2 = At-htonl body 4 suberr (wire f2) a1 in
      rw
        (
          err_layout granted err suberr reason (g (4 + length body) (omega arith) (omega arith)),
          ntohl-htonl body 0 err (wire f1) refl h_err,
          ntohl-htonl body 4 suberr (wire f2) a1 h_suberr,
          chunk_sprintf-str granted body 8 reason (wire []) a2 h_reason
              (g (strlen reason + 1) (omega arith) (omega (arith, length-str reason []))),
        )
        refl

  -- Decoding an encoded validate message gives back the database name, where it is a C string and
  -- the memory is granted.
  pub validate_roundtrip :
      (db : CString)
      → IsCString db
      → Grants granted (4 + length (wire (str db ∷ [])))
      → (clicon_msg_validate_encode granted db >>= clicon_msg_validate_decode granted) ≡ ok db
  unfolding clicon_msg_validate_decode
  validate_roundtrip db h g =
      let body = wire (str db ∷ []) in
      rw
        (
          validate_layout granted db (g (4 + length body) (omega arith) (omega arith)),
          chunk_sprintf-str granted body 0 db [] refl h
              (g (strlen db + 1) (omega arith) (omega (arith, length-str db []))),
        )
        refl
