-- ===== src/Proto/Layout/Replies.antt =====
-- The session commands and the replies of lib/src/clicon_proto_encode.c: what each encoder writes.
use clicon.Base.{
  ℕ, ◌+◌, ◌-◌, ◌*◌, ◌≡◌, refl, Bool, true, [], ◌∷◌, ◌++◌, append_assoc, append-nil, arith, length,
  length-append,
}
use clicon.Proto.Types.{MsgType, CString, strlen}
use clicon.Proto.Buffer.{ok, htonl}
use clicon.Proto.Writing.{chunk_body-granted, memcpy_u32, strncpy_str, length-str}
use clicon.Proto.Wire.{u32, str, wire, wire_message}
use clicon.Proto.Encode.{
  clicon_msg_1str_encode, clicon_msg_validate_encode, clicon_msg_kill_encode,
  clicon_msg_debug_encode, clicon_msg_subscription_encode, clicon_msg_notify_encode,
  clicon_msg_err_encode,
}

module _ (granted : ℕ → Bool) where
  pub 1str_layout :
      (name : CString) (op : MsgType)
      → granted (4 + length (wire (str name ∷ []))) ≡ true
      → clicon_msg_1str_encode granted name op ≡ ok (wire_message op (str name ∷ []))
  unfolding clicon_msg_1str_encode
  1str_layout name op g =
      let fs = str name ∷ [] in
      let len = 4 + strlen name + 1 in
      let size : len ≡ 4 + length (wire fs) = omega (arith, length-str name []) in
      rw
        (
          size,
          chunk_body-granted granted (length (wire fs)) g,
          strncpy_str [] name [] 0 (4 + length (wire fs)) refl (omega arith),
        )
        (simp (append_assoc, append-nil))

  pub kill_layout :
      (session_id : ℕ)
      → granted (4 + length (wire (u32 session_id ∷ []))) ≡ true
      → clicon_msg_kill_encode granted session_id
        ≡ ok (wire_message MsgType.kill (u32 session_id ∷ []))
  unfolding clicon_msg_kill_encode
  kill_layout session_id g =
      let fs = u32 session_id ∷ [] in
      rw (chunk_body-granted granted (length (wire fs)) g, memcpy_u32 [] session_id [] 0 refl)
        (simp (append_assoc, append-nil))

  pub debug_layout :
      (level : ℕ)
      → granted (4 + length (wire (u32 level ∷ []))) ≡ true
      → clicon_msg_debug_encode granted level ≡ ok (wire_message MsgType.debug (u32 level ∷ []))
  unfolding clicon_msg_debug_encode
  debug_layout level g =
      let fs = u32 level ∷ [] in
      rw (chunk_body-granted granted (length (wire fs)) g, memcpy_u32 [] level [] 0 refl)
        (simp (append_assoc, append-nil))

  pub subscription_layout :
      (status : ℕ) (stream : CString) (format : ℕ) (filter : CString)
      → granted (4 + length (wire (u32 status ∷ u32 format ∷ str stream ∷ str filter ∷ []))) ≡ true
      → clicon_msg_subscription_encode granted status stream format filter
        ≡ ok (
            wire_message MsgType.subscription
              (u32 status ∷ u32 format ∷ str stream ∷ str filter ∷ []))
  unfolding clicon_msg_subscription_encode
  subscription_layout status stream format filter g =
      let f3 = str filter ∷ [] in
      let f2 = str stream ∷ f3 in
      let f1 = u32 format ∷ f2 in
      let fs = u32 status ∷ f1 in
      let w1 = htonl status in
      let w2 = w1 ++ htonl format in
      let p3 = 8 + (strlen stream + 1) in
      let w3 = w2 ++ (stream ++ 0 ∷ []) in
      let len = 4 + 4 + 4 + strlen stream + 1 + strlen filter + 1 in
      let size : len ≡ 4 + length (wire fs) =
        omega (arith, length-str stream f3, length-str filter []) in
      rw
        (
          size,
          chunk_body-granted granted (length (wire fs)) g,
          memcpy_u32 [] status f1 0 refl,
          memcpy_u32 w1 format f2 4 refl,
          strncpy_str w2 stream f3 8 (4 + length (wire fs)) refl (omega arith),
          strncpy_str w3 filter [] p3 (4 + length (wire fs))
              (omega (arith, length-append stream (0 ∷ []))) (omega (arith, length-str stream f3)),
        )
        (simp (append_assoc, append-nil))

  pub notify_layout :
      (level : ℕ) (event : CString)
      → granted (4 + length (wire (u32 level ∷ str event ∷ []))) ≡ true
      → clicon_msg_notify_encode granted level event
        ≡ ok (wire_message MsgType.notify (u32 level ∷ str event ∷ []))
  unfolding clicon_msg_notify_encode
  notify_layout level event g =
      let f1 = str event ∷ [] in
      let fs = u32 level ∷ f1 in
      let w1 = htonl level in
      let len = 4 + 4 + strlen event + 1 in
      let size : len ≡ 4 + length (wire fs) = omega (arith, length-str event []) in
      rw
        (
          size,
          chunk_body-granted granted (length (wire fs)) g,
          memcpy_u32 [] level f1 0 refl,
          strncpy_str w1 event [] 4 (4 + length (wire fs)) refl (omega arith),
        )
        (simp (append_assoc, append-nil))

  pub err_layout :
      (err : ℕ) (suberr : ℕ) (reason : CString)
      → granted (4 + length (wire (u32 err ∷ u32 suberr ∷ str reason ∷ []))) ≡ true
      → clicon_msg_err_encode granted err suberr reason
        ≡ ok (wire_message MsgType.err_reply (u32 err ∷ u32 suberr ∷ str reason ∷ []))
  unfolding clicon_msg_err_encode
  err_layout err suberr reason g =
      let f2 = str reason ∷ [] in
      let f1 = u32 suberr ∷ f2 in
      let fs = u32 err ∷ f1 in
      let w1 = htonl err in
      let w2 = w1 ++ htonl suberr in
      let len = 4 + 2 * 4 + strlen reason + 1 in
      let size : len ≡ 4 + length (wire fs) = omega (arith, length-str reason []) in
      rw
        (
          size,
          chunk_body-granted granted (length (wire fs)) g,
          memcpy_u32 [] err f1 0 refl,
          memcpy_u32 w1 suberr f2 4 refl,
          strncpy_str w2 reason [] 8 (4 + length (wire fs)) refl (omega arith),
        )
        (simp (append_assoc, append-nil))

  pub validate_layout :
      (db : CString)
      → granted (4 + length (wire (str db ∷ []))) ≡ true
      → clicon_msg_validate_encode granted db ≡ ok (wire_message MsgType.validate (str db ∷ []))
  unfolding clicon_msg_validate_encode
  validate_layout db g =
      let fs = str db ∷ [] in
      let len = 4 + strlen db + 1 in
      let size : len ≡ 4 + length (wire fs) = omega (arith, length-str db []) in
      let no_offset : 4 + length (wire fs) - 4 ≡ 4 + length (wire fs) - 0 - 4 = omega arith in
      rw
        (
          size,
          chunk_body-granted granted (length (wire fs)) g,
          no_offset,
          strncpy_str [] db [] 0 (4 + length (wire fs)) refl (omega arith),
        )
        (simp (append_assoc, append-nil))
