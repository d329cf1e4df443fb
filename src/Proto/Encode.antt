-- ===== src/Proto/Encode.antt =====
-- The encoders of lib/src/clicon_proto_encode.c. `p` is the write position of the source, with an
-- index for each step; the label of the chunk group is left out.
use clicon.Base.{ℕ, ◌+◌, ◌-◌, ◌*◌, Bool, if◌then◌else◌, ◌==◌}
use clicon.Proto.Types.{Msg, MsgType, sizeof_msg, CString, strlen}
use clicon.Proto.Buffer.{Run, ok, ◌>>=◌, memcpy, strncpy, htonl, chunk_body, message}
use clicon.Base.{List, length}

module _ (granted : ℕ → Bool) where
  unfoldable pub clicon_msg_1str_encode : CString → MsgType → Run Msg
  clicon_msg_1str_encode str op = do
    let len = sizeof_msg + strlen str + 1
    b0 ← chunk_body granted len
    b1 ← strncpy b0 0 str (len - 0 - sizeof_msg)
    ok (message op len b1)

  unfoldable pub clicon_msg_commit_encode : CString → CString → ℕ → ℕ → Run Msg
  clicon_msg_commit_encode dbsrc dbdst snapshot startup = do
    let len = sizeof_msg + 2 * 4 + strlen dbsrc + 1 + strlen dbdst + 1
    b0 ← chunk_body granted len
    b1 ← memcpy b0 0 (htonl snapshot)
    b2 ← memcpy b1 4 (htonl startup)
    b3 ← strncpy b2 8 dbsrc (len - 8 - sizeof_msg)
    let p3 = 8 + (strlen dbsrc + 1)
    b4 ← strncpy b3 p3 dbdst (len - p3 - sizeof_msg)
    ok (message MsgType.commit len b4)

  unfoldable pub clicon_msg_validate_encode : CString → Run Msg
  clicon_msg_validate_encode db = do
    let len = sizeof_msg + strlen db + 1
    b0 ← chunk_body granted len
    b1 ← strncpy b0 0 db (len - sizeof_msg)
    ok (message MsgType.validate len b1)

  -- `lvec` is the vector of values, of `lvec_len` bytes.
  unfoldable pub clicon_msg_change_encode : CString → ℕ → CString → List ℕ → Run Msg
  clicon_msg_change_encode db op key lvec = do
    let lvec_len = length lvec
    let len = sizeof_msg + 2 * 4 + strlen db + 1 + strlen key + 1 + lvec_len
    b0 ← chunk_body granted len
    b1 ← memcpy b0 0 (htonl op)
    b2 ← memcpy b1 4 (htonl lvec_len)
    b3 ← strncpy b2 8 db (len - 8 - sizeof_msg)
    let p3 = 8 + (strlen db + 1)
    b4 ← strncpy b3 p3 key (len - p3 - sizeof_msg)
    let p4 = p3 + (strlen key + 1)
    b5 ← memcpy b4 p4 lvec
    ok (message MsgType.change len b5)

  save_rest : List ℕ → ℕ → ℕ → CString → ℕ → Run (List ℕ)
  save_rest b len p filename snapshot =
      if snapshot == 0 then strncpy b p filename (len - p - sizeof_msg) else ok b

  -- The file name is sent only where no snapshot is asked for.
  unfoldable pub clicon_msg_save_encode : CString → ℕ → CString → Run Msg
  unfolding save_rest
  clicon_msg_save_encode db snapshot filename = do
    let base = sizeof_msg + 4 + strlen db + 1
    let len = if snapshot == 0 then base + (strlen filename + 1) else base
    b0 ← chunk_body granted len
    b1 ← memcpy b0 0 (htonl snapshot)
    b2 ← strncpy b1 4 db (len - 4 - sizeof_msg)
    b3 ← save_rest b2 len (4 + (strlen db + 1)) filename snapshot
    ok (message MsgType.save len b3)

  unfoldable pub clicon_msg_load_encode : ℕ → CString → CString → Run Msg
  clicon_msg_load_encode replace db filename = do
    let len = sizeof_msg + 4 + strlen db + 1 + strlen filename + 1
    b0 ← chunk_body granted len
    b1 ← memcpy b0 0 (htonl replace)
    b2 ← strncpy b1 4 db (len - 4 - sizeof_msg)
    let p2 = 4 + (strlen db + 1)
    b3 ← strncpy b2 p2 filename (len - p2 - sizeof_msg)
    ok (message MsgType.load len b3)

  unfoldable pub clicon_msg_initdb_encode : CString → Run Msg
  clicon_msg_initdb_encode filename = clicon_msg_1str_encode filename MsgType.initdb

  unfoldable pub clicon_msg_rm_encode : CString → Run Msg
  clicon_msg_rm_encode filename = clicon_msg_1str_encode filename MsgType.rm

  unfoldable pub clicon_msg_copy_encode : CString → CString → Run Msg
  clicon_msg_copy_encode filename_src filename_dst = do
    let len = sizeof_msg + strlen filename_src + 1 + strlen filename_dst + 1
    b0 ← chunk_body granted len
    b1 ← strncpy b0 0 filename_src (len - 0 - sizeof_msg)
    let p1 = strlen filename_src + 1
    b2 ← strncpy b1 p1 filename_dst (len - p1 - sizeof_msg)
    ok (message MsgType.copy len b2)

  unfoldable pub clicon_msg_lock_encode : CString → Run Msg
  clicon_msg_lock_encode db = clicon_msg_1str_encode db MsgType.lock

  unfoldable pub clicon_msg_unlock_encode : CString → Run Msg
  clicon_msg_unlock_encode db = clicon_msg_1str_encode db MsgType.unlock

  unfoldable pub clicon_msg_kill_encode : ℕ → Run Msg
  clicon_msg_kill_encode session_id = do
    let len = sizeof_msg + 4
    b0 ← chunk_body granted len
    b1 ← memcpy b0 0 (htonl session_id)
    ok (message MsgType.kill len b1)

  unfoldable pub clicon_msg_debug_encode : ℕ → Run Msg
  clicon_msg_debug_encode level = do
    let len = sizeof_msg + 4
    b0 ← chunk_body granted len
    b1 ← memcpy b0 0 (htonl level)
    ok (message MsgType.debug len b1)

  -- `status` and `format` are taken as their 32-bit patterns.
  unfoldable pub clicon_msg_subscription_encode : ℕ → CString → ℕ → CString → Run Msg
  clicon_msg_subscription_encode status stream format filter = do
    let len = sizeof_msg + 4 + 4 + strlen stream + 1 + strlen filter + 1
    b0 ← chunk_body granted len
    b1 ← memcpy b0 0 (htonl status)
    b2 ← memcpy b1 4 (htonl format)
    b3 ← strncpy b2 8 stream (len - 8 - sizeof_msg)
    let p3 = 8 + (strlen stream + 1)
    b4 ← strncpy b3 p3 filter (len - p3 - sizeof_msg)
    ok (message MsgType.subscription len b4)

  unfoldable pub clicon_msg_notify_encode : ℕ → CString → Run Msg
  clicon_msg_notify_encode level event = do
    let len = sizeof_msg + 4 + strlen event + 1
    b0 ← chunk_body granted len
    b1 ← memcpy b0 0 (htonl level)
    b2 ← strncpy b1 4 event (len - 4 - sizeof_msg)
    ok (message MsgType.notify len b2)

  unfoldable pub clicon_msg_err_encode : ℕ → ℕ → CString → Run Msg
  clicon_msg_err_encode err suberr reason = do
    let len = sizeof_msg + 2 * 4 + strlen reason + 1
    b0 ← chunk_body granted len
    b1 ← memcpy b0 0 (htonl err)
    b2 ← memcpy b1 4 (htonl suberr)
    b3 ← strncpy b2 8 reason (len - 8 - sizeof_msg)
    ok (message MsgType.err_reply len b3)
