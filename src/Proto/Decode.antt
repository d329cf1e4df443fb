-- ===== src/Proto/Decode.antt =====
-- The decoders of lib/src/clicon_proto_encode.c. What the source writes through its pointer
-- arguments is the result, in the order of the arguments.
use clicon.Base.{ℕ, ◌+◌, Bool, if◌then◌else◌, ◌==◌, Option, none, some, List}
use clicon.Proto.Types.{Msg, CString, strlen}
use clicon.Proto.Buffer.{Run, ok, ◌>>=◌, ntohl_at, chunk_memcpy, chunk_sprintf}

module _ (granted : ℕ → Bool) where
  unfoldable pub clicon_msg_1str_decode : Msg → Run CString
  clicon_msg_1str_decode msg = chunk_sprintf granted msg.op_body 0

  unfoldable pub clicon_msg_commit_decode : Msg → Run (CString × CString × ℕ × ℕ)
  clicon_msg_commit_decode msg = do
    snapshot ← ntohl_at msg.op_body 0
    startup ← ntohl_at msg.op_body 4
    dbsrc ← chunk_sprintf granted msg.op_body 8
    dbdst ← chunk_sprintf granted msg.op_body (8 + (strlen dbsrc + 1))
    ok (dbsrc, dbdst, snapshot, startup)

  unfoldable pub clicon_msg_validate_decode : Msg → Run CString
  clicon_msg_validate_decode msg = chunk_sprintf granted msg.op_body 0

  -- An empty vector is the null pointer.
  change_lvec : List ℕ → ℕ → ℕ → Run (Option (List ℕ))
  change_lvec body p lvec_len =
      if lvec_len == 0 then ok none else (chunk_memcpy granted body p lvec_len >>= λ v. ok (some v))

  unfoldable pub clicon_msg_change_decode : Msg → Run (CString × ℕ × CString × Option (List ℕ) × ℕ)
  unfolding change_lvec
  clicon_msg_change_decode msg = do
    op ← ntohl_at msg.op_body 0
    lvec_len ← ntohl_at msg.op_body 4
    db ← chunk_sprintf granted msg.op_body 8
    let p3 = 8 + (strlen db + 1)
    key ← chunk_sprintf granted msg.op_body p3
    lvec ← change_lvec msg.op_body (p3 + (strlen key + 1)) lvec_len
    ok (db, op, key, lvec, lvec_len)

  -- The file name is left as it was where a snapshot is asked for.
  save_filename : List ℕ → ℕ → ℕ → Run (Option CString)
  save_filename body p snapshot =
      if snapshot == 0 then (chunk_sprintf granted body p >>= λ s. ok (some s)) else ok none

  unfoldable pub clicon_msg_save_decode : Msg → Run (CString × ℕ × Option CString)
  unfolding save_filename
  clicon_msg_save_decode msg = do
    snapshot ← ntohl_at msg.op_body 0
    db ← chunk_sprintf granted msg.op_body 4
    filename ← save_filename msg.op_body (4 + (strlen db + 1)) snapshot
    ok (db, snapshot, filename)

  unfoldable pub clicon_msg_load_decode : Msg → Run (ℕ × CString × CString)
  clicon_msg_load_decode msg = do
    replace ← ntohl_at msg.op_body 0
    db ← chunk_sprintf granted msg.op_body 4
    filename ← chunk_sprintf granted msg.op_body (4 + (strlen db + 1))
    ok (replace, db, filename)

  unfoldable pub clicon_msg_initdb_decode : Msg → Run CString
  clicon_msg_initdb_decode msg = clicon_msg_1str_decode msg

  unfoldable pub clicon_msg_rm_decode : Msg → Run CString
  clicon_msg_rm_decode msg = clicon_msg_1str_decode msg

  unfoldable pub clicon_msg_copy_decode : Msg → Run (CString × CString)
  clicon_msg_copy_decode msg = do
    filename_src ← chunk_sprintf granted msg.op_body 0
    filename_dst ← chunk_sprintf granted msg.op_body (strlen filename_src + 1)
    ok (filename_src, filename_dst)

  unfoldable pub clicon_msg_lock_decode : Msg → Run CString
  clicon_msg_lock_decode msg = clicon_msg_1str_decode msg

  unfoldable pub clicon_msg_unlock_decode : Msg → Run CString
  clicon_msg_unlock_decode msg = clicon_msg_1str_decode msg

unfoldable pub clicon_msg_kill_decode : Msg → Run ℕ
clicon_msg_kill_decode msg = ntohl_at msg.op_body 0

unfoldable pub clicon_msg_debug_decode : Msg → Run ℕ
clicon_msg_debug_decode msg = ntohl_at msg.op_body 0

module _ (granted : ℕ → Bool) where
  unfoldable pub clicon_msg_subscription_decode : Msg → Run (ℕ × CString × ℕ × CString)
  clicon_msg_subscription_decode msg = do
    status ← ntohl_at msg.op_body 0
    format ← ntohl_at msg.op_body 4
    stream ← chunk_sprintf granted msg.op_body 8
    filter ← chunk_sprintf granted msg.op_body (8 + (strlen stream + 1))
    ok (status, stream, format, filter)

  unfoldable pub clicon_msg_notify_decode : Msg → Run (ℕ × CString)
  clicon_msg_notify_decode msg = do
    level ← ntohl_at msg.op_body 0
    event ← chunk_sprintf granted msg.op_body 4
    ok (level, event)

  unfoldable pub clicon_msg_err_decode : Msg → Run (ℕ × ℕ × CString)
  clicon_msg_err_decode msg = do
    err ← ntohl_at msg.op_body 0
    suberr ← ntohl_at msg.op_body 4
    reason ← chunk_sprintf granted msg.op_body 8
    ok (err, suberr, reason)
