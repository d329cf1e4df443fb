-- ===== src/Proto/RoundTrip/Commands.antt =====
-- The configuration commands of lib/src/clicon_proto_encode.c: decoding what was encoded.
use clicon.Base.{
  ℕ, suc, ◌+◌, ◌≡◌, ◌<◌, ◌^◌, refl, Bool, true, List, [], ◌∷◌, arith, length, some, none,
  if◌then◌else◌, ◌==◌, Bool-cases, suc-ne-zero, inl, inr, zero,
}
use clicon.Proto.Types.{CString, IsCString, strlen}
use clicon.Proto.Buffer.{ok, ◌>>=◌}
use clicon.Proto.Writing.{length-str, length-raw}
use clicon.Proto.Reading.{
  Grants, ntohl-htonl, At-htonl, At-str, chunk_sprintf-str, At-str_first, chunk_memcpy-raw,
}
use clicon.Proto.Wire.{u32, str, raw, wire}
use clicon.Proto.Layout.Commands.{
  save_fields, save_layout, commit_layout, load_layout, copy_layout, change_layout,
}
use clicon.Proto.Encode.{
  clicon_msg_commit_encode, clicon_msg_save_encode, clicon_msg_load_encode, clicon_msg_copy_encode,
  clicon_msg_change_encode,
}
use clicon.Proto.Decode.{
  clicon_msg_commit_decode, clicon_msg_save_decode, clicon_msg_load_decode, clicon_msg_copy_decode,
  clicon_msg_change_decode,
}

module _ (granted : ℕ → Bool) where
  -- Decoding an encoded commit message gives back both database names and both flags, where the
  -- flags fit 32 bits, the names are C strings and the memory is granted.
  pub commit_roundtrip :
      (dbsrc : CString) (dbdst : CString) (snapshot : ℕ) (startup : ℕ)
      → snapshot < 2 ^ 32
      → startup < 2 ^ 32
      → IsCString dbsrc
      → IsCString dbdst
      → Grants granted (4 + length (wire (u32 snapshot ∷ u32 startup ∷ str dbsrc ∷ str dbdst ∷ [])))
      → (clicon_msg_commit_encode granted dbsrc dbdst snapshot startup
          >>= clicon_msg_commit_decode granted)
        ≡ ok (dbsrc, dbdst, snapshot, startup)
  unfolding clicon_msg_commit_decode
  commit_roundtrip dbsrc dbdst snapshot startup h_snapshot h_startup h_dbsrc h_dbdst g =
      let f3 = str dbdst ∷ [] in
      let f2 = str dbsrc ∷ f3 in
      let f1 = u32 startup ∷ f2 in
      let fs = u32 snapshot ∷ f1 in
      let body = wire fs in
      let a1 = At-htonl body 0 snapshot (wire f1) refl in
      let a2 = At-htonl body 4 startup (wire f2) a1 in
      let a3 = At-str body 8 dbsrc (wire f3) a2 in
      let p3 = 8 + (strlen dbsrc + 1) in
      rw
        (
          commit_layout granted dbsrc dbdst snapshot startup
              (g (4 + length body) (omega arith) (omega arith)),
          ntohl-htonl body 0 snapshot (wire f1) refl h_snapshot,
          ntohl-htonl body 4 startup (wire f2) a1 h_startup,
          chunk_sprintf-str granted body 8 dbsrc (wire f3) a2 h_dbsrc (
              g (strlen dbsrc + 1) (omega arith)
                (omega (arith, length-str dbsrc f3, length-str dbdst []))),
          chunk_sprintf-str granted body p3 dbdst (wire []) a3 h_dbdst (
              g (strlen dbdst + 1) (omega arith)
                (omega (arith, length-str dbsrc f3, length-str dbdst []))),
        )
        refl

  -- Decoding an encoded load message gives back the flag, the database and the file, where the flag
  -- fits 32 bits, the names are C strings and the memory is granted.
  pub load_roundtrip :
      (replace : ℕ) (db : CString) (filename : CString)
      → replace < 2 ^ 32
      → IsCString db
      → IsCString filename
      → Grants granted (4 + length (wire (u32 replace ∷ str db ∷ str filename ∷ [])))
      → (clicon_msg_load_encode granted replace db filename >>= clicon_msg_load_decode granted)
        ≡ ok (replace, db, filename)
  unfolding clicon_msg_load_decode
  load_roundtrip replace db filename h_replace h_db h_filename g =
      let f2 = str filename ∷ [] in
      let f1 = str db ∷ f2 in
      let fs = u32 replace ∷ f1 in
      let body = wire fs in
      let a1 = At-htonl body 0 replace (wire f1) refl in
      let a2 = At-str body 4 db (wire f2) a1 in
      let p2 = 4 + (strlen db + 1) in
      rw
        (
          load_layout granted replace db filename (g (4 + length body) (omega arith) (omega arith)),
          ntohl-htonl body 0 replace (wire f1) refl h_replace,
          chunk_sprintf-str granted body 4 db (wire f2) a1 h_db (
              g (strlen db + 1) (omega arith)
                (omega (arith, length-str db f2, length-str filename []))),
          chunk_sprintf-str granted body p2 filename (wire []) a2 h_filename (
              g (strlen filename + 1) (omega arith)
                (omega (arith, length-str db f2, length-str filename []))),
        )
        refl

  -- Decoding an encoded copy message gives back both file names, where they are C strings and the
  -- memory is granted.
  pub copy_roundtrip :
      (filename_src : CString) (filename_dst : CString)
      → IsCString filename_src
      → IsCString filename_dst
      → Grants granted (4 + length (wire (str filename_src ∷ str filename_dst ∷ [])))
      → (clicon_msg_copy_encode granted filename_src filename_dst
          >>= clicon_msg_copy_decode granted)
        ≡ ok (filename_src, filename_dst)
  unfolding clicon_msg_copy_decode
  copy_roundtrip filename_src filename_dst h_filename_src h_filename_dst g =
      let f1 = str filename_dst ∷ [] in
      let fs = str filename_src ∷ f1 in
      let body = wire fs in
      let a1 = At-str_first body filename_src (wire f1) refl in
      let p1 = strlen filename_src + 1 in
      rw
        (
          copy_layout granted filename_src filename_dst
              (g (4 + length body) (omega arith) (omega arith)),
          chunk_sprintf-str granted body 0 filename_src (wire f1) refl h_filename_src (
              g (strlen filename_src + 1) (omega arith)
                (omega (arith, length-str filename_src f1, length-str filename_dst []))),
          chunk_sprintf-str granted body p1 filename_dst (wire []) a1 h_filename_dst (
              g (strlen filename_dst + 1) (omega arith)
                (omega (arith, length-str filename_src f1, length-str filename_dst []))),
        )
        refl

  -- Decoding an encoded change message gives back the database, the operation, the key and the value
  -- vector, byte for byte and with its length (an empty vector is read as NULL), where the numbers
  -- fit 32 bits, the names are C strings and the memory is granted.
  pub change_roundtrip :
      (db : CString) (op : ℕ) (key : CString) (lvec : List ℕ)
      → op < 2 ^ 32
      → length lvec < 2 ^ 32
      → IsCString db
      → IsCString key
      → Grants granted
          (4 + length (wire (u32 op ∷ u32 (length lvec) ∷ str db ∷ str key ∷ raw lvec ∷ [])))
      → (clicon_msg_change_encode granted db op key lvec >>= clicon_msg_change_decode granted)
        ≡ ok (db, op, key, (if length lvec == 0 then none else some lvec), length lvec)
  unfolding clicon_msg_change_decode
  change_roundtrip db op key lvec h_op h_len h_db h_key g =
      let f4 = raw lvec ∷ [] in
      let f3 = str key ∷ f4 in
      let f2 = str db ∷ f3 in
      let f1 = u32 (length lvec) ∷ f2 in
      let body = wire (u32 op ∷ f1) in
      let a1 = At-htonl body 0 op (wire f1) refl in
      let a2 = At-htonl body 4 (length lvec) (wire f2) a1 in
      let a3 = At-str body 8 db (wire f3) a2 in
      let p3 = 8 + (strlen db + 1) in
      let a4 = At-str body p3 key (wire f4) a3 in
      let g_db = g (strlen db + 1) (omega arith) (omega (arith, length-str db f3)) in
      let g_key =
        g (strlen key + 1) (omega arith) (omega (arith, length-str db f3, length-str key f4)) in
      rw
        (
          change_layout granted db op key lvec (g (4 + length body) (omega arith) (omega arith)),
          ntohl-htonl body 0 op (wire f1) refl h_op,
          ntohl-htonl body 4 (length lvec) (wire f2) a1 h_len,
          chunk_sprintf-str granted body 8 db (wire f3) a2 h_db g_db,
          chunk_sprintf-str granted body p3 key (wire f4) a3 h_key g_key,
        )
        (elim (Bool-cases (length lvec == 0)) [
          | inl e ↦ rw e
          | inr e ↦
              let g_lvec : granted (length lvec) ≡ true =
                g (length lvec) (ground arith)
                  (omega (arith, length-str db f3, length-str key f4, length-raw lvec [])) in
              rw (e, chunk_memcpy-raw granted body (p3 + (strlen key + 1)) lvec [] a4 g_lvec)
        ])

  -- Decoding an encoded save message gives back the database and the flag, and the file name where
  -- no snapshot is asked for (with a snapshot it reads as NULL), where the flag fits 32 bits, the
  -- names are C strings and the memory is granted.
  pub save_roundtrip :
      (db : CString) (snapshot : ℕ) (filename : CString)
      → snapshot < 2 ^ 32
      → IsCString db
      → IsCString filename
      → Grants granted (4 + length (wire (save_fields db snapshot filename)))
      → (clicon_msg_save_encode granted db snapshot filename >>= clicon_msg_save_decode granted)
        ≡ ok (db, snapshot, (if snapshot == 0 then some filename else none))
  unfolding clicon_msg_save_decode
  save_roundtrip db zero filename h_snapshot h_db h_filename g =
      let f2 = str filename ∷ [] in
      let f1 = str db ∷ f2 in
      let body = wire (u32 zero ∷ f1) in
      let a1 = At-htonl body 0 0 (wire f1) refl in
      let a2 = At-str body 4 db (wire f2) a1 in
      let g_db = g (strlen db + 1) (omega arith) (omega (arith, length-str db f2)) in
      let g_filename =
        g (strlen filename + 1) (omega arith)
          (omega (arith, length-str db f2, length-str filename [])) in
      rw
        (
          save_layout granted db 0 filename (g (4 + length body) (omega arith) (omega arith)),
          ntohl-htonl body 0 0 (wire f1) refl h_snapshot,
          chunk_sprintf-str granted body 4 db (wire f2) a1 h_db g_db,
          chunk_sprintf-str granted body (4 + (strlen db + 1)) filename [] a2 h_filename g_filename,
        )
        refl
  save_roundtrip db (suc n) filename h_snapshot h_db h_filename g =
      let f1 = str db ∷ [] in
      let body = wire (u32 (suc n) ∷ f1) in
      let a1 = At-htonl body 0 (suc n) (wire f1) refl in
      let g' : Grants granted (4 + length body) = rw (suc-ne-zero n) at g in
      let g_db = g' (strlen db + 1) (omega arith) (omega (arith, length-str db [])) in
      let layout_granted : granted (4 + length (wire (save_fields db (suc n) filename))) ≡ true =
        g _ (omega arith) (omega arith) in
      rw
        (
          save_layout granted db (suc n) filename layout_granted,
          suc-ne-zero n,
          ntohl-htonl body 0 (suc n) (wire f1) refl h_snapshot,
          chunk_sprintf-str granted body 4 db [] a1 h_db g_db,
          suc-ne-zero n,
        )
        refl
