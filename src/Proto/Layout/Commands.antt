-- ===== src/Proto/Layout/Commands.antt =====
-- The configuration commands of lib/src/clicon_proto_encode.c: what each encoder writes.
use clicon.Base.{
  ℕ, suc, ◌+◌, ◌*◌, ◌≡◌, refl, Bool, true, List, [], ◌∷◌, ◌++◌, append_assoc, append-nil, arith,
  length, length-append, if◌then◌else◌, ◌==◌, zero, suc-ne-zero,
}
use clicon.Proto.Types.{MsgType, CString, strlen}
use clicon.Proto.Buffer.{ok, htonl}
use clicon.Proto.Writing.{
  chunk_body-granted, memcpy_u32, memcpy_raw, strncpy_str, length-str, length-raw,
}
use clicon.Proto.Wire.{Field, u32, str, raw, wire, wire_message}
use clicon.Proto.Encode.{
  clicon_msg_commit_encode, clicon_msg_load_encode, clicon_msg_copy_encode,
  clicon_msg_change_encode, clicon_msg_save_encode,
}

-- The file name is part of the body exactly where no snapshot is asked for.
abbrev pub save_fields : CString → ℕ → CString → List Field
save_fields db snapshot filename =
    u32 snapshot ∷ str db ∷ (if snapshot == 0 then str filename ∷ [] else [])

module _ (granted : ℕ → Bool) where
  pub commit_layout :
      (dbsrc : CString) (dbdst : CString) (snapshot : ℕ) (startup : ℕ)
      → granted (4 + length (wire (u32 snapshot ∷ u32 startup ∷ str dbsrc ∷ str dbdst ∷ []))) ≡ true
      → clicon_msg_commit_encode granted dbsrc dbdst snapshot startup
        ≡ ok (wire_message MsgType.commit (u32 snapshot ∷ u32 startup ∷ str dbsrc ∷ str dbdst ∷ []))
  unfolding clicon_msg_commit_encode
  commit_layout dbsrc dbdst snapshot startup g =
      let f3 = str dbdst ∷ [] in
      let f2 = str dbsrc ∷ f3 in
      let f1 = u32 startup ∷ f2 in
      let fs = u32 snapshot ∷ f1 in
      let w1 = htonl snapshot in
      let w2 = w1 ++ htonl startup in
      let p3 = 8 + (strlen dbsrc + 1) in
      let w3 = w2 ++ (dbsrc ++ 0 ∷ []) in
      let len = 4 + 2 * 4 + strlen dbsrc + 1 + strlen dbdst + 1 in
      let size : len ≡ 4 + length (wire fs) =
        omega (arith, length-str dbsrc f3, length-str dbdst []) in
      rw
        (
          size,
          chunk_body-granted granted (length (wire fs)) g,
          memcpy_u32 [] snapshot f1 0 refl,
          memcpy_u32 w1 startup f2 4 refl,
          strncpy_str w2 dbsrc f3 8 (4 + length (wire fs)) refl (omega arith),
          strncpy_str w3 dbdst [] p3 (4 + length (wire fs))
              (omega (arith, length-append dbsrc (0 ∷ []))) (omega (arith, length-str dbsrc f3)),
        )
        (simp (append_assoc, append-nil))

  pub load_layout :
      (replace : ℕ) (db : CString) (filename : CString)
      → granted (4 + length (wire (u32 replace ∷ str db ∷ str filename ∷ []))) ≡ true
      → clicon_msg_load_encode granted replace db filename
        ≡ ok (wire_message MsgType.load (u32 replace ∷ str db ∷ str filename ∷ []))
  unfolding clicon_msg_load_encode
  load_layout replace db filename g =
      let f2 = str filename ∷ [] in
      let f1 = str db ∷ f2 in
      let fs = u32 replace ∷ f1 in
      let w1 = htonl replace in
      let p2 = 4 + (strlen db + 1) in
      let w2 = w1 ++ (db ++ 0 ∷ []) in
      let len = 4 + 4 + strlen db + 1 + strlen filename + 1 in
      let size : len ≡ 4 + length (wire fs) =
        omega (arith, length-str db f2, length-str filename []) in
      rw
        (
          size,
          chunk_body-granted granted (length (wire fs)) g,
          memcpy_u32 [] replace f1 0 refl,
          strncpy_str w1 db f2 4 (4 + length (wire fs)) refl (omega arith),
          strncpy_str w2 filename [] p2 (4 + length (wire fs))
              (omega (arith, length-append db (0 ∷ []))) (omega (arith, length-str db f2)),
        )
        (simp (append_assoc, append-nil))

  pub copy_layout :
      (filename_src : CString) (filename_dst : CString)
      → granted (4 + length (wire (str filename_src ∷ str filename_dst ∷ []))) ≡ true
      → clicon_msg_copy_encode granted filename_src filename_dst
        ≡ ok (wire_message MsgType.copy (str filename_src ∷ str filename_dst ∷ []))
  unfolding clicon_msg_copy_encode
  copy_layout filename_src filename_dst g =
      let f1 = str filename_dst ∷ [] in
      let fs = str filename_src ∷ f1 in
      let p1 = strlen filename_src + 1 in
      let w1 = (filename_src ++ 0 ∷ []) in
      let len = 4 + strlen filename_src + 1 + strlen filename_dst + 1 in
      let size : len ≡ 4 + length (wire fs) =
        omega (arith, length-str filename_src f1, length-str filename_dst []) in
      rw
        (
          size,
          chunk_body-granted granted (length (wire fs)) g,
          strncpy_str [] filename_src f1 0 (4 + length (wire fs)) refl (omega arith),
          strncpy_str w1 filename_dst [] p1 (4 + length (wire fs))
              (omega (arith, length-append filename_src (0 ∷ [])))
              (omega (arith, length-str filename_src f1)),
        )
        (simp (append_assoc, append-nil))

  pub change_layout :
      (db : CString) (op : ℕ) (key : CString) (lvec : List ℕ)
      → granted (4 + length (wire (u32 op ∷ u32 (length lvec) ∷ str db ∷ str key ∷ raw lvec ∷ [])))
        ≡ true
      → clicon_msg_change_encode granted db op key lvec
        ≡ ok (
            wire_message MsgType.change
              (u32 op ∷ u32 (length lvec) ∷ str db ∷ str key ∷ raw lvec ∷ []))
  unfolding clicon_msg_change_encode
  change_layout db op key lvec g =
      let f4 = raw lvec ∷ [] in
      let f3 = str key ∷ f4 in
      let f2 = str db ∷ f3 in
      let f1 = u32 (length lvec) ∷ f2 in
      let fs = u32 op ∷ f1 in
      let w1 = htonl op in
      let w2 = w1 ++ htonl (length lvec) in
      let p3 = 8 + (strlen db + 1) in
      let w3 = w2 ++ (db ++ 0 ∷ []) in
      let p4 = p3 + (strlen key + 1) in
      let w4 = w3 ++ (key ++ 0 ∷ []) in
      let len = 4 + 2 * 4 + strlen db + 1 + strlen key + 1 + length lvec in
      let size : len ≡ 4 + length (wire fs) =
        omega (arith, length-str db f3, length-str key f4, length-raw lvec []) in
      rw
        (
          size,
          chunk_body-granted granted (length (wire fs)) g,
          memcpy_u32 [] op f1 0 refl,
          memcpy_u32 w1 (length lvec) f2 4 refl,
          strncpy_str w2 db f3 8 (4 + length (wire fs)) refl (omega arith),
          strncpy_str w3 key f4 p3 (4 + length (wire fs)) (omega (arith, length-append db (0 ∷ [])))
              (omega (arith, length-str db f3)),
          memcpy_raw w4 lvec [] p4 (
              omega (
                arith,
                length-append db (0 ∷ []),
                length-append key (0 ∷ []),
                length-append w3 (key ++ 0 ∷ []),
              )),
        )
        (simp (append_assoc, append-nil))

  pub save_layout :
      (db : CString) (snapshot : ℕ) (filename : CString)
      → granted (4 + length (wire (save_fields db snapshot filename))) ≡ true
      → clicon_msg_save_encode granted db snapshot filename
        ≡ ok (wire_message MsgType.save (save_fields db snapshot filename))
  unfolding clicon_msg_save_encode
  save_layout db zero filename g =
      let f2 = str filename ∷ [] in
      let f1 = str db ∷ f2 in
      let fs = u32 zero ∷ f1 in
      let w1 = htonl 0 in
      let w2 = w1 ++ (db ++ 0 ∷ []) in
      let p2 = 4 + (strlen db + 1) in
      let len = 4 + 4 + strlen db + 1 + (strlen filename + 1) in
      let size : len ≡ 4 + length (wire fs) =
        omega (arith, length-str db f2, length-str filename []) in
      rw
        (
          size,
          chunk_body-granted granted (length (wire fs)) g,
          memcpy_u32 [] 0 f1 0 refl,
          strncpy_str w1 db f2 4 (4 + length (wire fs)) refl (omega arith),
          strncpy_str w2 filename [] p2 (4 + length (wire fs))
              (omega (arith, length-append db (0 ∷ []))) (omega (arith, length-str db f2)),
        )
        (simp (append_assoc, append-nil))
  save_layout db (suc n) filename g =
      let f1 = str db ∷ [] in
      let fs = u32 (suc n) ∷ f1 in
      let len = 4 + 4 + strlen db + 1 in
      let size : len ≡ 4 + length (wire fs) = omega (arith, length-str db []) in
      let g' : granted (4 + length (wire fs)) ≡ true = rw (suc-ne-zero n) at g in
      rw
        (
          suc-ne-zero n,
          size,
          chunk_body-granted granted (length (wire fs)) g',
          memcpy_u32 [] (suc n) f1 0 refl,
          strncpy_str (htonl (suc n)) db [] 4 (4 + length (wire fs)) refl (omega arith),
        )
        (simp (append_assoc, append-nil))
