-- ===== src/Backend/Guard.antt =====
-- The candidate database under another session's lock: the guards of apps/config/config_client.c.
use clicon.Base.{
  ℕ, ◌≡◌, ◌≢◌, ap, Bool, true, false, List, Option, some, arith, inl, inr, str_eq, str_eq_refl,
  Bool-cases,
}
use clicon.Proto.Types.{Sized, CString, Msg, MsgType}
use clicon.Proto.Buffer.{Run, ok}
use clicon.Backend.Types.{Client, Env, World}
use clicon.Backend.Cases.{run_decoded_cases}
use clicon.Backend.Dispatch.{received, run_decoded, undecoded, msg_case, dispatch, from_client}
use clicon.Backend.Handlers.{
  from_client_change, from_client_load, from_client_initdb, from_client_rm, from_client_copy,
}

-- What the database layer and the file system promise: an operation on one file leaves what is in
-- a file of another name alone.
module _ {F C : Type 0} where
  pub record Frame (env : Env F) (content : F → CString → C) : Type 0 where
    pub exec_frame :
        (db key : CString) (op : ℕ) (lvec : Option (List ℕ)) (files : F) (name : CString)
        → name ≢ db
        → content (env.db_lv_op_exec db key op lvec files).0 name ≡ content files name
    pub load_frame :
        (file db : CString) (files : F) (name : CString)
        → name ≢ db
        → content (env.load_xml_to_db file db files).0 name ≡ content files name
    pub init_frame :
        (db : CString) (files : F) (name : CString)
        → name ≢ db
        → content (env.db_init db files).0 name ≡ content files name
    pub unlink_frame :
        (db : CString) (files : F) (name : CString)
        → name ≢ db
        → content (env.unlink db files).0 name ≡ content files name
    pub copy_frame :
        (from to : CString) (files : F) (name : CString)
        → name ≢ to
        → content (env.file_cp from to files).0 name ≡ content files name

ne_of_str_eq : (s t : CString) → str_eq s t ≡ false → t ≢ s
ne_of_str_eq s t h e = cc (str_eq_refl s)

module _ {F C : Type 0} (env : Env F) (content : F → CString → C) (frame : Frame env content)
    (candidate : CString) (configured : env.candidate_db ≡ some candidate) (w : World F) (pid : ℕ)
    (held : w.db_locked ≢ 0) (other : pid ≢ w.db_locked) where
  abbrev Unharmed : World F × Bool → Type 0
  Unharmed r = content r.0.files candidate ≡ content w.files candidate

  pub change-Unharmed :
      (s : ℕ) (a : CString × ℕ × CString × Option (List ℕ) × ℕ)
      → Unharmed (from_client_change env s pid a w)
  unfolding from_client_change
  change-Unharmed s (db, op, key, lvec, len) = elim (Bool-cases (str_eq db candidate)) [
    | inl same ↦ ground arith
    | inr differ ↦ ground (
      arith,
      frame.exec_frame db key op lvec w.files candidate (ne_of_str_eq db candidate differ),
    )
  ]

  pub load-Unharmed :
      (s : ℕ) (a : ℕ × CString × CString) → Unharmed (from_client_load env s pid a w)
  unfolding from_client_load
  load-Unharmed s (replace, db, file) = elim (Bool-cases (str_eq db candidate)) [
    | inl same ↦ ground arith
    | inr differ ↦
        let apart = ne_of_str_eq db candidate differ in
        let removed = (env.unlink db w.files).0 in
        let fresh = (env.db_init db removed).0 in
        ground (
          arith,
          frame.load_frame file db w.files candidate apart,
          frame.unlink_frame db w.files candidate apart,
          frame.init_frame db removed candidate apart,
          frame.load_frame file db fresh candidate apart,
        )
  ]

  pub initdb-Unharmed : (s : ℕ) (a : CString) → Unharmed (from_client_initdb env s pid a w)
  unfolding from_client_initdb
  initdb-Unharmed s db = elim (Bool-cases (str_eq db candidate)) [
    | inl same ↦ ground arith
    | inr differ ↦
        ground (arith, frame.init_frame db w.files candidate (ne_of_str_eq db candidate differ))
  ]

  pub rm-Unharmed : (s : ℕ) (a : CString) → Unharmed (from_client_rm env s pid a w)
  unfolding from_client_rm
  rm-Unharmed s db = elim (Bool-cases (str_eq db candidate)) [
    | inl same ↦ ground arith
    | inr differ ↦
        ground (arith, frame.unlink_frame db w.files candidate (ne_of_str_eq db candidate differ))
  ]

  pub copy-Unharmed : (s : ℕ) (a : CString × CString) → Unharmed (from_client_copy env s pid a w)
  unfolding from_client_copy
  copy-Unharmed s (from, to) = elim (Bool-cases (str_eq to candidate)) [
    | inl same ↦ ground arith
    | inr differ ↦
        ground
          (arith, frame.copy_frame from to w.files candidate (ne_of_str_eq to candidate differ))
  ]

-- The commands that write to the database that they name.
abbrev pub writes_named_db : Option MsgType → Bool
writes_named_db (some MsgType.change) = true
writes_named_db (some MsgType.load) = true
writes_named_db (some MsgType.rm) = true
writes_named_db (some MsgType.initdb) = true
writes_named_db (some MsgType.copy) = true
writes_named_db _ = false

module _ {F C : Type 0} (env : Env F) (content : F → CString → C) where
  undecoded-files : (s : ℕ) (w : World F) → (undecoded env s w).0.files ≡ w.files
  unfolding undecoded
  undecoded-files s w = ground arith

  decoded_unharmed :
      {A : Type 0} (candidate : CString) (s : ℕ) (w : World F) (r : Run A) (k : A → World F × Bool)
      → ((a : A) → content (k a).0.files candidate ≡ content w.files candidate)
      → (w' : World F) → run_decoded r (undecoded env s w) k ≡ ok w'
      → content w'.files candidate ≡ content w.files candidate
  decoded_unharmed candidate s w r k h =
      run_decoded_cases (λ v. content v.files candidate ≡ content w.files candidate) r _ k
        (ap (λ files. content files candidate) (undecoded-files s w)) (λ a _. h a)

  module _ (candidate : CString) (ce : Client) (msg : Msg) (w : World F) (frame : Frame env content)
      (configured : env.candidate_db ≡ some candidate) (held : w.db_locked ≢ 0)
      (other : ce.ce_pid ≢ w.db_locked) where
    dispatch-unharmed :
        (c : Option MsgType)
        → writes_named_db c ≡ true
        → (w' : World F) → dispatch env ce msg c w ≡ ok w'
        → content w'.files candidate ≡ content w.files candidate
    unfolding dispatch
    dispatch-unharmed (some MsgType.change) writes w' e =
        decoded_unharmed candidate ce.ce_s w _ _
          (change-Unharmed env content frame candidate configured w ce.ce_pid held other ce.ce_s) w'
          e
    dispatch-unharmed (some MsgType.load) writes w' e =
        decoded_unharmed candidate ce.ce_s w _ _
          (load-Unharmed env content frame candidate configured w ce.ce_pid held other ce.ce_s) w' e
    dispatch-unharmed (some MsgType.rm) writes w' e =
        decoded_unharmed candidate ce.ce_s w _ _
          (rm-Unharmed env content frame candidate configured w ce.ce_pid held other ce.ce_s) w' e
    dispatch-unharmed (some MsgType.initdb) writes w' e =
        decoded_unharmed candidate ce.ce_s w _ _
          (initdb-Unharmed env content frame candidate configured w ce.ce_pid held other ce.ce_s) w'
          e
    dispatch-unharmed (some MsgType.copy) writes w' e =
        decoded_unharmed candidate ce.ce_s w _ _
          (copy-Unharmed env content frame candidate configured w ce.ce_pid held other ce.ce_s) w' e
    dispatch-unharmed _ writes w' e = cc

    -- While one session holds the lock, no message of another session that changes, loads, removes,
    -- initialises or overwrites a database changes what is in the candidate.
    pub from_client-unharmed :
        (sized : Sized msg) (w' : World F)
        → writes_named_db (msg_case msg.op_type) ≡ true
        → from_client env ce (received msg sized) w ≡ ok w'
        → content w'.files candidate ≡ content w.files candidate
    unfolding from_client
    from_client-unharmed sized w' writes e = dispatch-unharmed (msg_case msg.op_type) writes w' e
