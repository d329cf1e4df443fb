-- ===== src/Transaction/Commit.antt =====
-- `candidate_commit` and `candidate_validate` of apps/config/config_commit.c.
use clicon.Base.{ℕ, Bool, true, false, List, [], ◌∷◌, Option, none, some, if◌then◌else◌, ◌==◌}
use mathlib.Core.List.{reverse}
use clicon.Proto.Types.{CString}
use clicon.Backend.Types.{ErrState}
use clicon.Transaction.Types.{
  CommitOp, co_add, co_delete, co_change, DiffEnt, DepDiff, Call, did_copy, Plugins, Tx,
}
use clicon.Transaction.Vector.{dbdep_commitvec}
use clicon.Transaction.Callbacks.{
  dbdiff2commit_op, reverse_op, last_error, forward_call, backward_call, run_callbacks,
  revert_callbacks, plugin_begin_hooks, plugin_complete_hooks, plugin_end_hooks, plugin_abort_hooks,
}

-- The operation of an entry.
abbrev pub entry_op : DepDiff → CommitOp
entry_op dd = dbdiff2commit_op dd.dd_dbdiff.dfe_op

-- With commit order 2 a change is a deletion and an addition.
unfoldable pub deleting : ℕ → CommitOp → Option CommitOp
deleting order co_add = none
deleting order co_delete = some co_delete
deleting order co_change = if order == 2 then some co_delete else none

unfoldable pub setting : ℕ → CommitOp → Option CommitOp
setting order co_add = some co_add
setting order co_delete = none
setting order co_change = some (if order == 2 then co_add else co_change)

-- Which callbacks a loop calls: of the commit entries, those to which `operation` gives an operation.
unfoldable pub calls_of :
    (DepDiff → CommitOp → Call) → (CommitOp → Option CommitOp) → DepDiff → Option Call
calls_of call operation dd =
    if dd.dd_dep.dp_commit
    then elim (operation (entry_op dd)) [ none ↦ none | some op ↦ some (call dd op) ]
    else none

abbrev pub reversing : (CommitOp → Option CommitOp) → CommitOp → Option CommitOp
reversing operation op = elim (operation op) [ none ↦ none | some op' ↦ some (reverse_op op') ]

-- What the code between `candidate_commit`'s labels returns: the state, whether it failed, and
-- `firsterr`.
abbrev pub Phase : Type 0 → Type 0
Phase S = Tx S × Bool × Option ErrState

-- A step that may jump to the label `done`.
abbrev pub Step : Type 0 → Type 0 → Type 0
Step S A = Tx S → Tx S × Option A

infixl 5 ◌>>=◌ ◌>>◌
abbrev pub ◌>>=◌ : {S A B : Type 0} → Step S A → (A → Step S B) → Step S B
◌>>=◌ m f tx = let (tx', r) = m tx in elim r [ none ↦ (tx', none) | some a ↦ f a tx' ]

abbrev pub ◌>>◌ : {S B : Type 0} → Step S (Unit {0}) → Step S B → Step S B
m >> k = m >>= λ _. k

module _ {S : Type 0} (plugins : Plugins S) (running candidate : CString) where
  -- `clicon_err_save`.
  unfoldable pub save_error : Tx S → Option ErrState
  save_error tx = if plugins.save_memory then some tx.err else none

  -- A copy that fails reports the error. `file_cp` truncates the target before it writes, so the trace
  -- has every copy that was tried.
  unfoldable pub copy : CString → CString → Tx S → Tx S × Bool
  copy from to tx =
      let (s, made) = plugins.file_cp from to tx.state in
      if made then (record tx { state = s; trace = did_copy from to true ∷ tx.trace }, true) else (
        record { state = s; err = plugins.copy_error s; trace = did_copy from to false ∷ tx.trace },
        false,
      )

  finish_copy : (List DepDiff → Tx S → Tx S) → List DepDiff → Tx S × Bool → Phase S
  finish_copy revert done (tx, true) = (tx, true, none)
  finish_copy revert done (tx, false) = (revert done tx, false, none)

  -- After the last loop: the candidate is copied to the running database if no callback failed. If
  -- one did, or the copy, `revert` is given the entries that were passed.
  unfoldable pub finish_run : (List DepDiff → Tx S → Tx S) → Tx S × List DepDiff × Bool → Phase S
  unfolding finish_copy copy save_error
  finish_run revert (tx, done, true) = finish_copy revert done (copy candidate running tx)
  finish_run revert (tx, done, false) = (revert done tx, false, save_error tx)

  -- Commit order 0: the callbacks in the order of the vector.
  unfoldable pub commit_calls : DepDiff → Option Call
  unfolding calls_of
  commit_calls = calls_of (forward_call running candidate) some

  unfoldable pub undo_calls : DepDiff → Option Call
  unfolding calls_of
  undo_calls = calls_of (backward_call running candidate) (reversing some)

  unfoldable pub commit_in_order : List DepDiff → Tx S → Phase S
  unfolding finish_run commit_calls undo_calls
  commit_in_order ddvec tx =
      finish_run (revert_callbacks plugins undo_calls)
        (run_callbacks plugins commit_calls ddvec [] tx)

  -- Commit orders 1 and 2: the deletions first, in the opposite order.
  unfoldable pub delete_calls : ℕ → DepDiff → Option Call
  unfolding calls_of deleting
  delete_calls order = calls_of (forward_call running candidate) (deleting order)

  -- After a deletion that failed the operation of the calls is a deletion again.
  unfoldable pub redelete_calls : ℕ → DepDiff → Option Call
  unfolding calls_of deleting
  redelete_calls order = calls_of (backward_call running candidate) (deleting order)

  unfoldable pub set_calls : ℕ → DepDiff → Option Call
  unfolding calls_of setting
  set_calls order = calls_of (forward_call running candidate) (setting order)

  unfoldable pub unset_calls : ℕ → DepDiff → Option Call
  unfolding calls_of setting
  unset_calls order = calls_of (backward_call running candidate) (reversing (setting order))

  unfoldable pub undelete_calls : ℕ → DepDiff → Option Call
  unfolding calls_of deleting
  undelete_calls order = calls_of (backward_call running candidate) (reversing (deleting order))

  unfoldable pub set_after : ℕ → List DepDiff → Tx S × List DepDiff × Bool → Phase S
  unfolding finish_run redelete_calls set_calls unset_calls undelete_calls save_error
  set_after order ddvec (tx, done, true) =
      finish_run
        (λ set tx.
          revert_callbacks plugins (undelete_calls order) ddvec
            (revert_callbacks plugins (unset_calls order) set tx))
        (run_callbacks plugins (set_calls order) ddvec [] tx)
  set_after order ddvec (tx, done, false) =
      (revert_callbacks plugins (redelete_calls order) done tx, false, save_error tx)

  unfoldable pub commit_deletes_first : ℕ → List DepDiff → Tx S → Phase S
  unfolding set_after delete_calls
  commit_deletes_first order ddvec tx =
      set_after order ddvec (run_callbacks plugins (delete_calls order) (reverse ddvec) [] tx)

  unfoldable pub commit_phase : List DepDiff → Tx S → Phase S
  unfolding commit_in_order commit_deletes_first
  commit_phase ddvec tx =
      if plugins.commit_order == 0
      then commit_in_order ddvec tx
      else commit_deletes_first plugins.commit_order ddvec tx

  -- Up to the commit both functions are the same.
  require : CString → Step S (Unit {0})
  require db tx =
      if plugins.exists db tx.state
      then (tx, some tt)
      else (record tx { err = plugins.stat_error db tx.state }, none)

  checked : Tx S × Bool → Tx S × Option (Unit {0})
  checked (tx, true) = (tx, some tt)
  checked (tx, false) = (tx, none)

  reporting : {A : Type 0} → Option A × Option ErrState → Step S A
  reporting (r, e) tx = (record tx { err = last_error e tx.err }, r)

  generic_validate : List DiffEnt → Step S (Unit {0})
  unfolding checked
  generic_validate df tx =
      let (s, out) = plugins.generic_validate candidate df tx.state in
      checked (record tx { state = s; err = last_error out.reported tx.err }, out.succeeded)

  validate_calls : DepDiff → Option Call
  validate_calls dd =
      if dd.dd_dep.dp_validate then some (forward_call running candidate dd (entry_op dd)) else none

  unfoldable pub validate_db : List DepDiff → Step S (Unit {0})
  unfolding checked validate_calls
  validate_db ddvec tx =
      let (tx', done, succeeded) = run_callbacks plugins validate_calls ddvec [] tx in
      checked (tx', succeeded)

  unfoldable pub prepare : Step S (List DepDiff)
  unfolding require checked reporting generic_validate validate_db dbdep_commitvec
  prepare = do
    require running
    require candidate
    df ← λ tx. reporting (plugins.db_diff running candidate tx.state) tx
    ddvec ← reporting (dbdep_commitvec plugins.qsort plugins.strdup_error plugins.deps df)
    λ tx. checked (plugin_begin_hooks plugins tx)
    generic_validate df
    validate_db ddvec
    λ tx. checked (plugin_complete_hooks plugins tx)
    λ tx. (tx, some ddvec)

  -- After the commit: the running database is copied back, and the end hooks are called.
  finish_end : Tx S × Bool → Tx S × Bool
  finish_end (tx, true) = ((plugin_end_hooks plugins tx).0, true)
  finish_end (tx, false) = (tx, false)

  unfoldable pub copy_back : Phase S → Phase S
  unfolding finish_end copy
  copy_back (tx, true, firsterr) =
      let (tx', ended) = finish_end (copy running candidate tx) in (tx', ended, firsterr)
  copy_back (tx, false, firsterr) = (tx, false, firsterr)

  -- The label `done`.
  unfoldable pub done_label : Phase S → Tx S × Bool
  done_label (tx, ended, firsterr) =
      let tx' = if ended then tx else plugin_abort_hooks plugins tx in
      (record tx' { err = last_error firsterr tx'.err }, ended)

  unfoldable pub commit_prepared : Tx S × Option (List DepDiff) → Phase S
  unfolding copy_back commit_phase
  commit_prepared (tx, none) = (tx, false, none)
  commit_prepared (tx, some ddvec) = copy_back (commit_phase ddvec tx)

  -- True where the source returns 0.
  unfoldable pub candidate_commit : Tx S → Tx S × Bool
  unfolding done_label commit_prepared prepare
  candidate_commit tx = done_label (commit_prepared (prepare tx))

  unfoldable pub candidate_validate : Tx S → Tx S × Bool
  unfolding done_label prepare
  candidate_validate tx =
      let (tx', prepared) = prepare tx in
      done_label (tx', elim prepared [ none ↦ false | some ddvec ↦ true ], none)
