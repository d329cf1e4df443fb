-- ===== src/Transaction/Trace.antt =====
-- What is called and copied in a transaction.
use clicon.Base.{
  ℕ, ◌≡◌, ◌⊎◌, refl, sym, ap, ◌∙◌, Bool, true, false, List, [], ◌∷◌, Option, none, some, arith, inl,
  inr, Bool-cases, Option-cases, ◌==◌,
}
use mathlib.Core.List.{reverse}
use clicon.Proto.Types.{CString}
use clicon.Transaction.Types.{
  CommitOp, co_add, co_delete, co_change, DepDiff, Call, Event, did_call, did_copy, did_hook,
  Plugins, Tx,
}
use clicon.Transaction.Callbacks.{forward_call, backward_call, run_callbacks, revert_callbacks}
use clicon.Transaction.Commit.{
  entry_op, deleting, calls_of, commit_calls, delete_calls, redelete_calls, finish_run,
  commit_in_order, set_after, commit_deletes_first, set_calls, unset_calls, undelete_calls,
  undo_calls, commit_phase,
}
use clicon.Transaction.Adds.{Adds, Adds-trans, run_callbacks-Adds, revert_callbacks-Adds}

-- The calls of deletions, and calls of whatever operation.
unfoldable pub IsDeletion : Event → Type 0
IsDeletion (did_call c) = c.op ≡ co_delete
IsDeletion (did_copy from to made) = ⊥
IsDeletion (did_hook hook i) = ⊥

unfoldable pub IsCall : Event → Type 0
IsCall (did_call c) = Unit
IsCall (did_copy from to made) = ⊥
IsCall (did_hook hook i) = ⊥

deleting-delete : (order : ℕ) (op op' : CommitOp) → deleting order op ≡ some op' → op' ≡ co_delete
unfolding deleting
deleting-delete order co_add op' = λ e. cc
deleting-delete order co_delete op' = λ e. cc
deleting-delete order co_change op' = ground arith

-- What a loop calls has the operation that it was given.
calls_of-op :
    (call : DepDiff → CommitOp → Call) (operation : CommitOp → Option CommitOp) (o : CommitOp)
    → ((dd : DepDiff) (op : CommitOp) → (call dd op).op ≡ op)
    → ((op op' : CommitOp) → operation op ≡ some op' → op' ≡ o)
    → (dd : DepDiff) (c : Call) → calls_of call operation dd ≡ some c
    → c.op ≡ o
unfolding calls_of
calls_of-op call operation o given only dd c = elim (Bool-cases dd.dd_dep.dp_commit) [
  | inl e ↦ elim (Option-cases (operation (entry_op dd))) [
    | inl absent ↦ rw (e, absent) (λ h. cc)
    | inr (op, given_op) ↦
        rw (e, given_op)
          (λ h.
            ap (λ x. (elim x [ none ↦ o | some c ↦ c.op ])) (sym h)
            ∙ given dd op
            ∙ only (entry_op dd) op given_op)
  ]
  | inr e ↦ rw e (λ h. cc)
]

IsCall-Allowed :
    (select : DepDiff → Option Call) (dd : DepDiff) (c : Call)
    → select dd ≡ some c
    → IsCall (did_call c)
unfolding IsCall
IsCall-Allowed select dd c call = tt

module _ {S : Type 0} (plugins : Plugins S) (running candidate : CString) where
  redelete-Adds :
      (order : ℕ) (ddvec : List DepDiff) (r : Tx S × List DepDiff × Bool) (tx : Tx S)
      → Adds IsDeletion tx r.0
      → r.2 ≡ false
      → Adds IsDeletion tx (set_after plugins running candidate order ddvec r).0
  unfolding set_after redelete_calls backward_call IsDeletion
  redelete-Adds order ddvec (tx', done, true) tx adds = λ e. cc
  redelete-Adds order ddvec (tx', done, false) tx adds = λ e.
      Adds-trans plugins IsDeletion tx tx' _ adds (
        revert_callbacks-Adds plugins IsDeletion (redelete_calls plugins running candidate order)
          (calls_of-op (backward_call running candidate) (deleting order) co_delete (λ dd op. refl)
            (deleting-delete order))
          done tx')

  -- With commit order 1 or 2, when a deletion fails then every callback that the phase calls, those of
  -- its rollback too, is called with the operation of a deletion: nothing is added back.
  pub commit_deletes_first-only_deletes :
      (order : ℕ) (ddvec : List DepDiff) (tx : Tx S)
      → (run_callbacks plugins
          (delete_calls plugins running candidate order)
          (reverse ddvec)
          []
          tx).2
        ≡ false
      → Adds IsDeletion tx (commit_deletes_first plugins running candidate order ddvec tx).0
  unfolding commit_deletes_first delete_calls forward_call IsDeletion
  commit_deletes_first-only_deletes order ddvec tx =
      redelete-Adds order ddvec
        (run_callbacks plugins (delete_calls plugins running candidate order) (reverse ddvec) [] tx)
        tx
        (run_callbacks-Adds plugins IsDeletion (delete_calls plugins running candidate order)
          (calls_of-op (forward_call running candidate) (deleting order) co_delete (λ dd op. refl)
            (deleting-delete order))
          (reverse ddvec) [] tx)

  abbrev lost_copy : Tx S → Tx S
  lost_copy tx = record {
    state = (plugins.file_cp candidate running tx.state).0;
    err = plugins.copy_error (plugins.file_cp candidate running tx.state).0;
    trace = did_copy candidate running false ∷ tx.trace;
  }

  -- How a phase leaves the trace. One that failed has only called callbacks, or has called callbacks,
  -- tried the copy, which failed, and called callbacks again.
  unfoldable pub Traced : Tx S → Tx S → Bool → Type 0
  Traced tx tx' false =
      Adds IsCall tx tx'
      ⊎ ((before : Tx S) × Adds IsCall tx before
          × ((plugins.file_cp candidate running before.state).1 ≡ false)
          × Adds IsCall (lost_copy before) tx')
  Traced tx tx' true =
      (before : Tx S) × Adds IsCall tx before
      × (tx'.trace ≡ did_copy candidate running true ∷ before.trace)

  finish_run-Traced :
      (revert : List DepDiff → Tx S → Tx S) (r : Tx S × List DepDiff × Bool) (tx : Tx S)
      → ((dds : List DepDiff) (tx : Tx S) → Adds IsCall tx (revert dds tx))
      → Adds IsCall tx r.0
      → Traced tx
          (finish_run plugins running candidate revert r).0
          (finish_run plugins running candidate revert r).1
  unfolding finish_run Traced
  finish_run-Traced revert (tx', done, false) tx back adds =
      inl (Adds-trans plugins IsCall tx tx' (revert done tx') adds (back done tx'))
  finish_run-Traced revert (tx', done, true) tx back adds =
      elim (Bool-cases (plugins.file_cp candidate running tx'.state).1) [
        | inl made ↦ rw (made, finish_run) (tx', adds, refl)
        | inr lost ↦ rw (lost, finish_run) (inr (tx', adds, lost, back done (lost_copy tx')))
      ]

  reverting :
      (select : DepDiff → Option Call) (dds : List DepDiff) (tx : Tx S)
      → Adds IsCall tx (revert_callbacks plugins select dds tx)
  reverting select = revert_callbacks-Adds plugins IsCall select (IsCall-Allowed select)

  running_calls :
      (select : DepDiff → Option Call) (dds : List DepDiff) (tx : Tx S)
      → Adds IsCall tx (run_callbacks plugins select dds [] tx).0
  running_calls select dds = run_callbacks-Adds plugins IsCall select (IsCall-Allowed select) dds []

  set_after-Traced :
      (order : ℕ) (ddvec : List DepDiff) (r : Tx S × List DepDiff × Bool) (tx : Tx S)
      → Adds IsCall tx r.0
      → Traced tx
          (set_after plugins running candidate order ddvec r).0
          (set_after plugins running candidate order ddvec r).1
  unfolding set_after set_calls unset_calls undelete_calls redelete_calls Traced
  set_after-Traced order ddvec (tx', done, false) tx adds = inl (
      Adds-trans plugins IsCall tx tx' _ adds
        (reverting (redelete_calls plugins running candidate order) done tx'))
  set_after-Traced order ddvec (tx', done, true) tx adds =
      finish_run-Traced _
        (run_callbacks plugins (set_calls plugins running candidate order) ddvec [] tx') tx
        (λ set tx.
          Adds-trans plugins IsCall tx _ _
            (reverting (unset_calls plugins running candidate order) set tx)
            (reverting (undelete_calls plugins running candidate order) ddvec _))
        (Adds-trans plugins IsCall tx tx' _ adds
          (running_calls (set_calls plugins running candidate order) ddvec tx'))

  -- In any commit order, a commit phase that fails either has only called callbacks and has tried no
  -- copy, or has called callbacks, then tried to copy the candidate to the running database, once and
  -- in vain, and then called callbacks again. One that succeeds has called callbacks and then, as its
  -- last action, copied the candidate to the running database, once.
  pub commit_phase-Traced :
      (ddvec : List DepDiff) (tx : Tx S)
      → Traced tx
          (commit_phase plugins running candidate ddvec tx).0
          (commit_phase plugins running candidate ddvec tx).1
  unfolding commit_phase commit_in_order commit_deletes_first commit_calls undo_calls delete_calls
  commit_phase-Traced ddvec tx = elim (Bool-cases (plugins.commit_order == 0)) [
    | inl e ↦
        rw (e, commit_phase)
          (finish_run-Traced _
            (run_callbacks plugins (commit_calls plugins running candidate) ddvec [] tx) tx
            (reverting (undo_calls plugins running candidate))
            (running_calls (commit_calls plugins running candidate) ddvec tx))
    | inr e ↦
        rw (e, commit_phase)
          (set_after-Traced plugins.commit_order ddvec _ tx (
            running_calls (delete_calls plugins running candidate plugins.commit_order)
              (reverse ddvec) tx))
  ]
