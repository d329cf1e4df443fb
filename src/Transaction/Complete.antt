-- ===== src/Transaction/Complete.antt =====
-- The calls of a commit that succeeds.
use clicon.Base.{
  arith, ℕ, ◌≡◌, refl, ap, ◌∙◌, Bool, true, false, List, [], ◌∷◌, Option, none, some, inl, inr,
  Bool-cases, ◌==◌, if◌then◌else◌,
}
use mathlib.Core.List.{reverse}
use clicon.Proto.Types.{CString}
use clicon.Transaction.Types.{
  CommitOp, co_add, co_delete, co_change, DiffOp, op_first, op_second, op_both, DepDiff, Call,
  Event, did_call, did_copy, Plugins, Tx,
}
use clicon.Transaction.Callbacks.{
  dbdiff2commit_op, forward_call, plugin_commit_callback, run_callbacks, revert_callbacks,
}
use clicon.Transaction.Loops.{run_skip, run_pass, run_stop, round_cases}
use clicon.Transaction.Commit.{
  deleting, setting, calls_of, commit_calls, delete_calls, set_calls, undo_calls, unset_calls,
  undelete_calls, finish_run, commit_in_order, set_after, commit_deletes_first, commit_phase,
}

-- The calls for all the entries, in their order, onto a trace.
unfoldable pub onto : (DepDiff → Option Call) → List DepDiff → List Event → List Event
onto select [] t = t
onto select (dd ∷ rest) t =
    onto select rest (elim (select dd) [ none ↦ t | some c ↦ did_call c ∷ t ])

-- The operations of a commit for a difference of the databases. With commit order 0 there is one round,
-- otherwise one of deletions and one of the others, and with order 2 a changed key is in both.
unfoldable pub one_round : DiffOp → Option CommitOp
one_round op_first = some co_delete
one_round op_second = some co_add
one_round op_both = some co_change

unfoldable pub first_round : ℕ → DiffOp → Option CommitOp
first_round order op_first = some co_delete
first_round order op_second = none
first_round order op_both = if order == 2 then some co_delete else none

unfoldable pub second_round : ℕ → DiffOp → Option CommitOp
second_round order op_first = none
second_round order op_second = some co_add
second_round order op_both = if order == 2 then some co_add else some co_change

-- The call for an entry, from the running database to the candidate, none for a dependency that is
-- not one of a commit.
unfoldable pub planned_call : CString → CString → (DiffOp → Option CommitOp) → DepDiff → Option Call
planned_call running candidate round dd =
    if dd.dd_dep.dp_commit
    then elim (round dd.dd_dbdiff.dfe_op) [
      | none ↦ none
      | some op ↦ some (record {
        callback = dd.dd_dep.dp_callback;
        op = op;
        source_db = running;
        target_db = candidate;
        source_key = dd.dd_mkey1;
        target_key = dd.dd_mkey2;
        source_vec = dd.dd_dbdiff.dfe_vec1;
        target_vec = dd.dd_dbdiff.dfe_vec2;
        arg = dd.dd_dep.dp_arg;
      })
    ]
    else none

onto-same :
    (select select' : DepDiff → Option Call)
    → ((dd : DepDiff) → select dd ≡ select' dd)
    → (dds : List DepDiff) (t : List Event) → onto select dds t ≡ onto select' dds t
unfolding onto
onto-same select select' same [] t = refl
onto-same select select' same (dd ∷ rest) t =
    rw (same dd, onto) (onto-same select select' same rest _)

calls_of-planned :
    (running candidate : CString) (operation : CommitOp → Option CommitOp)
    (round : DiffOp → Option CommitOp)
    → ((op : DiffOp) → operation (dbdiff2commit_op op) ≡ round op)
    → (dd : DepDiff)
    → calls_of (forward_call running candidate) operation dd
      ≡ planned_call running candidate round dd
unfolding calls_of forward_call planned_call
calls_of-planned running candidate operation round same dd =
    rw (same dd.dd_dbdiff.dfe_op, calls_of) refl

one_round-same : (op : DiffOp) → some (dbdiff2commit_op op) ≡ one_round op
unfolding dbdiff2commit_op one_round
one_round-same op_first = refl
one_round-same op_second = refl
one_round-same op_both = refl

first_round-same :
    (order : ℕ) (op : DiffOp) → deleting order (dbdiff2commit_op op) ≡ first_round order op
unfolding deleting dbdiff2commit_op first_round
first_round-same order op_first = refl
first_round-same order op_second = refl
first_round-same order op_both = refl

second_round-same :
    (order : ℕ) (op : DiffOp) → setting order (dbdiff2commit_op op) ≡ second_round order op
unfolding setting dbdiff2commit_op second_round
second_round-same order op_first = refl
second_round-same order op_second = refl
second_round-same order op_both = ground arith

module _ {S : Type 0} (plugins : Plugins S) where
  run-onto :
      (select : DepDiff → Option Call) (dds done : List DepDiff) (tx : Tx S)
      → (run_callbacks plugins select dds done tx).2 ≡ true
      → (run_callbacks plugins select dds done tx).0.trace ≡ onto select dds tx.trace
  unfolding run_callbacks onto plugin_commit_callback
  run-onto select [] done tx = λ ended. refl
  run-onto select (dd ∷ rest) done tx =
      round_cases plugins select dd tx _
        (λ skip.
          rw (run_skip plugins select dd rest done tx skip, skip)
            (run-onto select rest (dd ∷ done) tx))
        (λ c call good.
          rw (run_pass plugins select dd rest done tx c call good, call)
            (run-onto select rest (dd ∷ done) (plugin_commit_callback plugins c tx).0))
        (λ c call bad. rw (run_stop plugins select dd rest done tx c call bad) (λ e. cc))

  module _ (running candidate : CString) where
    -- What a commit in each order is meant to call.
    unfoldable pub planned : List DepDiff → List Event → List Event
    unfolding onto planned_call one_round first_round second_round
    planned ddvec t =
        let order = plugins.commit_order in
        if order == 0
        then onto (planned_call running candidate one_round) ddvec t
        else onto (planned_call running candidate (second_round order)) ddvec
            (onto (planned_call running candidate (first_round order)) (reverse ddvec) t)

    finish_run-ran :
        (revert : List DepDiff → Tx S → Tx S) (r : Tx S × List DepDiff × Bool)
        → (finish_run plugins running candidate revert r).1 ≡ true
        → (r.2 ≡ true)
          × ((finish_run plugins running candidate revert r).0.trace
              ≡ did_copy candidate running true ∷ r.0.trace)
    unfolding finish_run
    finish_run-ran revert (tx, done, false) = λ e. cc
    finish_run-ran revert (tx, done, true) =
        elim (Bool-cases (plugins.file_cp candidate running tx.state).1) [
          | inl made ↦ rw (made, finish_run) (λ e. (refl, refl))
          | inr lost ↦ rw (lost, finish_run) (λ e. cc)
        ]

    in_order-onto :
        (ddvec : List DepDiff) (tx : Tx S)
        → (commit_in_order plugins running candidate ddvec tx).1 ≡ true
        → (commit_in_order plugins running candidate ddvec tx).0.trace
          ≡ did_copy candidate running true
            ∷ onto (planned_call running candidate one_round) ddvec tx.trace
    unfolding commit_in_order commit_calls
    in_order-onto ddvec tx h =
        let select = commit_calls plugins running candidate in
        let ran =
          finish_run-ran (revert_callbacks plugins (undo_calls plugins running candidate))
            (run_callbacks plugins select ddvec [] tx) h in
        ran.1
        ∙ ap (λ t. did_copy candidate running true ∷ t)
            (run-onto select ddvec [] tx ran.0
              ∙ onto-same select _
                  (calls_of-planned running candidate some one_round one_round-same) ddvec tx.trace)

    set_after-onto :
        (order : ℕ) (ddvec : List DepDiff) (r : Tx S × List DepDiff × Bool)
        → (set_after plugins running candidate order ddvec r).1 ≡ true
        → (r.2 ≡ true)
          × ((set_after plugins running candidate order ddvec r).0.trace
              ≡ did_copy candidate running true
                ∷ onto (planned_call running candidate (second_round order)) ddvec r.0.trace)
    unfolding set_after set_calls
    set_after-onto order ddvec (tx, done, false) = λ e. cc
    set_after-onto order ddvec (tx, done, true) = λ h.
        let select = set_calls plugins running candidate order in
        let ran =
          finish_run-ran
            (λ set tx.
              revert_callbacks plugins (undelete_calls plugins running candidate order) ddvec
                (revert_callbacks plugins (unset_calls plugins running candidate order) set tx))
            (run_callbacks plugins select ddvec [] tx) h in
        (
          refl,
          ran.1
              ∙ ap (λ t. did_copy candidate running true ∷ t)
                  (run-onto select ddvec [] tx ran.0
                    ∙ onto-same select _
                        (calls_of-planned running candidate (setting order) (second_round order)
                          (second_round-same order))
                        ddvec tx.trace),
        )

    -- A commit phase that succeeds has called, before it copied the candidate to the running database,
    -- exactly the planned callbacks in the planned order. With commit order 0 that is the callback of
    -- every commit entry, in the order of the vector: a deletion for a key that only the running
    -- database has, an addition for one that only the candidate has, a change for one in both.
    -- Otherwise the deletions come first, from the last entry to the first, and then the additions and
    -- changes, from the first to the last; with order 2 a key in both is deleted and then added.
    pub commit_phase-planned :
        (ddvec : List DepDiff) (tx : Tx S)
        → (commit_phase plugins running candidate ddvec tx).1 ≡ true
        → (commit_phase plugins running candidate ddvec tx).0.trace
          ≡ did_copy candidate running true ∷ planned ddvec tx.trace
    unfolding commit_phase commit_deletes_first planned delete_calls
    commit_phase-planned ddvec tx = elim (Bool-cases (plugins.commit_order == 0)) [
      | inl e ↦ rw (e, commit_phase) (in_order-onto ddvec tx)
      | inr e ↦
          rw (e, commit_phase)
            (λ h.
              let select = delete_calls plugins running candidate plugins.commit_order in
              let ran =
                set_after-onto plugins.commit_order ddvec
                  (run_callbacks plugins select (reverse ddvec) [] tx) h in
              ran.1
              ∙ ap
                  (λ t.
                    did_copy candidate running true
                    ∷ onto (planned_call running candidate (second_round plugins.commit_order))
                        ddvec t)
                  (run-onto select (reverse ddvec) [] tx ran.0
                    ∙ onto-same select _
                        (calls_of-planned running candidate (deleting plugins.commit_order)
                          (first_round plugins.commit_order)
                          (first_round-same plugins.commit_order))
                        (reverse ddvec) tx.trace))
    ]
