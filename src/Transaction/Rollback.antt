-- ===== src/Transaction/Rollback.antt =====
-- A commit that fails and plugins that can undo what they did.
use clicon.Base.{
  ℕ, ◌≡◌, ◌⊎◌, refl, sym, ap, ◌∙◌, Bool, true, false, List, [], ◌∷◌, Option, none, some, arith, inl,
  inr, Bool-cases, Option-cases,
}
use mathlib.Core.List.{reverse, reverse-reverse}
use clicon.Proto.Types.{CString}
use clicon.Transaction.Types.{CommitOp, DepDiff, Call, Plugins, Tx}
use clicon.Transaction.Callbacks.{
  reverse_op, forward_call, backward_call, plugin_commit_callback, run_callbacks, revert_callbacks,
}
use clicon.Transaction.Loops.{run_skip, run_pass, run_stop, round_cases, run_passed}
use clicon.Transaction.Commit.{
  deleting, setting, calls_of, reversing, commit_calls, undo_calls, delete_calls, set_calls,
  unset_calls, undelete_calls, finish_run, commit_in_order, set_after, commit_deletes_first,
}

-- The call that takes a call back.
unfoldable pub reverse_call : Call → Call
unfolding reverse_op
reverse_call c = record {
  callback = c.callback;
  op = reverse_op c.op;
  source_db = c.target_db;
  target_db = c.source_db;
  source_key = c.target_key;
  target_key = c.source_key;
  source_vec = c.target_vec;
  target_vec = c.source_vec;
  arg = c.arg;
}

-- Plugins that keep their side: the reverse of a call that succeeded brings the state back, and a call
-- that fails changes nothing.
pub record Reversible {S : Type 0} (plugins : Plugins S) : Type 0 where
  pub undone :
      (c : Call) (s : S)
      → (plugins.run_callback c s).1.succeeded ≡ true
      → (plugins.run_callback (reverse_call c) (plugins.run_callback c s).0).0 ≡ s
  pub refused :
      (c : Call) (s : S)
      → (plugins.run_callback c s).1.succeeded ≡ false
      → (plugins.run_callback c s).0 ≡ s

abbrev reversed_call : Option Call → Option Call
reversed_call none = none
reversed_call (some c) = some (reverse_call c)

-- One loop takes back what the other calls.
abbrev pub Undoes : (DepDiff → Option Call) → (DepDiff → Option Call) → Type 0
Undoes undo select = (dd : DepDiff) → undo dd ≡ reversed_call (select dd)

calls_of-Undoes :
    (running candidate : CString) (operation : CommitOp → Option CommitOp) (dd : DepDiff)
    → calls_of (backward_call running candidate) (reversing operation) dd
      ≡ reversed_call (calls_of (forward_call running candidate) operation dd)
unfolding calls_of forward_call backward_call reverse_call
calls_of-Undoes running candidate operation dd = ground arith

-- After the last loop: no callback failed, and the copy to the running database does.
abbrev pub CopyFailed :
    {S : Type 0} → Plugins S → CString → CString → Tx S × List DepDiff × Bool → Type 0
CopyFailed plugins running candidate r =
    (r.2 ≡ true) × ((plugins.file_cp candidate running r.0.state).1 ≡ false)

module _ {S : Type 0} (plugins : Plugins S) (kept : Reversible plugins) where
  abbrev revert_one : Option Call → S → S
  revert_one none s = s
  revert_one (some c) s = (plugins.run_callback c s).0

  revert_state : (DepDiff → Option Call) → List DepDiff → S → S
  revert_state select [] s = s
  revert_state select (dd ∷ rest) s = revert_state select rest (revert_one (select dd) s)

  revert-state :
      (select : DepDiff → Option Call) (dds : List DepDiff) (tx : Tx S)
      → (revert_callbacks plugins select dds tx).state ≡ revert_state select dds tx.state
  unfolding revert_callbacks revert_state
  revert-state select [] tx = refl
  revert-state select (dd ∷ rest) tx = elim (Option-cases (select dd)) [
    | inl skip ↦ rw (skip, revert_callbacks) (revert-state select rest tx)
    | inr (c, call) ↦
        rw (call, revert_callbacks)
          (revert-state select rest (plugin_commit_callback plugins c tx).0)
  ]

  one_back :
      (undo : DepDiff → Option Call) (dd : DepDiff) (done : List DepDiff) (c : Call) (tx : Tx S)
      → undo dd ≡ some (reverse_call c)
      → (plugins.run_callback c tx.state).1.succeeded ≡ true
      → revert_state undo (dd ∷ done) (plugin_commit_callback plugins c tx).0.state
        ≡ revert_state undo done tx.state
  unfolding revert_state plugin_commit_callback
  one_back undo dd done c tx back good = rw (back, kept.undone c tx.state good) refl

  stopped :
      (undo : DepDiff → Option Call) (done : List DepDiff) (c : Call) (tx : Tx S)
      → (plugins.run_callback c tx.state).1.succeeded ≡ false
      → revert_state undo done (plugin_commit_callback plugins c tx).0.state
        ≡ revert_state undo done tx.state
  unfolding plugin_commit_callback
  stopped undo done c tx bad = ap (revert_state undo done) (kept.refused c tx.state bad)

  run-revert :
      (undo select : DepDiff → Option Call)
      → Undoes undo select
      → (dds done : List DepDiff) (tx : Tx S)
      → revert_state undo
          (run_callbacks plugins select dds done tx).1
          (run_callbacks plugins select dds done tx).0.state
        ≡ revert_state undo done tx.state
  unfolding run_callbacks revert_state
  run-revert undo select inverse [] done tx = refl
  run-revert undo select inverse (dd ∷ rest) done tx =
      let ih = run-revert undo select inverse rest (dd ∷ done) in
      round_cases plugins select dd tx _
        (λ skip.
          let nothing : undo dd ≡ none = rw (inverse dd, skip) refl in
          rw (run_skip plugins select dd rest done tx skip, ih tx, nothing) refl)
        (λ c call good.
          let back : undo dd ≡ some (reverse_call c) = rw (inverse dd, call) refl in
          rw (run_pass plugins select dd rest done tx c call good)
            (ih (plugin_commit_callback plugins c tx).0 ∙ one_back undo dd done c tx back good))
        (λ c call bad.
          rw (run_stop plugins select dd rest done tx c call bad) (stopped undo done c tx bad))

  module _ (running candidate : CString) where
    finish_run-restored :
        (revert : List DepDiff → Tx S → Tx S) (r : Tx S × List DepDiff × Bool) (s : S)
        → ((tx : Tx S) → tx.state ≡ r.0.state → (revert r.1 tx).state ≡ s)
        → (finish_run plugins running candidate revert r).1 ≡ false
        → ((finish_run plugins running candidate revert r).0.state ≡ s)
          ⊎ CopyFailed plugins running candidate r
    unfolding finish_run
    finish_run-restored revert (tx, done, false) s h = λ e. inl (h tx refl)
    finish_run-restored revert (tx, done, true) s h =
        elim (Bool-cases (plugins.file_cp candidate running tx.state).1) [
          | inl made ↦ rw (made, finish_run) (λ e. cc)
          | inr lost ↦ λ e. inr (refl, lost)
        ]

    -- With commit order 0, a commit phase that fails leaves everything as it found it, unless no
    -- callback failed and it is the copy to the running database that did, where the plugins can take
    -- back what they did and a callback that fails changes nothing.
    pub commit_in_order-restored :
        (ddvec : List DepDiff) (tx : Tx S)
        → (commit_in_order plugins running candidate ddvec tx).1 ≡ false
        → ((commit_in_order plugins running candidate ddvec tx).0.state ≡ tx.state)
          ⊎ CopyFailed plugins running candidate
              (run_callbacks plugins (commit_calls plugins running candidate) ddvec [] tx)
    unfolding commit_in_order commit_calls undo_calls revert_state
    commit_in_order-restored ddvec tx =
        let undo = undo_calls plugins running candidate in
        let select = commit_calls plugins running candidate in
        finish_run-restored (revert_callbacks plugins undo)
          (run_callbacks plugins select ddvec [] tx) tx.state
          λ tx' same.
            revert-state undo (run_callbacks plugins select ddvec [] tx).1 tx'
            ∙ ap (revert_state undo (run_callbacks plugins select ddvec [] tx).1) same
            ∙ run-revert undo select (calls_of-Undoes running candidate some) ddvec [] tx

    set_after-restored :
        (order : ℕ) (ddvec : List DepDiff) (r : Tx S × List DepDiff × Bool) (s : S)
        → revert_state (undelete_calls plugins running candidate order) ddvec r.0.state ≡ s
        → r.2 ≡ true
        → (set_after plugins running candidate order ddvec r).1 ≡ false
        → ((set_after plugins running candidate order ddvec r).0.state ≡ s)
          ⊎ CopyFailed plugins running candidate
              (run_callbacks plugins (set_calls plugins running candidate order) ddvec [] r.0)
    unfolding set_after set_calls unset_calls revert_state
    set_after-restored order ddvec (tx, done, false) s back = λ e. cc
    set_after-restored order ddvec (tx, done, true) s back = λ e.
        let unset = unset_calls plugins running candidate order in
        let undelete = undelete_calls plugins running candidate order in
        let select = set_calls plugins running candidate order in
        let r = run_callbacks plugins select ddvec [] tx in
        finish_run-restored
          (λ set tx.
            revert_callbacks plugins undelete ddvec (revert_callbacks plugins unset set tx))
          r s
          λ tx' same.
            revert-state undelete ddvec (revert_callbacks plugins unset r.1 tx')
            ∙ ap (revert_state undelete ddvec) (
                revert-state unset r.1 tx'
                ∙ ap (revert_state unset r.1) same
                ∙ run-revert unset select (calls_of-Undoes running candidate (setting order)) ddvec
                    [] tx)
            ∙ back

    -- With commit order 1 or 2, a commit phase in which every deletion succeeded and that fails later
    -- leaves everything as it found it, unless no callback failed and it is the copy to the running
    -- database that did, where the plugins can take back what they did and a callback that fails
    -- changes nothing.
    pub commit_deletes_first-restored :
        (order : ℕ) (ddvec : List DepDiff) (tx : Tx S)
        → (run_callbacks plugins
            (delete_calls plugins running candidate order)
            (reverse ddvec)
            []
            tx).2
          ≡ true
        → (commit_deletes_first plugins running candidate order ddvec tx).1 ≡ false
        → ((commit_deletes_first plugins running candidate order ddvec tx).0.state ≡ tx.state)
          ⊎ CopyFailed plugins running candidate (
              run_callbacks plugins
                (set_calls plugins running candidate order)
                ddvec
                []
                (run_callbacks plugins
                  (delete_calls plugins running candidate order)
                  (reverse ddvec)
                  []
                  tx).0)
    unfolding commit_deletes_first delete_calls undelete_calls revert_state
    commit_deletes_first-restored order ddvec tx deleted =
        let undelete = undelete_calls plugins running candidate order in
        let select = delete_calls plugins running candidate order in
        let r = run_callbacks plugins select (reverse ddvec) [] tx in
        let passed : r.1 ≡ ddvec =
          run_passed plugins select (reverse ddvec) [] tx deleted ∙ reverse-reverse ddvec in
        let back =
          ap (λ done. revert_state undelete done r.0.state) (sym passed)
          ∙ run-revert undelete select (calls_of-Undoes running candidate (deleting order))
              (reverse ddvec) [] tx in
        set_after-restored order ddvec r tx.state back deleted
