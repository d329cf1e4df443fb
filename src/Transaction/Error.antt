-- ===== src/Transaction/Error.antt =====
-- The error that a failed commit reports.
use clicon.Base.{◌≡◌, refl, ap, Bool, true, false, List, [], Option, none, some, ◌==◌, ==_iff}
use clicon.Proto.Types.{CString}
use clicon.Transaction.Types.{DepDiff, Plugins, Tx}
use clicon.Transaction.Callbacks.{run_callbacks, revert_callbacks}
use clicon.Transaction.Commit.{
  save_error, finish_run, commit_calls, undo_calls, commit_in_order, commit_phase, prepare,
  commit_prepared, copy_back, done_label, candidate_commit,
}

module _ {S : Type 0} (plugins : Plugins S) (running candidate : CString) where
  phase-first_error :
      (r : Tx S × List DepDiff × Bool)
      → plugins.save_memory ≡ true
      → r.2 ≡ false
      → (revert : List DepDiff → Tx S → Tx S)
      → ((done_label plugins running candidate
            (copy_back plugins running candidate (finish_run plugins running candidate revert r))).1
          ≡ false)
        × ((done_label plugins running candidate (
              copy_back plugins running candidate
                (finish_run plugins running candidate revert r))).0.err
            ≡ r.0.err)
  unfolding finish_run save_error done_label copy_back
  phase-first_error (tx, done, true) memory failed revert = absurd cc
  phase-first_error (tx, done, false) memory failed revert =
      rw (memory, finish_run, save_error) (refl, refl)

  prepared-first_error :
      (p : Tx S × Option (List DepDiff)) (ddvec : List DepDiff)
      → plugins.save_memory ≡ true
      → plugins.commit_order ≡ 0
      → p.1 ≡ some ddvec
      → (run_callbacks plugins (commit_calls plugins running candidate) ddvec [] p.0).2 ≡ false
      → ((done_label plugins running candidate (commit_prepared plugins running candidate p)).1
          ≡ false)
        × ((done_label plugins running candidate
              (commit_prepared plugins running candidate p)).0.err
            ≡ (run_callbacks plugins (commit_calls plugins running candidate) ddvec [] p.0).0.err)
  unfolding commit_prepared commit_phase commit_in_order
  prepared-first_error (tx, none) ddvec memory order prepared failed = absurd cc
  prepared-first_error (tx, some ddvec') ddvec memory order prepared failed =
      let same : ddvec' ≡ ddvec = ap (λ o. (elim o [ none ↦ ddvec' | some d ↦ d ])) prepared in
      let in_order : (plugins.commit_order == 0) ≡ true = (==_iff plugins.commit_order 0).1 order in
      rw (same, in_order, commit_prepared, commit_phase)
        (phase-first_error
          (run_callbacks plugins (commit_calls plugins running candidate) ddvec [] tx) memory failed
          (revert_callbacks plugins (undo_calls plugins running candidate)))

  -- A commit of order 0 in which a callback fails ends with the error of that callback, whatever the
  -- callbacks of the rollback and the abort hooks reporting after it, where there is memory to save it.
  pub candidate_commit-first_error :
      (tx : Tx S) (ddvec : List DepDiff)
      → plugins.save_memory ≡ true
      → plugins.commit_order ≡ 0
      → (prepare plugins running candidate tx).1 ≡ some ddvec
      → (run_callbacks plugins
          (commit_calls plugins running candidate)
          ddvec
          []
          (prepare plugins running candidate tx).0).2
        ≡ false
      → ((candidate_commit plugins running candidate tx).1 ≡ false)
        × ((candidate_commit plugins running candidate tx).0.err
            ≡ (run_callbacks plugins
                (commit_calls plugins running candidate)
                ddvec
                []
                (prepare plugins running candidate tx).0).0.err)
  unfolding candidate_commit
  candidate_commit-first_error tx ddvec memory order prepared failed =
      prepared-first_error (prepare plugins running candidate tx) ddvec memory order prepared failed
