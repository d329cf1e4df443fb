-- ===== src/Transaction/Tests.antt =====
-- A commit with three dependencies, and keys of a small database.
use clicon.Base.{
  ℕ, zero, suc, ◌≡◌, ◌⊎◌, refl, Bool, true, false, List, [], ◌∷◌, none, some, ◌==◌, if◌then◌else◌,
}
use mathlib.Core.List.{reverse}
use clicon.Proto.Types.{CString}
use clicon.Backend.Types.{ErrState}
use clicon.Transaction.Types.{
  CommitOp, co_add, co_delete, co_change, op_first, op_second, DiffEnt, Dep, DepDiff, Call, Outcome,
  did_copy, Plugins, Tx,
}
use clicon.Transaction.Callbacks.{reverse_op, run_callbacks, dbdiff2commit_op, forward_call}
use clicon.Transaction.Callbacks.{plugin_begin_hooks, plugin_complete_hooks}
use clicon.Transaction.Match.{dbdep_match}
use clicon.Transaction.Vector.{diff_key}
use clicon.Transaction.Commit.{
  commit_in_order, commit_deletes_first, commit_phase, commit_calls, delete_calls, set_calls,
  prepare, candidate_commit,
}
use clicon.Transaction.Rollback.{
  Reversible, CopyFailed, reverse_call, commit_in_order-restored, commit_deletes_first-restored,
}
use clicon.Transaction.Adds.{Adds}
use clicon.Transaction.Trace.{
  IsDeletion, Traced, commit_deletes_first-only_deletes, commit_phase-Traced,
}
use clicon.Transaction.Complete.{planned, commit_phase-planned}
use clicon.Transaction.Error.{candidate_commit-first_error}

-- Plugins that count: an addition counts up, a deletion down and fails at zero. Function 9 always
-- fails.
abbrev count_up : ℕ → ℕ × Outcome
count_up s = (suc s, record { succeeded = true; reported = none })

abbrev oops : ErrState
oops = record { errno = 11; suberrno = 7; reason = 111 ∷ [] }

abbrev failing : ℕ → ℕ × Outcome
failing s = (s, record { succeeded = false; reported = some oops })

abbrev count_down : ℕ → ℕ × Outcome
count_down zero = failing zero
count_down (suc s) = (s, record { succeeded = true; reported = none })

abbrev by_operation : CommitOp → ℕ → ℕ × Outcome
by_operation co_add s = count_up s
by_operation co_delete s = count_down s
by_operation co_change s = (s, record { succeeded = true; reported = none })

abbrev counting : Call → ℕ → ℕ × Outcome
counting c s = if c.callback == 9 then failing s else by_operation c.op s

abbrev key : ℕ → DiffEnt
key c = record {
  dfe_vec1 = none;
  dfe_vec2 = some (record { vec_name = some (97 ∷ c ∷ []); vec_content = [] });
  dfe_op = op_second;
}

abbrev gone : ℕ → DiffEnt
gone c = record {
  dfe_vec1 = some (record { vec_name = some (97 ∷ c ∷ []); vec_content = [] });
  dfe_vec2 = none;
  dfe_op = op_first;
}

abbrev dependency : ℕ → ℕ → Dep
dependency nr callback = record {
  dp_nr = nr;
  dp_row = 0;
  dp_tree = false;
  dp_validate = false;
  dp_commit = true;
  dp_callback = callback;
  dp_arg = 0;
  dp_ent = (97 ∷ 42 ∷ []) ∷ [];
}

abbrev entry : DiffEnt → ℕ → DepDiff
entry df callback = record {
  dd_dep = dependency callback callback;
  dd_dbdiff = df;
  dd_mkey1 = none;
  dd_mkey2 = none;
}

abbrev counters : ℕ → List Dep → Plugins ℕ
counters order registered = record {
  nplugins = 0;
  has_hook = λ hook i. false;
  run_hook = λ hook i s. (s, record { succeeded = true; reported = none });
  run_callback = counting;
  exists = λ db s. true;
  file_cp = λ from to s. (s, true);
  db_diff = λ a b s. (some (key 98 ∷ key 99 ∷ []), none);
  deps = registered;
  qsort = λ ddvec. ddvec;
  strdup_error = oops;
  generic_validate = λ db df s. (s, record { succeeded = true; reported = none });
  commit_order = order;
  save_memory = true;
  stat_error = λ db s. oops;
  copy_error = λ s. oops;
}

abbrev start : ℕ → Tx ℕ
start s = record { state = s; err = record { errno = 0; suberrno = 0; reason = [] }; trace = [] }

counters-undone :
    (callback : Bool) (op : CommitOp) (s : ℕ)
    → (if callback then failing s else by_operation op s).1.succeeded ≡ true
    → (if callback
        then failing (if callback then failing s else by_operation op s).0
        else by_operation (reverse_op op) (if callback then failing s else by_operation op s).0).0
      ≡ s
unfolding reverse_op
counters-undone true op s h = cc
counters-undone false co_add s h = refl
counters-undone false co_delete zero h = cc
counters-undone false co_delete (suc s) h = refl
counters-undone false co_change s h = refl

counters-refused :
    (callback : Bool) (op : CommitOp) (s : ℕ)
    → (if callback then failing s else by_operation op s).1.succeeded ≡ false
    → (if callback then failing s else by_operation op s).0 ≡ s
counters-refused true op s h = refl
counters-refused false co_add s h = cc
counters-refused false co_delete zero h = refl
counters-refused false co_delete (suc s) h = cc
counters-refused false co_change s h = cc

counters-Reversible : (order : ℕ) (registered : List Dep) → Reversible (counters order registered)
unfolding reverse_call
counters-Reversible order registered = record {
  undone = λ c s. counters-undone (c.callback == 9) c.op s;
  refused = λ c s. counters-refused (c.callback == 9) c.op s;
}

abbrev running : CString
running = 114 ∷ []

abbrev candidate : CString
candidate = 99 ∷ []

-- Two additions, and then a callback that fails.
abbrev additions : List DepDiff
additions = entry (key 98) 1 ∷ entry (key 99) 2 ∷ entry (key 100) 9 ∷ []

commit_in_order-restored_example :
    ((commit_in_order (counters 0 []) running candidate additions (start 5)).0.state ≡ 5)
    ⊎ CopyFailed (counters 0 []) running candidate (
        run_callbacks
          (counters 0 [])
          (commit_calls (counters 0 []) running candidate)
          additions
          []
          (start 5))
unfolding commit_in_order commit_calls run_callbacks forward_call dbdiff2commit_op
commit_in_order-restored_example =
    commit_in_order-restored (counters 0 []) (counters-Reversible 0 []) running candidate additions
      (start 5) refl

-- A deletion and a failing addition.
abbrev both_kinds : List DepDiff
both_kinds = entry (gone 98) 1 ∷ entry (key 99) 2 ∷ entry (key 100) 9 ∷ []

commit_deletes_first-restored_example :
    ((commit_deletes_first (counters 1 []) running candidate 1 both_kinds (start 5)).0.state ≡ 5)
    ⊎ CopyFailed (counters 1 []) running candidate (
        run_callbacks
          (counters 1 [])
          (set_calls (counters 1 []) running candidate 1)
          both_kinds
          []
          (run_callbacks
            (counters 1 [])
            (delete_calls (counters 1 []) running candidate 1)
            (reverse both_kinds)
            []
            (start 5)).0)
unfolding commit_deletes_first delete_calls run_callbacks dbdiff2commit_op forward_call
commit_deletes_first-restored_example =
    commit_deletes_first-restored (counters 1 []) (counters-Reversible 1 []) running candidate 1
      both_kinds (start 5) refl refl

-- Two deletions, of which the second fails.
abbrev deletions : List DepDiff
deletions = entry (gone 98) 9 ∷ entry (gone 99) 1 ∷ []

commit_deletes_first-only_deletes_example :
    Adds IsDeletion
      (start 5)
      (commit_deletes_first (counters 1 []) running candidate 1 deletions (start 5)).0
unfolding commit_deletes_first delete_calls run_callbacks dbdiff2commit_op forward_call
commit_deletes_first-only_deletes_example =
    commit_deletes_first-only_deletes (counters 1 []) running candidate 1 deletions (start 5) refl

commit_phase-Traced_example :
    Traced
      (counters 1 [])
      running
      candidate
      (start 5)
      (commit_phase (counters 1 []) running candidate both_kinds (start 5)).0
      (commit_phase (counters 1 []) running candidate both_kinds (start 5)).1
commit_phase-Traced_example =
    commit_phase-Traced (counters 1 []) running candidate both_kinds (start 5)

abbrev good_kinds : List DepDiff
good_kinds = entry (gone 98) 1 ∷ entry (key 99) 2 ∷ entry (gone 100) 3 ∷ []

commit_phase-planned_example :
    (commit_phase (counters 2 []) running candidate good_kinds (start 5)).0.trace
    ≡ did_copy candidate running true ∷ planned (counters 2 []) running candidate good_kinds []
unfolding commit_phase run_callbacks dbdiff2commit_op forward_call
commit_phase-planned_example =
    commit_phase-planned (counters 2 []) running candidate good_kinds (start 5) refl

-- Two differences that a dependency of function 9 matches.
abbrev failing_counters : Plugins ℕ
failing_counters = counters 0 (dependency 0 9 ∷ [])

abbrev matched : ℕ → DepDiff
matched c = record {
  dd_dep = dependency 0 9;
  dd_dbdiff = key c;
  dd_mkey1 = none;
  dd_mkey2 = some (97 ∷ c ∷ []);
}

abbrev matched_vector : List DepDiff
matched_vector = matched 98 ∷ matched 99 ∷ []

candidate_commit-first_error_example :
    ((candidate_commit failing_counters running candidate (start 5)).1 ≡ false)
    × ((candidate_commit failing_counters running candidate (start 5)).0.err
        ≡ (run_callbacks failing_counters
            (commit_calls failing_counters running candidate)
            matched_vector
            []
            (prepare failing_counters running candidate (start 5)).0).0.err)
unfolding prepare commit_calls diff_key dbdep_match plugin_begin_hooks run_callbacks
    plugin_complete_hooks forward_call
candidate_commit-first_error_example =
    candidate_commit-first_error failing_counters running candidate (start 5) matched_vector refl
      refl refl refl
