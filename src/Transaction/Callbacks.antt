-- ===== src/Transaction/Callbacks.antt =====
-- The calls of plugins, and the loops over the commit vector: apps/config/config_commit.c and
-- config_plugin.c.
use clicon.Base.{ℕ, zero, suc, Bool, true, false, List, [], ◌∷◌, Option, none, some, if◌then◌else◌}
use clicon.Proto.Types.{CString}
use clicon.Backend.Types.{ErrState}
use clicon.Transaction.Types.{
  CommitOp, co_add, co_delete, co_change, DiffOp, op_first, op_second, op_both, DepDiff, Call, Hook,
  begin, complete, end, abort, did_call, did_hook, Plugins, Tx,
}

unfoldable pub dbdiff2commit_op : DiffOp → CommitOp
dbdiff2commit_op op_first = co_delete
dbdiff2commit_op op_both = co_change
dbdiff2commit_op op_second = co_add

-- The reverse operation.
unfoldable pub reverse_op : CommitOp → CommitOp
reverse_op co_add = co_delete
reverse_op co_delete = co_add
reverse_op co_change = co_change

-- `clicon_err_reset`.
abbrev pub no_error : ErrState
no_error = record { errno = 0; suberrno = 0; reason = [] }

abbrev pub last_error : Option ErrState → ErrState → ErrState
last_error none e = e
last_error (some e) _ = e

-- The arguments of `plugin_commit_callback` from an entry of the vector, forwards and back.
unfoldable pub forward_call : CString → CString → DepDiff → CommitOp → Call
forward_call running candidate dd op = record {
  callback = dd.dd_dep.dp_callback;
  op = op;
  source_db = running;
  target_db = candidate;
  source_key = dd.dd_mkey1;
  target_key = dd.dd_mkey2;
  source_vec = dd.dd_dbdiff.dfe_vec1;
  target_vec = dd.dd_dbdiff.dfe_vec2;
  arg = dd.dd_dep.dp_arg;
}

unfoldable pub backward_call : CString → CString → DepDiff → CommitOp → Call
backward_call running candidate dd op = record {
  callback = dd.dd_dep.dp_callback;
  op = op;
  source_db = candidate;
  target_db = running;
  source_key = dd.dd_mkey2;
  target_key = dd.dd_mkey1;
  source_vec = dd.dd_dbdiff.dfe_vec2;
  target_vec = dd.dd_dbdiff.dfe_vec1;
  arg = dd.dd_dep.dp_arg;
}

module _ {S : Type 0} (plugins : Plugins S) where
  unfoldable pub plugin_commit_callback : Call → Tx S → Tx S × Bool
  plugin_commit_callback call tx =
      let (s, out) = plugins.run_callback call tx.state in
      (
        record {
          state = s;
          err = last_error out.reported no_error;
          trace = did_call call ∷ tx.trace;
        },
        out.succeeded,
      )

  -- A loop over the entries that stops at the first callback that fails. `select` says which entries
  -- are skipped and what is called for the others. With the result come the entries before the one
  -- that failed, the last one first, and whether none failed.
  unfoldable pub run_callbacks :
      (DepDiff → Option Call) → List DepDiff → List DepDiff → Tx S → Tx S × List DepDiff × Bool
  unfolding plugin_commit_callback
  run_callbacks select [] done tx = (tx, done, true)
  run_callbacks select (dd ∷ rest) done tx = elim (select dd) [
    | none ↦ run_callbacks select rest (dd ∷ done) tx
    | some call ↦
        let (tx', succeeded) = plugin_commit_callback call tx in
        elim succeeded [
          | true ↦ run_callbacks select rest (dd ∷ done) tx'
          | false ↦ (tx', done, false)
        ]
  ]

  -- A loop of a rollback: an error is logged and the loop goes on.
  unfoldable pub revert_callbacks : (DepDiff → Option Call) → List DepDiff → Tx S → Tx S
  unfolding plugin_commit_callback
  revert_callbacks select [] tx = tx
  revert_callbacks select (dd ∷ rest) tx =
      revert_callbacks select rest
        (elim (select dd) [ none ↦ tx | some call ↦ (plugin_commit_callback call tx).0 ])

  unfoldable pub run_hook : Hook → ℕ → Tx S → Tx S × Bool
  run_hook hook i tx =
      let (s, out) = plugins.run_hook hook i tx.state in
      (
        record {
          state = s;
          err = last_error out.reported tx.err;
          trace = did_hook hook i ∷ tx.trace;
        },
        out.succeeded,
      )

  -- The plugins from number i on, n of them, up to the first that fails.
  unfoldable pub run_hooks : Hook → ℕ → ℕ → Tx S → Tx S × Bool
  unfolding run_hook
  run_hooks hook i zero tx = (tx, true)
  run_hooks hook i (suc n) tx = elim (plugins.has_hook hook i) [
    | false ↦ run_hooks hook (suc i) n tx
    | true ↦
        let (tx', succeeded) = run_hook hook i tx in
        elim succeeded [ true ↦ run_hooks hook (suc i) n tx' | false ↦ (tx', false) ]
  ]

  unfoldable pub plugin_begin_hooks : Tx S → Tx S × Bool
  unfolding run_hooks
  plugin_begin_hooks = run_hooks begin 0 plugins.nplugins

  unfoldable pub plugin_complete_hooks : Tx S → Tx S × Bool
  unfolding run_hooks
  plugin_complete_hooks = run_hooks complete 0 plugins.nplugins

  unfoldable pub plugin_end_hooks : Tx S → Tx S × Bool
  unfolding run_hooks
  plugin_end_hooks = run_hooks end 0 plugins.nplugins

  -- The abort hooks are all called, whatever they return.
  unfoldable pub abort_from : ℕ → ℕ → Tx S → Tx S
  unfolding run_hook
  abort_from i zero tx = tx
  abort_from i (suc n) tx =
      abort_from (suc i) n (if plugins.has_hook abort i then (run_hook abort i tx).0 else tx)

  unfoldable pub plugin_abort_hooks : Tx S → Tx S
  unfolding abort_from
  plugin_abort_hooks = abort_from 0 plugins.nplugins
