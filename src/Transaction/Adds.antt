-- ===== src/Transaction/Adds.antt =====
-- Events that a part of a transaction adds to the trace.
use clicon.Base.{
  ◌≡◌, refl, sym, ap, ◌∙◌, List, [], ◌∷◌, ◌++◌, Option, some, All, inl, inr, Option-cases,
  append_assoc,
}
use clicon.Transaction.Types.{DepDiff, Call, Event, did_call, Plugins, Tx}
use clicon.Transaction.Callbacks.{plugin_commit_callback, run_callbacks, revert_callbacks}
use clicon.Transaction.Loops.{run_skip, run_pass, run_stop, round_cases}

-- From `tx` on only events with a property were added.
pub record Adds {S : Type 0} (P : Event → Type 0) (tx tx' : Tx S) : Type 0 where
  pub new : List Event
  pub extended : tx'.trace ≡ new ++ tx.trace
  pub all_new : All P new

All-append : {A : Type 0} (P : A → Type 0) (xs ys : List A) → All P xs → All P ys → All P (xs ++ ys)
All-append P [] ys hx hy = hy
All-append P (x ∷ xs) ys (h, hx) hy = (h, All-append P xs ys hx hy)

module _ {S : Type 0} (plugins : Plugins S) (P : Event → Type 0) where
  pub Adds-refl : (tx : Tx S) → Adds P tx tx
  Adds-refl tx = record { new = []; extended = refl; all_new = tt }

  pub Adds-trans : (a b c : Tx S) → Adds P a b → Adds P b c → Adds P a c
  Adds-trans a b c ab bc = record {
    new = bc.new ++ ab.new;
    extended =
        bc.extended ∙ ap (λ t. bc.new ++ t) ab.extended ∙ sym (append_assoc bc.new ab.new a.trace);
    all_new = All-append P bc.new ab.new bc.all_new ab.all_new;
  }

  -- Every call that a loop may make has the property.
  abbrev pub Allowed : (DepDiff → Option Call) → Type 0
  Allowed select = (dd : DepDiff) (c : Call) → select dd ≡ some c → P (did_call c)

  callback-Adds :
      (c : Call) (tx : Tx S) → P (did_call c) → Adds P tx (plugin_commit_callback plugins c tx).0
  unfolding plugin_commit_callback
  callback-Adds c tx p = record { new = did_call c ∷ []; extended = refl; all_new = (p, tt) }

  pub run_callbacks-Adds :
      (select : DepDiff → Option Call)
      → Allowed select
      → (dds done : List DepDiff) (tx : Tx S)
      → Adds P tx (run_callbacks plugins select dds done tx).0
  unfolding run_callbacks
  run_callbacks-Adds select allowed [] done tx = Adds-refl tx
  run_callbacks-Adds select allowed (dd ∷ rest) done tx =
      round_cases plugins select dd tx _
        (λ skip.
          rw (run_skip plugins select dd rest done tx skip)
            (run_callbacks-Adds select allowed rest (dd ∷ done) tx))
        (λ c call good. rw (run_pass plugins select dd rest done tx c call good) (
          Adds-trans _ _ _ (callback-Adds c tx (allowed dd c call)) (
            run_callbacks-Adds select allowed rest (dd ∷ done)
              (plugin_commit_callback plugins c tx).0)))
        (λ c call bad.
          rw (run_stop plugins select dd rest done tx c call bad)
            (callback-Adds c tx (allowed dd c call)))

  pub revert_callbacks-Adds :
      (select : DepDiff → Option Call)
      → Allowed select
      → (dds : List DepDiff) (tx : Tx S) → Adds P tx (revert_callbacks plugins select dds tx)
  unfolding revert_callbacks
  revert_callbacks-Adds select allowed [] tx = Adds-refl tx
  revert_callbacks-Adds select allowed (dd ∷ rest) tx = elim (Option-cases (select dd)) [
    | inl skip ↦ rw (skip, revert_callbacks) (revert_callbacks-Adds select allowed rest tx)
    | inr (c, call) ↦
        rw (call, revert_callbacks)
          (Adds-trans _ _ _ (callback-Adds c tx (allowed dd c call))
            (revert_callbacks-Adds select allowed rest (plugin_commit_callback plugins c tx).0))
  ]
