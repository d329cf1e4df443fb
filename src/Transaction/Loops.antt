-- ===== src/Transaction/Loops.antt =====
-- The rounds of the loops in Transaction/Callbacks.
use clicon.Base.{
  ◌≡◌, refl, true, false, List, [], ◌∷◌, Option, none, some, inl, inr, Bool-cases, Option-cases,
}
use mathlib.Core.List.{reverse_aux}
use clicon.Transaction.Types.{DepDiff, Call, Plugins, Tx}
use clicon.Transaction.Callbacks.{plugin_commit_callback, run_callbacks}

module _ {S : Type 0} (plugins : Plugins S) where
  module _ (select : DepDiff → Option Call) (dd : DepDiff) (rest done : List DepDiff)
      (tx : Tx S) where
    pub run_skip :
        select dd ≡ none
        → run_callbacks plugins select (dd ∷ rest) done tx
          ≡ run_callbacks plugins select rest (dd ∷ done) tx
    unfolding run_callbacks
    run_skip skip = rw (skip, run_callbacks) refl

    pub run_pass :
        (c : Call)
        → select dd ≡ some c
        → (plugins.run_callback c tx.state).1.succeeded ≡ true
        → run_callbacks plugins select (dd ∷ rest) done tx
          ≡ run_callbacks plugins select rest (dd ∷ done) (plugin_commit_callback plugins c tx).0
    unfolding run_callbacks
    run_pass c call good = rw (call, good, run_callbacks) refl

    pub run_stop :
        (c : Call)
        → select dd ≡ some c
        → (plugins.run_callback c tx.state).1.succeeded ≡ false
        → run_callbacks plugins select (dd ∷ rest) done tx
          ≡ ((plugin_commit_callback plugins c tx).0, done, false)
    unfolding run_callbacks
    run_stop c call bad = rw (call, bad, run_callbacks) refl

  -- What a round does: it skips the entry, or its callback succeeds, or fails.
  pub round_cases :
      (select : DepDiff → Option Call) (dd : DepDiff) (tx : Tx S) (P : Type 0)
      → (select dd ≡ none → P)
      → ((c : Call) → select dd ≡ some c → (plugins.run_callback c tx.state).1.succeeded ≡ true → P)
      → ((c : Call)
          → select dd ≡ some c
          → (plugins.run_callback c tx.state).1.succeeded ≡ false
          → P)
      → P
  round_cases select dd tx P skip pass stop = elim (Option-cases (select dd)) [
    | inl e ↦ skip e
    | inr (c, e) ↦ elim (Bool-cases (plugins.run_callback c tx.state).1.succeeded) [
      | inl good ↦ pass c e good
      | inr bad ↦ stop c e bad
    ]
  ]

  -- A loop that ends has passed all entries.
  pub run_passed :
      (select : DepDiff → Option Call) (dds done : List DepDiff) (tx : Tx S)
      → (run_callbacks plugins select dds done tx).2 ≡ true
      → (run_callbacks plugins select dds done tx).1 ≡ reverse_aux dds done
  unfolding run_callbacks
  run_passed select [] done tx = λ ended. refl
  run_passed select (dd ∷ rest) done tx =
      round_cases select dd tx _
        (λ skip. rw (run_skip select dd rest done tx skip) (run_passed select rest (dd ∷ done) tx))
        (λ c call good.
          rw (run_pass select dd rest done tx c call good)
            (run_passed select rest (dd ∷ done) (plugin_commit_callback plugins c tx).0))
        (λ c call bad. rw (run_stop select dd rest done tx c call bad) (λ e. cc))
