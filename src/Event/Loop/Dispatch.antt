-- ===== src/Event/Loop/Dispatch.antt =====
-- The functions that one round calls.
use clicon.Base.{
  ℕ, ◌≡◌, refl, Bool, true, List, [], ◌∷◌, inl, inr, Bool-cases, ==_iff, if◌then◌else◌,
}
use clicon.Event.{FdEvent}
use clicon.Event.Loop.{Process, again, Host, call_fds}

module _ {W : Type 0} (host : Host W) (isset : ℕ → Bool) where
  -- Functions that succeed, set no exit flag and deregister nothing.
  pub record Quiet : Type 0 where
    pub succeeds : (fn fd arg : ℕ) (p : Process W) → (host.call fn fd arg p).1 ≡ true
    pub no_exit :
        (fn fd arg : ℕ) (p : Process W)
        → p.ev.clicon_exit ≡ 0
        → (host.call fn fd arg p).0.ev.clicon_exit ≡ 0
    pub no_unreg :
        (fn fd arg : ℕ) (p : Process W)
        → p.ev.ee_unreg ≡ 0
        → (host.call fn fd arg p).0.ev.ee_unreg ≡ 0

  -- The calls for the events that are ready, in the order of the list.
  unfoldable pub call_ready : List FdEvent → Process W → Process W
  call_ready [] p = p
  call_ready (e ∷ rest) p =
      call_ready rest (if isset e.e_fd then (host.call e.e_fn e.e_fd e.e_arg p).0 else p)

  -- With such functions, the loop over the descriptors calls the function of each event that is ready
  -- exactly once, in the order of the list, and the event loop goes on.
  pub call_fds-call_ready :
      (quiet : Quiet) (ee : List FdEvent) (p : Process W)
      → p.ev.clicon_exit ≡ 0
      → p.ev.ee_unreg ≡ 0
      → call_fds host isset ee p ≡ (call_ready ee p, again)
  unfolding call_fds call_ready
  call_fds-call_ready quiet [] p running kept = refl
  call_fds-call_ready quiet (e ∷ rest) p running kept =
      let go = (==_iff p.ev.clicon_exit 0).1 running in
      elim (Bool-cases (isset e.e_fd)) [
        | inr b ↦ rw (go, b, call_fds) (call_fds-call_ready quiet rest p running kept)
        | inl b ↦
            let good = quiet.succeeds e.e_fn e.e_fd e.e_arg p in
            let kept' = quiet.no_unreg e.e_fn e.e_fd e.e_arg p kept in
            let stay = (==_iff (host.call e.e_fn e.e_fd e.e_arg p).0.ev.ee_unreg 0).1 kept' in
            rw (go, b, good, stay, call_fds)
              (call_fds-call_ready quiet rest (host.call e.e_fn e.e_fd e.e_arg p).0
                (quiet.no_exit e.e_fn e.e_fd e.e_arg p running) kept')
      ]
