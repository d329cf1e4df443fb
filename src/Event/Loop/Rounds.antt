-- ===== src/Event/Loop/Rounds.antt =====
-- The lists of events while the loop runs.
use clicon.Base.{
  ℕ, zero, suc, Bool, true, false, List, [], ◌∷◌, Option, some, inl, inr, Bool-cases, ◌==◌, map,
}
use clicon.Event.{FdEvent, Timer, Timeval}
use clicon.Event.Timers.{Sorted}
use clicon.Event.Registry.{Steps, Steps-Sorted}
use clicon.Event.Loop.{
  Process, Selected, interrupted, failed, timed_out, ready, Next, again, return_0, return_minus_1,
  Host, call_fds, poll_fds, fire_timer, after_select, event_round, event_loop, timeout,
}

-- A host whose functions, and signal handlers, change the lists of events only by the calls that this
-- file offers.
pub record Stepping {W : Type 0} (host : Host W) : Type 0 where
  pub call_steps : (fn fd arg : ℕ) (p : Process W) → Steps p.ev (host.call fn fd arg p).0.ev
  pub select_steps :
      (t : Option Timeval) (fds : List ℕ) (p : Process W) → Steps p.ev (host.select t fds p).0.ev

module _ {W : Type 0} (host : Host W) where
  module _ (stepping : Stepping host) where
    abbrev Ordered : Process W → Type 0
    Ordered p = Sorted p.ev.ee_timers

    call-Sorted : (fn fd arg : ℕ) (p : Process W) → Ordered p → Ordered (host.call fn fd arg p).0
    call-Sorted fn fd arg p = Steps-Sorted p.ev _ (stepping.call_steps fn fd arg p)

    call_fds-Sorted :
        (isset : ℕ → Bool) (ee : List FdEvent) (p : Process W)
        → Ordered p
        → Ordered (call_fds host isset ee p).0
    unfolding call_fds
    call_fds-Sorted isset [] p sorted = sorted
    call_fds-Sorted isset (e ∷ rest) p sorted =
        let called = call-Sorted e.e_fn e.e_fd e.e_arg p sorted in
        let p' = (host.call e.e_fn e.e_fd e.e_arg p).0 in
        elim (Bool-cases (p.ev.clicon_exit == 0)) [
          | inr x ↦ rw (x, call_fds) sorted
          | inl x ↦ elim (Bool-cases (isset e.e_fd)) [
            | inr b ↦ rw (x, b, call_fds) (call_fds-Sorted isset rest p sorted)
            | inl b ↦ elim (Bool-cases (host.call e.e_fn e.e_fd e.e_arg p).1) [
              | inr g ↦ rw (x, b, g, call_fds) called
              | inl g ↦ elim (Bool-cases (p'.ev.ee_unreg == 0)) [
                | inr u ↦ rw (x, b, g, u, call_fds) called
                | inl u ↦ rw (x, b, g, u, call_fds) (call_fds-Sorted isset rest p' called)
              ]
            ]
          ]
        ]

    poll-Sorted : (isset : ℕ → Bool) (p : Process W) → Ordered p → Ordered (poll_fds host isset p).0
    unfolding poll_fds
    poll-Sorted isset p sorted = call_fds-Sorted isset p.ev.ee _ sorted

    fire-Sorted :
        (timers : List Timer) (p : Process W)
        → Sorted timers
        → Ordered p
        → Ordered (fire_timer host timers p).0
    unfolding fire_timer Sorted
    fire-Sorted [] p timers sorted = sorted
    fire-Sorted (e ∷ rest) p (above, timers) sorted =
        let p0 : Process W = record p { ev = record p.ev { ee_timers = rest } } in
        let called = call-Sorted e.t_fn 0 e.t_arg p0 timers in
        elim (Bool-cases (host.call e.t_fn 0 e.t_arg p0).1) [
          | inr g ↦ rw (g, fire_timer) called
          | inl g ↦
              rw (g, fire_timer)
                (poll-Sorted (λ fd. false) (host.call e.t_fn 0 e.t_arg p0).0 called)
        ]

    after_select-Sorted :
        (sel : Selected) (p : Process W) → Ordered p → Ordered (after_select host sel p).0
    unfolding after_select
    after_select-Sorted interrupted p sorted = sorted
    after_select-Sorted failed p sorted = sorted
    after_select-Sorted timed_out p sorted = fire-Sorted p.ev.ee_timers p sorted sorted
    after_select-Sorted (ready isset) p sorted = poll-Sorted isset p sorted

    round-Sorted : (p : Process W) → Ordered p → Ordered (event_round host p).0
    unfolding event_round
    round-Sorted p sorted =
        let fds = map (λ e. e.e_fd) p.ev.ee in
        let r = host.select (timeout host p.ev.ee_timers p) fds p in
        let waited : Ordered r.0 =
          Steps-Sorted p.ev _ (stepping.select_steps (timeout host p.ev.ee_timers p) fds p)
            sorted in
        elim (Bool-cases (r.0.ev.clicon_exit == 0)) [
          | inl x ↦ rw (x, event_round) (after_select-Sorted r.1 r.0 waited)
          | inr x ↦ rw (x, event_round) waited
        ]

    goes_on :
        (n : ℕ) (r : Process W × Next)
        → Ordered r.0
        → ((p : Process W) → Ordered p → Ordered (event_loop host n p).0)
        → Ordered
            (elim r.1 as (λ next. Process W × Option Bool) [
              | again ↦ event_loop host n r.0
              | return_0 ↦ (r.0, some true)
              | return_minus_1 ↦ (r.0, some false)
            ]).0
    goes_on n (p, again) sorted h = h p sorted
    goes_on n (p, return_0) sorted h = sorted
    goes_on n (p, return_minus_1) sorted h = sorted

    -- Where the functions change the lists only by registering and deregistering, the timers are in the
    -- order of their times after any number of rounds of the event loop, however it ends.
    pub event_loop-Sorted : (n : ℕ) (p : Process W) → Ordered p → Ordered (event_loop host n p).0
    unfolding event_loop
    event_loop-Sorted zero p sorted = sorted
    event_loop-Sorted (suc n) p sorted =
        let once = round-Sorted p sorted in
        elim (Bool-cases (p.ev.clicon_exit == 0)) [
          | inr x ↦ rw (x, event_loop) sorted
          | inl x ↦ rw (x, event_loop) (goes_on n (event_round host p) once (event_loop-Sorted n))
        ]
