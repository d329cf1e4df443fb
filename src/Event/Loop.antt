-- ===== src/Event/Loop.antt =====
-- The event loop: `event_loop` of lib/src/clicon_event.c. `select`, the clock and the functions to
-- call are parameters.
use clicon.Base.{
  ℕ, zero, suc, ◌+◌, ◌-◌, Bool, true, false, List, [], ◌∷◌, map, Option, none, some, ltb, ◌==◌,
  if◌then◌else◌,
}
use clicon.Event.{Timeval, FdEvent, Timer, Events, timer_before}
pub mod Dispatch
pub mod Rounds
pub mod Watched
pub mod Exit

-- The lists of events, and all else.
pub record Process (W : Type 0) : Type 0 where
  pub ev : Events
  pub world : W

-- How `select` returns: -1 with EINTR, -1 with another error, 0, or with the descriptors that are
-- ready.
pub data Selected : Type 0 where
  interrupted failed timed_out : Selected
  ready : (ℕ → Bool) → Selected

-- What the loop does next: it goes on, or returns 0 or -1.
pub data Next : Type 0 where
  again return_0 return_minus_1 : Next

pub record Host (W : Type 0) : Type 0 where
  pub gettimeofday : W → Timeval
  -- no timeout, or the time to wait
  pub select : Option Timeval → List ℕ → Process W → Process W × Selected
  -- the function, its two arguments, and whether it returns a number that is not negative
  pub call : ℕ → ℕ → ℕ → Process W → Process W × Bool

-- `timersub` of a time that is not before the other.
unfoldable pub timersub : Timeval → Timeval → Timeval
timersub a b =
    if ltb a.tv_usec b.tv_usec
    then record { tv_sec = a.tv_sec - b.tv_sec - 1; tv_usec = a.tv_usec + 1000000 - b.tv_usec }
    else record { tv_sec = a.tv_sec - b.tv_sec; tv_usec = a.tv_usec - b.tv_usec }

-- The time to wait for the first timer: none where its time has passed.
unfoldable pub wait_time : Timeval → Timeval → Timeval
unfolding timer_before timersub
wait_time time now =
    if timer_before time now then record { tv_sec = 0; tv_usec = 0 } else timersub time now

module _ {W : Type 0} (host : Host W) where
  unfoldable pub timeout : List Timer → Process W → Option Timeval
  unfolding wait_time
  timeout [] p = none
  timeout (e ∷ rest) p = some (wait_time e.t_time (host.gettimeofday p.world))

  unfoldable pub reset_unreg : Process W → Process W
  reset_unreg p = record p { ev = record p.ev { ee_unreg = 0 } }

  -- The loop over the descriptors that are ready. It has a pointer to the next event while a function
  -- is called, and stops when that function has deregistered any.
  unfoldable pub call_fds : (ℕ → Bool) → List FdEvent → Process W → Process W × Next
  unfolding reset_unreg
  call_fds isset [] p = (p, again)
  call_fds isset (e ∷ rest) p = elim (p.ev.clicon_exit == 0) [
    | false ↦ (p, again)
    | true ↦ elim (isset e.e_fd) [
      | false ↦ call_fds isset rest p
      | true ↦
          let (p', good) = host.call e.e_fn e.e_fd e.e_arg p in
          elim good [
            | false ↦ (p', return_minus_1)
            | true ↦ elim (p'.ev.ee_unreg == 0) [
              | false ↦ (reset_unreg p', again)
              | true ↦ call_fds isset rest p'
            ]
          ]
    ]
  ]

  unfoldable pub poll_fds : (ℕ → Bool) → Process W → Process W × Next
  unfolding call_fds reset_unreg
  poll_fds isset p = call_fds isset p.ev.ee (reset_unreg p)

  -- The first timer is taken from the list before its function is called. `select` times out only
  -- where it was given a timeout, so that there is a timer.
  unfoldable pub fire_timer : List Timer → Process W → Process W × Next
  unfolding poll_fds
  fire_timer [] p = (p, return_minus_1)
  fire_timer (e ∷ rest) p =
      let (p', good) =
        host.call e.t_fn 0 e.t_arg (record p { ev = record p.ev { ee_timers = rest } }) in
      elim good [ false ↦ (p', return_minus_1) | true ↦ poll_fds (λ fd. false) p' ]

  unfoldable pub after_select : Selected → Process W → Process W × Next
  unfolding fire_timer poll_fds
  after_select interrupted p = (p, return_0)
  after_select failed p = (p, return_minus_1)
  after_select timed_out p = fire_timer p.ev.ee_timers p
  after_select (ready isset) p = poll_fds isset p

  -- The body of the loop.
  unfoldable pub event_round : Process W → Process W × Next
  unfolding timeout after_select
  event_round p =
      let (p', sel) = host.select (timeout p.ev.ee_timers p) (map (λ e. e.e_fd) p.ev.ee) p in
      if p'.ev.clicon_exit == 0 then after_select sel p' else (p', return_minus_1)

  -- At most so many rounds, with what is returned: nothing where more rounds would follow. After the
  -- last round of a loop that ends the exit flag is looked at.
  unfoldable pub event_loop : ℕ → Process W → Process W × Option Bool
  unfolding event_round
  event_loop zero p = (p, none)
  event_loop (suc n) p = elim (p.ev.clicon_exit == 0) [
    | false ↦ (p, some false)
    | true ↦
        let (p', next) = event_round p in
        elim next [
          | again ↦ event_loop n p'
          | return_0 ↦ (p', some true)
          | return_minus_1 ↦ (p', some false)
        ]
  ]
