-- ===== src/Event/Tests.antt =====
-- A process that counts its calls.
use clicon.Base.{ℕ, suc, ◌≡◌, refl, Bool, true, [], ◌∷◌, ◌==◌}
use clicon.Event.{event_reg_timeout, FdEvent, Timer, Events, timer_before, clicon_exit_set}
use clicon.Event.Timers.{Sorted, Placed, event_reg_timeout-Placed}
use clicon.Event.Registry.{done}
use clicon.Event.Loop.{Process, Host, ready, poll_fds, event_loop}
use clicon.Event.Loop.Rounds.{Stepping, event_loop-Sorted}
use clicon.Event.Loop.Watched.{watched, poll_fds-Noted}

abbrev at : ℕ → ℕ → Timer
at sec fn = record { t_time = record { tv_sec = sec; tv_usec = 0 }; t_fn = fn; t_arg = 0 }

abbrev socket : ℕ → FdEvent
socket fd = record { e_fd = fd; e_fn = 1; e_arg = 0 }

abbrev lists : Events
lists = record {
  ee = socket 4 ∷ socket 3 ∷ [];
  ee_timers = at 10 1 ∷ at 20 2 ∷ [];
  ee_unreg = 0;
  clicon_exit = 0;
}

event_reg_timeout-Placed_example :
    Placed
      (at 10 3)
      (at 10 1 ∷ at 20 2 ∷ [])
      (event_reg_timeout (record { tv_sec = 10; tv_usec = 0 }) 3 0 lists).ee_timers
unfolding Sorted timer_before
event_reg_timeout-Placed_example =
    event_reg_timeout-Placed (record { tv_sec = 10; tv_usec = 0 }) 3 0 lists ((refl, tt), (tt, tt))

-- Every call counts, and descriptor 3 is always ready.
abbrev counting_host : Host ℕ
counting_host = record {
  gettimeofday = λ w. record { tv_sec = w; tv_usec = 0 };
  select = λ t fds p. (p, ready (λ fd. fd == 3));
  call = λ fn fd arg p. (record p { world = suc p.world }, true);
}

abbrev process : Process ℕ
process = record { ev = lists; world = 0 }

counting-Stepping : Stepping counting_host
counting-Stepping = record {
  call_steps = λ fn fd arg p. done p.ev;
  select_steps = λ t fds p. done p.ev;
}

abbrev noting : Process (ℕ × Bool)
noting = record { ev = lists; world = (0, true) }

poll_fds-Noted_example : (poll_fds (watched counting_host) (λ fd. fd == 3) noting).0.world.1 ≡ true
poll_fds-Noted_example = poll_fds-Noted counting_host counting-Stepping (λ fd. fd == 3) noting refl

event_loop-Sorted_example : Sorted (event_loop counting_host 3 process).0.ev.ee_timers
unfolding Sorted timer_before
event_loop-Sorted_example =
    event_loop-Sorted counting_host counting-Stepping 3 process ((refl, tt), (tt, tt))

-- The function sets the exit flag.
abbrev exiting_host : Host ℕ
exiting_host = record {
  gettimeofday = λ w. record { tv_sec = w; tv_usec = 0 };
  select = λ t fds p. (p, ready (λ fd. fd == 3));
  call = λ fn fd arg p. (record p { ev = clicon_exit_set p.ev }, true);
}
