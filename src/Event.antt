-- ===== src/Event.antt =====
-- Events: lib/src/clicon_event.c. A process has one list of file descriptors and one of timers, each
-- with a function to call.
use clicon.Base.{
  ℕ, suc, ◌+◌, Bool, true, false, ◌&&◌, List, [], ◌∷◌, Option, none, some, ltb, ◌==◌, if◌then◌else◌,
}
pub mod Timers
pub mod Registry
pub mod Pointers
pub mod Loop
mod Tests

-- `struct timeval`.
pub record Timeval : Type 0 where
  pub tv_sec : ℕ
  pub tv_usec : ℕ

-- `struct event_data` of the two lists; functions and arguments are told apart by numbers.
pub record FdEvent : Type 0 where
  pub e_fd : ℕ
  pub e_fn : ℕ
  pub e_arg : ℕ

pub record Timer : Type 0 where
  pub t_time : Timeval
  pub t_fn : ℕ
  pub t_arg : ℕ

-- The static variables. `ee_unreg` and `clicon_exit` are counters.
pub record Events : Type 0 where
  pub ee : List FdEvent
  pub ee_timers : List Timer
  pub ee_unreg : ℕ
  pub clicon_exit : ℕ

unfoldable pub clicon_exit_set : Events → Events
clicon_exit_set ev = record ev { clicon_exit = suc ev.clicon_exit }

unfoldable pub event_reg_fd : ℕ → ℕ → ℕ → Events → Events
event_reg_fd fd fn arg ev = record ev { ee = record { e_fd = fd; e_fn = fn; e_arg = arg } ∷ ev.ee }

-- The list without the first event of this descriptor and function, if there is one.
unfoldable pub remove_fd : ℕ → ℕ → List FdEvent → Option (List FdEvent)
remove_fd s fn [] = none
remove_fd s fn (e ∷ rest) = elim (fn == e.e_fn && s == e.e_fd) [
  | true ↦ some rest
  | false ↦ elim (remove_fd s fn rest) [ none ↦ none | some rest' ↦ some (e ∷ rest') ]
]

-- With whether it was found.
unfoldable pub event_unreg_fd : ℕ → ℕ → Events → Events × Bool
unfolding remove_fd
event_unreg_fd s fn ev = elim (remove_fd s fn ev.ee) [
  | none ↦ (ev, false)
  | some ee ↦ (record ev { ee = ee; ee_unreg = suc ev.ee_unreg }, true)
]

-- `timercmp(a, b, <)`.
unfoldable pub timer_before : Timeval → Timeval → Bool
timer_before a b = if a.tv_sec == b.tv_sec then ltb a.tv_usec b.tv_usec else ltb a.tv_sec b.tv_sec

-- A new timer stands before the first one that is later.
unfoldable pub insert_timer : Timer → List Timer → List Timer
unfolding timer_before
insert_timer e [] = e ∷ []
insert_timer e (e1 ∷ rest) = elim (timer_before e.t_time e1.t_time) [
  | true ↦ e ∷ e1 ∷ rest
  | false ↦ e1 ∷ insert_timer e rest
]

unfoldable pub event_reg_timeout : Timeval → ℕ → ℕ → Events → Events
unfolding insert_timer
event_reg_timeout t fn arg ev = record ev {
  ee_timers = insert_timer (record { t_time = t; t_fn = fn; t_arg = arg }) ev.ee_timers;
}

unfoldable pub remove_timer : ℕ → ℕ → List Timer → Option (List Timer)
remove_timer fn arg [] = none
remove_timer fn arg (e ∷ rest) = elim (fn == e.t_fn && arg == e.t_arg) [
  | true ↦ some rest
  | false ↦ elim (remove_timer fn arg rest) [ none ↦ none | some rest' ↦ some (e ∷ rest') ]
]

unfoldable pub event_unreg_timeout : ℕ → ℕ → Events → Events × Bool
unfolding remove_timer
event_unreg_timeout fn arg ev = elim (remove_timer fn arg ev.ee_timers) [
  | none ↦ (ev, false)
  | some ee_timers ↦ (record ev { ee_timers = ee_timers }, true)
]
