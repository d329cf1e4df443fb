-- ===== src/Event/Timers.antt =====
-- The order of timers.
use clicon.Base.{
  ℕ, ◌≡◌, refl, ap, true, false, List, [], ◌∷◌, ◌++◌, All, arith, inl, inr, Bool-cases,
}
use clicon.Event.{Timeval, Timer, Events, timer_before, insert_timer, event_reg_timeout}

-- The second timer is not before the first.
unfoldable pub InOrder : Timer → Timer → Type 0
unfolding timer_before
InOrder a b = timer_before b.t_time a.t_time ≡ false

unfoldable pub Sorted : List Timer → Type 0
unfolding InOrder
Sorted [] = Unit
Sorted (e ∷ rest) = All (InOrder e) rest × Sorted rest

pub before-asym : (a b : Timeval) → timer_before a b ≡ true → timer_before b a ≡ false
unfolding timer_before
before-asym a b h = ground arith

before_trans :
    (a b c : Timeval) → timer_before a b ≡ true → timer_before c b ≡ false → timer_before a c ≡ true
unfolding timer_before
before_trans a b c h k = ground arith

-- Where a new timer is put in a list in order: behind every timer that is not later than it, those of
-- the same time too, and before every later one.
pub record Placed (e : Timer) (timers result : List Timer) : Type 0 where
  pub earlier : List Timer
  pub later : List Timer
  pub split : timers ≡ earlier ++ later
  pub joined : result ≡ earlier ++ e ∷ later
  pub not_later : All (λ t. InOrder t e) earlier
  pub all_later : All (λ t. timer_before e.t_time t.t_time ≡ true) later

later-than :
    (e e1 : Timer) (rest : List Timer)
    → timer_before e.t_time e1.t_time ≡ true
    → All (InOrder e1) rest
    → All (λ t. timer_before e.t_time t.t_time ≡ true) rest
unfolding InOrder
later-than e e1 [] h sorted = tt
later-than e e1 (t ∷ rest) h (k, sorted) =
    (before_trans e.t_time e1.t_time t.t_time h k, later-than e e1 rest h sorted)

insert_timer-Placed :
    (e : Timer) (timers : List Timer) → Sorted timers → Placed e timers (insert_timer e timers)
unfolding insert_timer Sorted InOrder
insert_timer-Placed e [] sorted = record {
  earlier = [];
  later = [];
  split = refl;
  joined = refl;
  not_later = tt;
  all_later = tt;
}
insert_timer-Placed e (e1 ∷ rest) (above, sorted) =
    elim (Bool-cases (timer_before e.t_time e1.t_time)) [
      | inl h ↦
          rw (h, insert_timer)
            (record {
              earlier = [];
              later = e1 ∷ rest;
              split = refl;
              joined = refl;
              not_later = tt;
              all_later = (h, later-than e e1 rest h above);
            })
      | inr h ↦
          let ih = insert_timer-Placed e rest sorted in
          rw (h, insert_timer)
            (record {
              earlier = e1 ∷ ih.earlier;
              later = ih.later;
              split = ap (λ t. e1 ∷ t) ih.split;
              joined = ap (λ t. e1 ∷ t) ih.joined;
              not_later = (h, ih.not_later);
              all_later = ih.all_later;
            })
    ]

-- In a list of timers that is in order, a new timer stands behind all that are not later, so that
-- timers of the same time are called in the order in which they were registered, and before all that
-- are later; nothing else changes.
pub event_reg_timeout-Placed :
    (t : Timeval) (fn arg : ℕ) (ev : Events)
    → Sorted ev.ee_timers
    → Placed
        (record { t_time = t; t_fn = fn; t_arg = arg })
        ev.ee_timers
        (event_reg_timeout t fn arg ev).ee_timers
unfolding event_reg_timeout
event_reg_timeout-Placed t fn arg ev sorted = insert_timer-Placed _ ev.ee_timers sorted
