-- ===== src/Event/Registry.antt =====
-- Registering and deregistering, in any order.
use clicon.Base.{
  ℕ, suc, ◌≡◌, refl, sym, true, false, List, [], ◌∷◌, Option, none, some, All, arith, inl, inr,
  Bool-cases, Option-cases, ◌==◌, ==_refl, ◌&&◌,
}
use mathlib.Core.Path.{subst}
use clicon.Event.{
  Timeval, Timer, Events, timer_before, insert_timer, remove_timer, remove_fd, event_reg_timeout,
  event_unreg_timeout, event_reg_fd, event_unreg_fd, clicon_exit_set,
}
use clicon.Event.Timers.{InOrder, Sorted, before-asym}

-- What a callback can do to the lists, one call at a time.
pub data Steps : Events → Events → Type 0 where
  done : (ev : Events) → Steps ev ev
  reg_fd : (ev ev' : Events) (fd fn arg : ℕ) → Steps (event_reg_fd fd fn arg ev) ev' → Steps ev ev'
  unreg_fd : (ev ev' : Events) (s fn : ℕ) → Steps (event_unreg_fd s fn ev).0 ev' → Steps ev ev'
  reg_timeout :
      (ev ev' : Events) (t : Timeval) (fn arg : ℕ)
      → Steps (event_reg_timeout t fn arg ev) ev'
      → Steps ev ev'
  unreg_timeout :
      (ev ev' : Events) (fn arg : ℕ) → Steps (event_unreg_timeout fn arg ev).0 ev' → Steps ev ev'
  exit_set : (ev ev' : Events) → Steps (clicon_exit_set ev) ev' → Steps ev ev'

insert-InOrder :
    (x e : Timer) (timers : List Timer)
    → InOrder x e
    → All (InOrder x) timers
    → All (InOrder x) (insert_timer e timers)
unfolding insert_timer InOrder
insert-InOrder x e [] h above = (h, tt)
insert-InOrder x e (e1 ∷ rest) h (h1, above) = elim (Bool-cases (timer_before e.t_time e1.t_time)) [
  | inl b ↦ rw (b, insert_timer) (h, (h1, above))
  | inr b ↦ rw (b, insert_timer) (h1, insert-InOrder x e rest h above)
]

not_before :
    (a b c : Timeval)
    → timer_before a b ≡ true
    → timer_before c b ≡ false
    → timer_before c a ≡ false
unfolding timer_before
not_before a b c h k = ground arith

All-InOrder :
    (e e1 : Timer) (rest : List Timer)
    → timer_before e.t_time e1.t_time ≡ true
    → All (InOrder e1) rest
    → All (InOrder e) rest
unfolding InOrder
All-InOrder e e1 [] h above = tt
All-InOrder e e1 (t ∷ rest) h (k, above) =
    (not_before e.t_time e1.t_time t.t_time h k, All-InOrder e e1 rest h above)

insert-Sorted : (e : Timer) (timers : List Timer) → Sorted timers → Sorted (insert_timer e timers)
unfolding insert_timer Sorted InOrder
insert-Sorted e [] sorted = (tt, tt)
insert-Sorted e (e1 ∷ rest) (above, sorted) = elim (Bool-cases (timer_before e.t_time e1.t_time)) [
  | inl b ↦
      rw (b, insert_timer)
        ((before-asym e.t_time e1.t_time b, All-InOrder e e1 rest b above), (above, sorted))
  | inr b ↦ rw (b, insert_timer) (insert-InOrder e1 e rest b above, insert-Sorted e rest sorted)
]

abbrev SortedIf : Option (List Timer) → Type 0
SortedIf none = Unit
SortedIf (some timers) = Sorted timers

abbrev AllIf : (Timer → Type 0) → Option (List Timer) → Type 0
AllIf P none = Unit
AllIf P (some timers) = All P timers

remove-All :
    (P : Timer → Type 0) (fn arg : ℕ) (timers : List Timer)
    → All P timers
    → AllIf P (remove_timer fn arg timers)
unfolding remove_timer
remove-All P fn arg [] h = tt
remove-All P fn arg (e ∷ rest) (he, h) = elim (Bool-cases (fn == e.t_fn && arg == e.t_arg)) [
  | inl b ↦ rw (b, remove_timer) h
  | inr b ↦
      let ih = remove-All P fn arg rest h in
      elim (Option-cases (remove_timer fn arg rest)) [
        | inl r ↦ rw (b, r, remove_timer) tt
        | inr (rest', r) ↦ rw (b, r, remove_timer) (he, subst (AllIf P) r ih)
      ]
]

remove-Sorted :
    (fn arg : ℕ) (timers : List Timer) → Sorted timers → SortedIf (remove_timer fn arg timers)
unfolding remove_timer Sorted
remove-Sorted fn arg [] sorted = tt
remove-Sorted fn arg (e ∷ rest) (above, sorted) =
    elim (Bool-cases (fn == e.t_fn && arg == e.t_arg)) [
      | inl b ↦ rw (b, remove_timer) sorted
      | inr b ↦
          let kept = remove-All (InOrder e) fn arg rest above in
          let ih = remove-Sorted fn arg rest sorted in
          elim (Option-cases (remove_timer fn arg rest)) [
            | inl r ↦ rw (b, r, remove_timer) tt
            | inr (rest', r) ↦
                rw (b, r, remove_timer) (subst (AllIf (InOrder e)) r kept, subst SortedIf r ih)
          ]
    ]

unreg_timeout-Sorted :
    (fn arg : ℕ) (ev : Events)
    → Sorted ev.ee_timers
    → Sorted (event_unreg_timeout fn arg ev).0.ee_timers
unfolding event_unreg_timeout
unreg_timeout-Sorted fn arg ev sorted =
    let removed = remove-Sorted fn arg ev.ee_timers sorted in
    elim (Option-cases (remove_timer fn arg ev.ee_timers)) [
      | inl r ↦ rw (r, event_unreg_timeout) sorted
      | inr (rest, r) ↦ rw (r, event_unreg_timeout) (subst SortedIf r removed)
    ]

unreg_fd-timers : (s fn : ℕ) (ev : Events) → (event_unreg_fd s fn ev).0.ee_timers ≡ ev.ee_timers
unfolding event_unreg_fd
unreg_fd-timers s fn ev = elim (Option-cases (remove_fd s fn ev.ee)) [
  | inl r ↦ rw (r, event_unreg_fd) refl
  | inr (ee, r) ↦ rw (r, event_unreg_fd) refl
]

-- Whatever is registered and deregistered, and in whatever order, the timers stay in the order of
-- their times.
pub Steps-Sorted : (ev ev' : Events) → Steps ev ev' → Sorted ev.ee_timers → Sorted ev'.ee_timers
unfolding event_reg_fd event_reg_timeout clicon_exit_set
Steps-Sorted _ _ (done ev) sorted = sorted
Steps-Sorted _ _ (reg_fd ev ev' fd fn arg steps) sorted = Steps-Sorted _ ev' steps sorted
Steps-Sorted _ _ (unreg_fd ev ev' s fn steps) sorted =
    Steps-Sorted _ ev' steps (subst Sorted (sym (unreg_fd-timers s fn ev)) sorted)
Steps-Sorted _ _ (reg_timeout ev ev' t fn arg steps) sorted =
    Steps-Sorted _ ev' steps (insert-Sorted _ ev.ee_timers sorted)
Steps-Sorted _ _ (unreg_timeout ev ev' fn arg steps) sorted =
    Steps-Sorted _ ev' steps (unreg_timeout-Sorted fn arg ev sorted)
Steps-Sorted _ _ (exit_set ev ev' steps) sorted = Steps-Sorted _ ev' steps sorted

-- What was not found is not the first timer, and not behind it.
remove-none :
    (fn arg : ℕ) (e : Timer) (rest : List Timer)
    → remove_timer fn arg (e ∷ rest) ≡ none
    → ((fn == e.t_fn && arg == e.t_arg) ≡ false) × (remove_timer fn arg rest ≡ none)
unfolding remove_timer
remove-none fn arg e rest = elim (Bool-cases (fn == e.t_fn && arg == e.t_arg)) [
  | inl b ↦ rw (b, remove_timer) (λ h. absurd cc)
  | inr b ↦ elim (Option-cases (remove_timer fn arg rest)) [
    | inl r ↦ λ h. (b, r)
    | inr (rest', r) ↦ rw (b, r, remove_timer) (λ h. absurd cc)
  ]
]

remove-head : (e : Timer) (rest : List Timer) → remove_timer e.t_fn e.t_arg (e ∷ rest) ≡ some rest
unfolding remove_timer
remove-head e rest = rw (==_refl e.t_fn, ==_refl e.t_arg, remove_timer) refl

remove-behind :
    (fn arg : ℕ) (e1 : Timer) (timers rest : List Timer)
    → (fn == e1.t_fn && arg == e1.t_arg) ≡ false
    → remove_timer fn arg timers ≡ some rest
    → remove_timer fn arg (e1 ∷ timers) ≡ some (e1 ∷ rest)
unfolding remove_timer
remove-behind fn arg e1 timers rest b r = rw (b, r, remove_timer) refl

remove-insert :
    (e : Timer) (timers : List Timer)
    → remove_timer e.t_fn e.t_arg timers ≡ none
    → remove_timer e.t_fn e.t_arg (insert_timer e timers) ≡ some timers
unfolding insert_timer
remove-insert e [] fresh = remove-head e []
remove-insert e (e1 ∷ rest) fresh =
    let (other, none_behind) = remove-none e.t_fn e.t_arg e1 rest fresh in
    elim (Bool-cases (timer_before e.t_time e1.t_time)) [
      | inl b ↦ rw (b, insert_timer) (remove-head e (e1 ∷ rest))
      | inr b ↦
          rw (b, insert_timer)
            (remove-behind e.t_fn e.t_arg e1 (insert_timer e rest) rest other
              (remove-insert e rest none_behind))
    ]

-- A timer that is registered can be deregistered, and then the timers are what they were, where no
-- other timer has the same function and argument.
pub event_unreg_timeout-reg :
    (t : Timeval) (fn arg : ℕ) (ev : Events)
    → remove_timer fn arg ev.ee_timers ≡ none
    → event_unreg_timeout fn arg (event_reg_timeout t fn arg ev) ≡ (ev, true)
unfolding event_unreg_timeout event_reg_timeout
event_unreg_timeout-reg t fn arg ev fresh =
    let e : Timer = record { t_time = t; t_fn = fn; t_arg = arg } in
    rw (remove-insert e ev.ee_timers fresh, event_unreg_timeout) refl

-- A descriptor that is registered can be deregistered, even where it was registered before: the
-- newest registration goes.
pub event_unreg_fd-reg :
    (fd fn arg : ℕ) (ev : Events)
    → event_unreg_fd fd fn (event_reg_fd fd fn arg ev)
      ≡ (record ev { ee_unreg = suc ev.ee_unreg }, true)
unfolding event_unreg_fd event_reg_fd remove_fd
event_unreg_fd-reg fd fn arg ev = rw (==_refl fn, ==_refl fd, event_unreg_fd, remove_fd) refl
