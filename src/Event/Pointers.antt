-- ===== src/Event/Pointers.antt =====
-- The pointers into the list of descriptors.
use clicon.Base.{
  ℕ, suc, ◌≤◌, ◌≡◌, refl, sym, ap, ◌∙◌, List, [], ◌∷◌, ◌++◌, arith, ◌⊎◌, inl, inr, Option-cases,
  append_assoc,
}
use mathlib.Core.Path.{subst}
use clicon.Event.{
  FdEvent, Events, remove_fd, event_unreg_fd, event_reg_fd, event_reg_timeout, event_unreg_timeout,
  clicon_exit_set, remove_timer,
}
use clicon.Event.Registry.{Steps, done, reg_fd, unreg_fd, reg_timeout, unreg_timeout, exit_set}

-- One list is the other with events before it.
abbrev pub Behind : List FdEvent → List FdEvent → Type 0
Behind ee ee' = (new : List FdEvent) × (ee' ≡ new ++ ee)

Behind-trans : (a b c : List FdEvent) → Behind a b → Behind b c → Behind a c
Behind-trans a b c (m, e) (n, f) = (n ++ m, f ∙ ap (λ t. n ++ t) e ∙ sym (append_assoc n m a))

unreg_fd-cases :
    (s fn : ℕ) (ev : Events)
    → ((event_unreg_fd s fn ev).0 ≡ ev) ⊎ ((event_unreg_fd s fn ev).0.ee_unreg ≡ suc ev.ee_unreg)
unfolding event_unreg_fd
unreg_fd-cases s fn ev = elim (Option-cases (remove_fd s fn ev.ee)) [
  | inl r ↦ rw (r, event_unreg_fd) (inl refl)
  | inr (ee, r) ↦ rw (r, event_unreg_fd) (inr refl)
]

unreg_timeout-fds :
    (fn arg : ℕ) (ev : Events)
    → ((event_unreg_timeout fn arg ev).0.ee ≡ ev.ee)
      × ((event_unreg_timeout fn arg ev).0.ee_unreg ≡ ev.ee_unreg)
unfolding event_unreg_timeout
unreg_timeout-fds fn arg ev = elim (Option-cases (remove_timer fn arg ev.ee_timers)) [
  | inl r ↦ rw (r, event_unreg_timeout) (refl, refl)
  | inr (timers, r) ↦ rw (r, event_unreg_timeout) (refl, refl)
]

Steps-count : (ev ev' : Events) → Steps ev ev' → ev.ee_unreg ≤ ev'.ee_unreg
unfolding event_reg_fd event_reg_timeout clicon_exit_set
Steps-count _ _ (done ev) = omega arith
Steps-count _ _ (reg_fd ev ev' fd fn arg steps) = Steps-count _ ev' steps
Steps-count _ _ (unreg_fd ev ev' s fn steps) =
    let later = Steps-count _ ev' steps in
    elim (unreg_fd-cases s fn ev) [
      | inl same ↦ let e = ap (λ v. v.ee_unreg) same in omega arith
      | inr more ↦ omega arith
    ]
Steps-count _ _ (reg_timeout ev ev' t fn arg steps) = Steps-count _ ev' steps
Steps-count _ _ (unreg_timeout ev ev' fn arg steps) =
    let later = Steps-count _ ev' steps in let same = (unreg_timeout-fds fn arg ev).1 in omega arith
Steps-count _ _ (exit_set ev ev' steps) = Steps-count _ ev' steps

-- As long as the counter of deregistrations has not moved, the list of descriptors has only got new
-- events in front: the pointers that the loop has into it are good.
pub Steps-Behind :
    (ev ev' : Events) → Steps ev ev' → ev'.ee_unreg ≡ ev.ee_unreg → Behind ev.ee ev'.ee
unfolding event_reg_fd event_reg_timeout clicon_exit_set
Steps-Behind _ _ (done ev) e = ([], refl)
Steps-Behind _ _ (reg_fd ev ev' fd fn arg steps) e =
    Behind-trans ev.ee _ ev'.ee (record { e_fd = fd; e_fn = fn; e_arg = arg } ∷ [], refl)
      (Steps-Behind _ ev' steps e)
Steps-Behind _ _ (unreg_fd ev ev' s fn steps) e =
    let later = Steps-count _ ev' steps in
    elim (unreg_fd-cases s fn ev) [
      | inl same ↦
          let ih = Steps-Behind _ ev' steps (e ∙ sym (ap (λ v. v.ee_unreg) same)) in
          subst (λ v. Behind v.ee ev'.ee) same ih
      | inr more ↦ absurd (omega arith)
    ]
Steps-Behind _ _ (reg_timeout ev ev' t fn arg steps) e = Steps-Behind _ ev' steps e
Steps-Behind _ _ (unreg_timeout ev ev' fn arg steps) e =
    let (fds, count) = unreg_timeout-fds fn arg ev in
    subst (λ ee. Behind ee ev'.ee) fds (Steps-Behind _ ev' steps (e ∙ sym count))
Steps-Behind _ _ (exit_set ev ev' steps) e = Steps-Behind _ ev' steps e
