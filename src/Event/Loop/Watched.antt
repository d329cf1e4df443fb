-- ===== src/Event/Loop/Watched.antt =====
-- The loop over the descriptors and events that were deregistered.
use clicon.Base.{
  ℕ, ◌≡◌, refl, sym, ap, ◌∙◌, Bool, true, false, ◌&&◌, ◌||◌, List, [], ◌∷◌, ◌++◌, arith, inl, inr,
  Bool-cases, ◌==◌, ==_iff, ==_refl, append_assoc,
}
use clicon.Event.{FdEvent}
use clicon.Event.Pointers.{Behind, Steps-Behind}
use clicon.Event.Loop.{Process, Host, call_fds, poll_fds, reset_unreg}
use clicon.Event.Loop.Rounds.{Stepping}

-- The event is in the list.
unfoldable pub listed : ℕ → ℕ → ℕ → List FdEvent → Bool
listed fn fd arg [] = false
listed fn fd arg (e ∷ rest) =
    (fn == e.e_fn && fd == e.e_fd && arg == e.e_arg) || listed fn fd arg rest

module _ {W : Type 0} (host : Host W) where
  abbrev pub unwatched : Process (W × Bool) → Process W
  unwatched p = record { ev = p.ev; world = p.world.0 }

  -- The same host with a note, which turns false when a function is called for an event that is not in
  -- the list of descriptors at that time.
  unfoldable pub watched : Host (W × Bool)
  unfolding listed
  watched = record {
    gettimeofday = λ w. host.gettimeofday w.0;
    select = λ t fds p.
        let (q, sel) = host.select t fds (unwatched p) in
        (record { ev = q.ev; world = (q.world, p.world.1) }, sel);
    call = λ fn fd arg p.
        let (q, good) = host.call fn fd arg (unwatched p) in
        (record { ev = q.ev; world = (q.world, p.world.1 && listed fn fd arg p.ev.ee) }, good);
  }

  module _ (stepping : Stepping host) where
    abbrev Noted : Process (W × Bool) → Type 0
    Noted p = p.world.1 ≡ true

    listed-Behind :
        (e : FdEvent) (rest new : List FdEvent)
        → listed e.e_fn e.e_fd e.e_arg (new ++ e ∷ rest) ≡ true
    unfolding listed
    listed-Behind e rest [] = rw (==_refl e.e_fn, ==_refl e.e_fd, ==_refl e.e_arg, listed) refl
    listed-Behind e rest (d ∷ new) = ground (arith, listed-Behind e rest new)

    both_true : (a b : Bool) → a ≡ true → b ≡ true → (a && b) ≡ true
    both_true a b h k = ground arith

    call-Noted :
        (e : FdEvent) (rest : List FdEvent) (p : Process (W × Bool))
        → Noted p
        → Behind (e ∷ rest) p.ev.ee
        → Noted (watched.call e.e_fn e.e_fd e.e_arg p).0
    unfolding watched
    call-Noted e rest p note (new, at) =
        both_true p.world.1 (listed e.e_fn e.e_fd e.e_arg p.ev.ee) note
          (ap (listed e.e_fn e.e_fd e.e_arg) at ∙ listed-Behind e rest new)

    call-Behind :
        (e : FdEvent) (rest : List FdEvent) (p : Process (W × Bool))
        → p.ev.ee_unreg ≡ 0
        → Behind (e ∷ rest) p.ev.ee
        → (watched.call e.e_fn e.e_fd e.e_arg p).0.ev.ee_unreg ≡ 0
        → Behind rest (watched.call e.e_fn e.e_fd e.e_arg p).0.ev.ee
    unfolding watched
    call-Behind e rest p kept (old, at) kept' =
        let q = host.call e.e_fn e.e_fd e.e_arg (unwatched p) in
        let (new, same) =
          Steps-Behind p.ev q.0.ev (stepping.call_steps e.e_fn e.e_fd e.e_arg (unwatched p))
            (kept' ∙ sym kept) in
        (
          new ++ (old ++ e ∷ []),
          same
              ∙ ap (λ t. new ++ t) (at ∙ sym (append_assoc old (e ∷ []) rest))
              ∙ sym (append_assoc new (old ++ e ∷ []) rest),
        )

    call_fds-Noted :
        (isset : ℕ → Bool) (ee : List FdEvent) (p : Process (W × Bool))
        → p.ev.ee_unreg ≡ 0
        → Behind ee p.ev.ee
        → Noted p
        → Noted (call_fds watched isset ee p).0
    unfolding call_fds reset_unreg
    call_fds-Noted isset [] p kept behind note = note
    call_fds-Noted isset (e ∷ rest) p kept behind note =
        let (old, at) = behind in
        let q = watched.call e.e_fn e.e_fd e.e_arg p in
        let noted = call-Noted e rest p note behind in
        elim (Bool-cases (p.ev.clicon_exit == 0)) [
          | inr x ↦ rw (x, call_fds) note
          | inl x ↦ elim (Bool-cases (isset e.e_fd)) [
            | inr b ↦
                rw (x, b, call_fds)
                  (call_fds-Noted isset rest p kept
                    (old ++ e ∷ [], at ∙ sym (append_assoc old (e ∷ []) rest)) note)
            | inl b ↦ elim (Bool-cases q.1) [
              | inr g ↦ rw (x, b, g, call_fds) noted
              | inl g ↦ elim (Bool-cases (q.0.ev.ee_unreg == 0)) [
                | inr u ↦ rw (x, b, g, u, call_fds) noted
                | inl u ↦
                    let kept' = (==_iff q.0.ev.ee_unreg 0).0 u in
                    rw (x, b, g, u, call_fds)
                      (call_fds-Noted isset rest q.0 kept' (call-Behind e rest p kept behind kept')
                        noted)
              ]
            ]
          ]
        ]

    -- Where functions change the lists only by registering and deregistering, a round over the
    -- descriptors calls a function only for an event that is in the list at that time: never for one
    -- that was deregistered, by itself or by a function called before it, and whose memory is freed.
    pub poll_fds-Noted :
        (isset : ℕ → Bool) (p : Process (W × Bool))
        → p.world.1 ≡ true
        → (poll_fds watched isset p).0.world.1 ≡ true
    unfolding poll_fds reset_unreg
    poll_fds-Noted isset p note = call_fds-Noted isset p.ev.ee _ refl ([], refl) note
