-- ===== src/Backend/Sockets.antt =====
-- The sockets of apps/config/config_socket.c and the event loop: every registered socket has a
-- client in the list, so that the argument of its callback is an entry that is still there.
use clicon.Base.{
  ℕ, ◌≡◌, ◌≢◌, refl, sym, ap, ◌∙◌, true, false, List, [], ◌∷◌, Option, none, some, All, inl, inr,
  arith, if◌then◌else◌, ◌==◌, ==_iff, Bool-cases, Option-cases,
}
use mathlib.Core.Path.{subst}
use clicon.Backend.Types.{Client, World}
use clicon.Backend.Clients.{find_client, delete_client, put_client, unregister, backend_client_rm}

unfoldable pub owner : ℕ → List Client → Option Client
owner s [] = none
owner s (c ∷ cs) = if c.ce_s == s then some c else owner s cs

abbrev pub Differ : List ℕ → Type 0
Differ [] = Unit {0}
Differ (s ∷ ss) = All (λ t. t ≢ s) ss × Differ ss

-- The registered sockets differ, none is 0, and each is the socket of a listed client.
pub record Owned (clients : List Client) (sockets : List ℕ) : Type 0 where
  pub owned : All (λ s. owner s clients ≢ none) sockets
  pub nonzero : All (λ s. s ≢ 0) sockets
  pub differ : Differ sockets

none-ne-some : (c : Client) → none ≢ some c
none-ne-some c e = cc

test_apart : (a b : ℕ) → a ≢ b → (a == b) ≡ false
test_apart a b h = ground arith

owner-delete_client :
    (nr s : ℕ) (clients : List Client) (c : Client)
    → find_client nr clients ≡ some c
    → c.ce_s ≢ s
    → owner s clients ≢ none
    → owner s (delete_client nr clients) ≢ none
unfolding owner find_client delete_client
owner-delete_client nr s [] c found other here = here
owner-delete_client nr s (d ∷ rest) c found other here = elim (Bool-cases (d.ce_nr == nr)) [
  | inl same ↦
      let first : find_client nr (d ∷ rest) ≡ some d = rw same refl in
      let e : d ≡ c = cc in
      let miss : (d.ce_s == s) ≡ false = rw e (test_apart c.ce_s s other) in
      rw same (λ gone. here (rw miss gone))
  | inr differ ↦
      let skip : find_client nr (d ∷ rest) ≡ find_client nr rest = rw differ refl in
      elim (Bool-cases (d.ce_s == s)) [
        | inl hit ↦ rw (differ, hit) (λ e. none-ne-some d (sym e))
        | inr miss ↦
            let step : owner s (d ∷ rest) ≡ owner s rest = rw miss refl in
            rw (differ, miss)
              (owner-delete_client nr s rest c (sym skip ∙ found) other (λ e. here (step ∙ e)))
      ]
]

delete_client-missing :
    (nr : ℕ) (clients : List Client)
    → find_client nr clients ≡ none
    → delete_client nr clients ≡ clients
unfolding find_client delete_client
delete_client-missing nr [] missing = refl
delete_client-missing nr (d ∷ rest) missing = elim (Bool-cases (d.ce_nr == nr)) [
  | inl same ↦
      let first : find_client nr (d ∷ rest) ≡ some d = rw same refl in
      elim (none-ne-some d (sym missing ∙ first)) [ ]
  | inr differ ↦
      let skip : find_client nr (d ∷ rest) ≡ find_client nr rest = rw differ refl in
      rw differ (ap (λ t. d ∷ t) (delete_client-missing nr rest (sym skip ∙ missing)))
]

pub owner-put_client :
    (ce d : Client) (s : ℕ) (clients : List Client)
    → find_client ce.ce_nr clients ≡ some d
    → ce.ce_s ≡ d.ce_s
    → owner s clients ≢ none
    → owner s (put_client ce clients) ≢ none
unfolding owner find_client put_client
owner-put_client ce d s [] found same_s here = here
owner-put_client ce d s (c ∷ rest) found same_s here = elim (Bool-cases (c.ce_nr == ce.ce_nr)) [
  | inl same ↦
      let first : find_client ce.ce_nr (c ∷ rest) ≡ some c = rw same refl in
      let e : c ≡ d = cc in
      let socket : ce.ce_s ≡ c.ce_s = cc in
      elim (Bool-cases (c.ce_s == s)) [
        | inl hit ↦
            let mine : (ce.ce_s == s) ≡ true = rw socket hit in
            rw (same, mine) (λ e2. none-ne-some ce (sym e2))
        | inr miss ↦
            let step : owner s (c ∷ rest) ≡ owner s rest = rw miss refl in
            let not_mine : (ce.ce_s == s) ≡ false = rw socket miss in
            rw (same, not_mine) (λ e2. here (step ∙ e2))
      ]
  | inr differ ↦
      let skip : find_client ce.ce_nr (c ∷ rest) ≡ find_client ce.ce_nr rest = rw differ refl in
      elim (Bool-cases (c.ce_s == s)) [
        | inl hit ↦ rw (differ, hit) (λ e. none-ne-some c (sym e))
        | inr miss ↦
            let step : owner s (c ∷ rest) ≡ owner s rest = rw miss refl in
            rw (differ, miss)
              (owner-put_client ce d s rest (sym skip ∙ found) same_s (λ e. here (step ∙ e)))
      ]
]

module _ (P : ℕ → Type 0) where
  All-unregister : (s : ℕ) (ss : List ℕ) → All P ss → All P (unregister s ss)
  unfolding unregister
  All-unregister s [] all = tt
  All-unregister s (t ∷ ss) (here, all) = elim (Bool-cases (t == s)) [
    | inl same ↦ rw same all
    | inr differ ↦ rw differ (here, All-unregister s ss all)
  ]

unregister-Differ : (s : ℕ) (ss : List ℕ) → Differ ss → Differ (unregister s ss)
unfolding unregister
unregister-Differ s [] differ = tt
unregister-Differ s (t ∷ ss) (apart, differ) = elim (Bool-cases (t == s)) [
  | inl same ↦ rw same differ
  | inr other ↦ rw other (All-unregister (λ u. u ≢ t) s ss apart, unregister-Differ s ss differ)
]

unregister-gone : (s : ℕ) (ss : List ℕ) → Differ ss → All (λ t. t ≢ s) (unregister s ss)
unfolding unregister
unregister-gone s [] differ = tt
unregister-gone s (t ∷ ss) (apart, differ) = elim (Bool-cases (t == s)) [
  | inl same ↦
      let e : t ≡ s = (==_iff t s).0 same in rw same (subst (λ u. All (λ v. v ≢ u) ss) e apart)
  | inr other ↦ rw other ((λ e. absurd (ground (arith, e))), unregister-gone s ss differ)
]

-- For every element of a list of two properties.
pub All-map :
    (P Q R : ℕ → Type 0) (ss : List ℕ)
    → ((s : ℕ) → P s → Q s → R s)
    → All P ss
    → All Q ss
    → All R ss
All-map P Q R [] f ps qs = tt
All-map P Q R (s ∷ ss) f (p, ps) (q, qs) = (f s p q, All-map P Q R ss f ps qs)

unlisted-Owned :
    (nr : ℕ) (clients : List Client) (sockets : List ℕ) (c : Client)
    → find_client nr clients ≡ some c
    → Owned clients sockets
    → All (λ s. s ≢ c.ce_s) sockets
    → Owned (delete_client nr clients) sockets
unlisted-Owned nr clients sockets c found o others = record {
  owned =
      All-map (λ s. owner s clients ≢ none) (λ s. s ≢ c.ce_s)
        (λ s. owner s (delete_client nr clients) ≢ none) sockets
        (λ s here other. owner-delete_client nr s clients c found (λ e. other (sym e)) here) o.owned
        others;
  nonzero = o.nonzero;
  differ = o.differ;
}

module _ {F : Type 0} where
  abbrev pub HasSockets : World F → Type 0
  HasSockets w = Owned w.ce_list w.registered

  pub backend_client_rm-HasSockets :
      (ce : Client) (w : World F) → HasSockets w → HasSockets (backend_client_rm ce w)
  unfolding backend_client_rm
  backend_client_rm-HasSockets ce w o = elim (Option-cases (find_client ce.ce_nr w.ce_list)) [
    | inl missing ↦
        rw (backend_client_rm, missing, delete_client-missing ce.ce_nr w.ce_list missing) o
    | inr (c, found) ↦ elim (Bool-cases (c.ce_s == 0)) [
      | inl zero_socket ↦
          let e : c.ce_s ≡ 0 = (==_iff c.ce_s 0).0 zero_socket in
          rw (backend_client_rm, found, zero_socket)
            (unlisted-Owned ce.ce_nr w.ce_list w.registered c found o
              (subst (λ z. All (λ s. s ≢ z) w.registered) (sym e) o.nonzero))
      | inr open_socket ↦
          let left = unregister c.ce_s w.registered in
          let kept : Owned w.ce_list left = record {
            owned = All-unregister (λ s. owner s w.ce_list ≢ none) c.ce_s w.registered o.owned;
            nonzero = All-unregister (λ s. s ≢ 0) c.ce_s w.registered o.nonzero;
            differ = unregister-Differ c.ce_s w.registered o.differ;
          } in
          rw (backend_client_rm, found, open_socket)
            (unlisted-Owned ce.ce_nr w.ce_list left c found kept
              (unregister-gone c.ce_s w.registered o.differ))
    ]
  ]
