-- ===== src/Strings/Split.antt =====
-- Splitting a string and joining the pieces.
use clicon.Base.{
  ℕ, zero, suc, ◌-◌, ◌≡◌, refl, sym, ap, ◌∙◌, Bool, true, false, ◌&&◌, List, [], ◌∷◌, ◌++◌, length,
  drop, arith, ◌==◌, ==_refl, ==_iff, inl, inr, Bool-cases, append-nil,
}
use clicon.Proto.Types.{CString, strlen}
use clicon.Strings.{value, null, cons_head, is_prefix, strstr_all, clicon_strsplit, vector_size}

-- The pieces with the delimiter between them.
unfoldable pub between : CString → List CString → CString
between delim [] = []
between delim (p ∷ []) = p
between delim (p ∷ q ∷ ps) = p ++ (delim ++ between delim (q ∷ ps))

-- A list with at least one piece.
abbrev pub NonEmpty : List CString → Type 0
NonEmpty [] = ⊥
NonEmpty (p ∷ ps) = Unit

cons_head-NonEmpty : (c : ℕ) (ps : List CString) → NonEmpty (cons_head c ps)
cons_head-NonEmpty c [] = tt
cons_head-NonEmpty c (p ∷ ps) = tt

strstr_all-NonEmpty :
    (delim : CString) (skip : ℕ) (s : CString) → NonEmpty (strstr_all delim skip s)
unfolding strstr_all
strstr_all-NonEmpty delim skip [] = tt
strstr_all-NonEmpty delim (suc skip) (c ∷ s) = strstr_all-NonEmpty delim skip s
strstr_all-NonEmpty delim zero (c ∷ s) = elim (Bool-cases (is_prefix delim (c ∷ s))) [
  | inl e ↦ rw (e, strstr_all) tt
  | inr e ↦ rw (e, strstr_all) (cons_head-NonEmpty c (strstr_all delim 0 s))
]

between-cons_head :
    (delim : CString) (c : ℕ) (ps : List CString)
    → between delim (cons_head c ps) ≡ c ∷ between delim ps
unfolding between
between-cons_head delim c [] = refl
between-cons_head delim c (p ∷ []) = refl
between-cons_head delim c (p ∷ q ∷ ps) = refl

between-empty :
    (delim : CString) (ps : List CString)
    → NonEmpty ps
    → between delim ([] ∷ ps) ≡ delim ++ between delim ps
unfolding between
between-empty delim [] h = elim h [ ]
between-empty delim (p ∷ ps) h = refl

both : (a b : Bool) → (a && b) ≡ true → (a ≡ true) × (b ≡ true)
both a b h = ground arith

-- What follows a prefix.
prefix-drop : (delim s : CString) → is_prefix delim s ≡ true → s ≡ delim ++ drop (strlen delim) s
unfolding is_prefix
prefix-drop [] s h = refl
prefix-drop (d ∷ delim) [] h = absurd cc
prefix-drop (d ∷ delim) (c ∷ s) h =
    let (same, rest) = both (d == c) (is_prefix delim s) h in
    let e : d ≡ c = (==_iff d c).0 same in rw (sym e) (ap (λ t. d ∷ t) (prefix-drop delim s rest))

drop-nil : (n : ℕ) → drop {A = ℕ} n [] ≡ []
drop-nil zero = refl
drop-nil (suc n) = refl

-- After the characters that are passed over.
strstr_all-skip :
    (delim : CString) (skip : ℕ) (s : CString)
    → strstr_all delim skip s ≡ strstr_all delim 0 (drop skip s)
unfolding strstr_all
strstr_all-skip delim zero s = refl
strstr_all-skip delim (suc skip) [] = refl
strstr_all-skip delim (suc skip) (c ∷ s) = strstr_all-skip delim skip s

found :
    (d : ℕ) (delim : CString) (c : ℕ) (s : CString)
    → is_prefix (d ∷ delim) (c ∷ s) ≡ true
    → between (d ∷ delim) (strstr_all (d ∷ delim) (suc (strlen delim) - 1) s)
      ≡ drop (suc (strlen delim) - 1) s
    → between (d ∷ delim) ([] ∷ strstr_all (d ∷ delim) (suc (strlen delim) - 1) s) ≡ c ∷ s
found d delim c s e ih =
    let n : suc (strlen delim) - 1 ≡ strlen delim = omega arith in
    between-empty (d ∷ delim) _ (strstr_all-NonEmpty (d ∷ delim) (suc (strlen delim) - 1) s)
    ∙ ap (λ t. (d ∷ delim) ++ t) (ih ∙ ap (λ k. drop k s) n)
    ∙ sym (prefix-drop (d ∷ delim) (c ∷ s) e)

between-strstr_all :
    (d : ℕ) (delim : CString) (skip : ℕ) (s : CString)
    → between (d ∷ delim) (strstr_all (d ∷ delim) skip s) ≡ drop skip s
unfolding strstr_all between
between-strstr_all d delim skip [] = sym (drop-nil skip)
between-strstr_all d delim (suc skip) (c ∷ s) = between-strstr_all d delim skip s
between-strstr_all d delim zero (c ∷ s) = elim (Bool-cases (is_prefix (d ∷ delim) (c ∷ s))) [
  | inr e ↦
      rw (e, strstr_all)
        (between-cons_head (d ∷ delim) c (strstr_all (d ∷ delim) 0 s)
          ∙ ap (λ t. c ∷ t) (between-strstr_all d delim 0 s))
  | inl e ↦
      rw (e, strstr_all)
        (found d delim c s e (between-strstr_all d delim (suc (strlen delim) - 1) s))
]

-- A string that has not the character.
abbrev pub Without : ℕ → CString → Type 0
Without d [] = Unit
Without d (c ∷ s) = ((d == c) ≡ false) × Without d s

abbrev pub AllWithout : ℕ → List CString → Type 0
AllWithout d [] = Unit
AllWithout d (p ∷ ps) = Without d p × AllWithout d ps

abbrev cons_all : CString → List CString → List CString
cons_all p [] = p ∷ []
cons_all p (q ∷ ps) = (p ++ q) ∷ ps

cons_head-cons_all :
    (c : ℕ) (p : CString) (ps : List CString) → cons_head c (cons_all p ps) ≡ cons_all (c ∷ p) ps
cons_head-cons_all c p [] = refl
cons_head-cons_all c p (q ∷ ps) = refl

cons_all_nil : (ps : List CString) → NonEmpty ps → ps ≡ cons_all [] ps
cons_all_nil [] h = elim h [ ]
cons_all_nil (p ∷ ps) h = refl

no_prefix :
    (d : ℕ) (delim : CString) (c : ℕ) (s : CString)
    → (d == c) ≡ false
    → is_prefix (d ∷ delim) (c ∷ s) ≡ false
unfolding is_prefix
no_prefix d delim c s h = rw h refl

strstr_all-miss :
    (d : ℕ) (delim : CString) (c : ℕ) (s : CString)
    → (d == c) ≡ false
    → strstr_all (d ∷ delim) 0 (c ∷ s) ≡ cons_head c (strstr_all (d ∷ delim) 0 s)
unfolding strstr_all
strstr_all-miss d delim c s h = rw (no_prefix d delim c s h, strstr_all) refl

-- A piece that the delimiter cannot begin in is passed.
strstr_all-piece :
    (d : ℕ) (delim p s : CString)
    → Without d p
    → NonEmpty (strstr_all (d ∷ delim) 0 s)
    → strstr_all (d ∷ delim) 0 (p ++ s) ≡ cons_all p (strstr_all (d ∷ delim) 0 s)
strstr_all-piece d delim [] s h ne = cons_all_nil (strstr_all (d ∷ delim) 0 s) ne
strstr_all-piece d delim (c ∷ p) s (hc, h) ne =
    strstr_all-miss d delim c (p ++ s) hc
    ∙ ap (cons_head c) (strstr_all-piece d delim p s h ne)
    ∙ cons_head-cons_all c p (strstr_all (d ∷ delim) 0 s)

is_prefix-append : (delim s : CString) → is_prefix delim (delim ++ s) ≡ true
unfolding is_prefix
is_prefix-append [] s = refl
is_prefix-append (d ∷ delim) s = rw (==_refl d, is_prefix-append delim s) refl

drop-append_self : (xs ys : CString) → drop (strlen xs) (xs ++ ys) ≡ ys
drop-append_self [] ys = refl
drop-append_self (x ∷ xs) ys = drop-append_self xs ys

strstr_all-delim :
    (d : ℕ) (delim s : CString)
    → strstr_all (d ∷ delim) 0 ((d ∷ delim) ++ s) ≡ [] ∷ strstr_all (d ∷ delim) 0 s
unfolding strstr_all
strstr_all-delim d delim s =
    let n : suc (strlen delim) - 1 ≡ strlen delim = omega arith in
    rw
      (
        is_prefix-append (d ∷ delim) s,
        n,
        strstr_all-skip (d ∷ delim) (strlen delim) (delim ++ s),
        drop-append_self delim s,
        strstr_all,
      )
      refl

-- Behind the last piece nothing is left.
strstr_all-last : (d : ℕ) (delim p : CString) → cons_all p (strstr_all (d ∷ delim) 0 []) ≡ p ∷ []
unfolding strstr_all
strstr_all-last d delim p = ap (λ t. t ∷ []) (append-nil p)

pub strstr_all-between :
    (d : ℕ) (delim p : CString) (ps : List CString)
    → AllWithout d (p ∷ ps)
    → strstr_all (d ∷ delim) 0 (between (d ∷ delim) (p ∷ ps)) ≡ p ∷ ps
unfolding between
strstr_all-between d delim p [] (h, hs) =
    ap (strstr_all (d ∷ delim) 0) (sym (append-nil p))
    ∙ strstr_all-piece d delim p [] h (strstr_all-NonEmpty (d ∷ delim) 0 [])
    ∙ strstr_all-last d delim p
strstr_all-between d delim p (q ∷ ps) (h, hs) =
    strstr_all-piece d delim p _ h (strstr_all-NonEmpty (d ∷ delim) 0 _)
    ∙ ap (cons_all p)
        (strstr_all-delim d delim _ ∙ ap (λ t. [] ∷ t) (strstr_all-between d delim q ps hs))
    ∙ ap (λ t. t ∷ q ∷ ps) (append-nil p)

-- The pieces that clicon_strsplit finds, with the delimiter between them, are the string.
pub split-between :
    (granted : ℕ → Bool) (s delim : CString) (vec : List CString)
    → clicon_strsplit granted s delim ≡ value vec
    → between delim vec ≡ s
unfolding clicon_strsplit
split-between granted s [] vec h = absurd cc
split-between granted s (d ∷ delim) vec h =
    elim (Bool-cases (granted (vector_size (length (strstr_all (d ∷ delim) 0 s)) s))) [
      | inl e ↦
          let same : value (strstr_all (d ∷ delim) 0 s) ≡ value vec = sym (rw e refl) ∙ h in
          let eq : strstr_all (d ∷ delim) 0 s ≡ vec = cc in
          ap (between (d ∷ delim)) (sym eq) ∙ between-strstr_all d delim 0 s
      | inr e ↦ let bad : null ≡ value vec = sym (rw e refl) ∙ h in absurd cc
    ]
