-- ===== src/Transaction/Match/Literal.antt =====
-- Patterns without special characters.
use clicon.Base.{
  ℕ, suc, ◌≡◌, refl, sym, ap, ◌∙◌, ◌↔◌, ◌⊎◌, inl, inr, false, [], ◌∷◌, ◌++◌, none, some, ◌==◌,
  ==_iff, Bool-cases, Option-cases, take,
}
use mathlib.Core.Path.{subst}
use clicon.Proto.Types.{CString}
use clicon.Transaction.Match.{star, open_bracket, match_from, dbdep_match_key}
use clicon.Transaction.Match.Pattern.{match_from-char}

-- A pattern of ordinary characters only.
abbrev pub Plain : CString → Type 0
Plain [] = Unit
Plain (c ∷ s) = (((c == star) ≡ false) × ((c == open_bracket) ≡ false)) × Plain s

-- The key is the pattern, or the pattern less its last character.
abbrev pub Within : CString → CString → Type 0
Within skey key = (skey ≡ key) ⊎ ((c : ℕ) × (skey ≡ key ++ c ∷ []))

unfoldable Matches : CString → CString → ℕ → Type 0
Matches skey key i = (n : ℕ) × (match_from skey key false i ≡ some n)

match_from-differ :
    (s k : ℕ) (skey key : CString) (i : ℕ)
    → (s == star) ≡ false
    → (s == open_bracket) ≡ false
    → (k == s) ≡ false
    → match_from (s ∷ skey) (k ∷ key) false i ≡ none
unfolding match_from
match_from-differ s k skey key i hs hb hk = rw (hs, hb, hk, match_from) refl

next_char : (s : ℕ) (skey key : CString) → Within skey key → Within (s ∷ skey) (s ∷ key)
next_char s skey key (inl e) = inl (ap (λ t. s ∷ t) e)
next_char s skey key (inr (c, e)) = inr (c, ap (λ t. s ∷ t) e)

equal-Matches : (skey : CString) (i : ℕ) → Plain skey → Matches skey skey i
unfolding match_from Matches
equal-Matches [] i plain = (i, refl)
equal-Matches (s ∷ skey) i ((hs, hb), plain) =
    let (n, e) = equal-Matches skey (suc i) plain in (n, match_from-char s skey skey i hs hb ∙ e)

longer-Matches :
    (key : CString) (c : ℕ) (i : ℕ) → Plain (key ++ c ∷ []) → Matches (key ++ c ∷ []) key i
unfolding match_from Matches
longer-Matches [] c i plain = (i, refl)
longer-Matches (k ∷ key) c i ((hs, hb), plain) =
    let (n, e) = longer-Matches key c (suc i) plain in
    (n, match_from-char k (key ++ c ∷ []) key i hs hb ∙ e)

Within-Matches : (skey key : CString) (i : ℕ) → Plain skey → Within skey key → Matches skey key i
Within-Matches skey key i plain (inl e) =
    subst (λ k. Matches skey k i) e (equal-Matches skey i plain)
Within-Matches skey key i plain (inr (c, e)) =
    subst (λ s. Matches s key i) (sym e) (longer-Matches key c i (subst Plain e plain))

Matches-Within : (skey key : CString) (i : ℕ) → Plain skey → Matches skey key i → Within skey key
unfolding match_from Matches
Matches-Within [] [] i plain m = inl refl
Matches-Within [] (k ∷ key) i plain (n, m) = absurd cc
Matches-Within (s ∷ []) [] i plain m = inr (s, refl)
Matches-Within (s ∷ t ∷ skey) [] i plain (n, m) = absurd cc
Matches-Within (s ∷ skey) (k ∷ key) i ((hs, hb), plain) (n, m) = elim (Bool-cases (k == s)) [
  | inr e ↦ let none_found = match_from-differ s k skey key i hs hb e in absurd cc
  | inl e ↦
      let same : k ≡ s = (==_iff k s).0 e in
      let stepped : match_from (s ∷ skey) (k ∷ key) false i ≡ match_from skey key false (suc i) =
        ap (λ c. match_from (s ∷ skey) (c ∷ key) false i) same
        ∙ match_from-char s skey key i hs hb in
      subst (λ c. Within (s ∷ skey) (c ∷ key)) (sym same)
        (next_char s skey key (Matches-Within skey key (suc i) plain (n, sym stepped ∙ m)))
]

match_from-some : (skey key t : CString) → dbdep_match_key key skey ≡ some t → Matches skey key 0
unfolding dbdep_match_key Matches
match_from-some skey key t = elim (Option-cases (match_from skey key false 0)) [
  | inl e ↦ rw (e, dbdep_match_key) (λ h. absurd cc)
  | inr (n, e) ↦ λ h. (n, e)
]

-- A pattern of ordinary characters is matched by exactly two keys: by itself, and by itself less its
-- last character, whatever character that is.
pub dbdep_match_key-Plain :
    (skey key : CString)
    → Plain skey
    → ((t : CString) × (dbdep_match_key key skey ≡ some t)) ↔ Within skey key
unfolding dbdep_match_key Matches
dbdep_match_key-Plain skey key plain = (
  λ (t, e). Matches-Within skey key 0 plain (match_from-some skey key t e),
  λ within.
      let (n, e) = Within-Matches skey key 0 plain within in
      (take n key, rw (e, dbdep_match_key) refl),
)
