-- ===== src/Strings/Trim.antt =====
-- Trimming white space.
use clicon.Base.{
  ℕ, ◌+◌, ◌≡◌, refl, sym, ap, ◌∙◌, Bool, true, false, [], ◌∷◌, ◌++◌, Bool-cases, inl, inr,
  if◌then◌else◌,
}
use mathlib.Core.Path.{subst}
use clicon.Proto.Types.{CString, strlen}
use clicon.Strings.{value, null, isspace, skip_spaces, drop_spaces, clicon_strtrim}

-- Only spaces.
abbrev pub AllSpaces : CString → Type 0
AllSpaces [] = Unit
AllSpaces (c ∷ s) = (isspace c ≡ true) × AllSpaces s

-- The text is empty, or its first character is not a space.
abbrev pub StartsBlack : CString → Type 0
StartsBlack [] = Unit
StartsBlack (c ∷ s) = isspace c ≡ false

-- The text is empty, or its last character is not a space.
abbrev pub EndsBlack : CString → Type 0
EndsBlack [] = Unit
EndsBlack (c ∷ []) = isspace c ≡ false
EndsBlack (c ∷ d ∷ s) = EndsBlack (d ∷ s)

-- The text within spaces: `s` is `new` with spaces on both sides.
abbrev pub Trimmed : CString → CString → Type 0
Trimmed s new =
    (before : CString) × (after : CString) × (s ≡ before ++ (new ++ after))
    × AllSpaces before
    × AllSpaces after
    × StartsBlack new
    × EndsBlack new

skip_lem :
    (s : CString)
    → (before : CString) × (s ≡ before ++ skip_spaces s)
      × AllSpaces before
      × StartsBlack (skip_spaces s)
unfolding skip_spaces
skip_lem [] = ([], refl, tt, tt)
skip_lem (c ∷ s) = elim (Bool-cases (isspace c)) [
  | inl e ↦
      let (before, eq, all, black) = skip_lem s in
      rw (e, skip_spaces) (c ∷ before, ap (λ t. c ∷ t) eq, (e, all), black)
  | inr e ↦ rw (e, skip_spaces) ([], refl, tt, e)
]

-- The cases of `drop_spaces` on a character more.
abbrev Dropped : CString → CString → Type 0
Dropped s kept = (after : CString) × (s ≡ kept ++ after) × AllSpaces after × EndsBlack kept

abbrev keep_black : ℕ → CString → CString
keep_black c [] = if isspace c then [] else c ∷ []
keep_black c (d ∷ rest) = c ∷ d ∷ rest

drop_spaces-keep_black : (c : ℕ) (s : CString) → drop_spaces (c ∷ s) ≡ keep_black c (drop_spaces s)
unfolding drop_spaces
drop_spaces-keep_black c s = elim (drop_spaces s) [ [] ↦ refl | d ∷ rest ↦ refl ]

keep_black-Dropped :
    (c : ℕ) (s kept : CString) → Dropped s kept → Dropped (c ∷ s) (keep_black c kept)
keep_black-Dropped c s [] (after, eq, all, black) = elim (Bool-cases (isspace c)) [
  | inl e ↦ rw e (c ∷ after, ap (λ t. c ∷ t) eq, (e, all), tt)
  | inr e ↦ rw e (after, ap (λ t. c ∷ t) eq, all, e)
]
keep_black-Dropped c s (d ∷ rest) (after, eq, all, black) = (after, ap (λ t. c ∷ t) eq, all, black)

drop_lem : (s : CString) → Dropped s (drop_spaces s)
unfolding drop_spaces
drop_lem [] = ([], refl, tt, tt)
drop_lem (c ∷ s) =
    subst (Dropped (c ∷ s)) (sym (drop_spaces-keep_black c s))
      (keep_black-Dropped c s (drop_spaces s) (drop_lem s))

-- Dropping at the end keeps the first character, if that is not a space.
drop_spaces-StartsBlack : (s : CString) → StartsBlack s → StartsBlack (drop_spaces s)
unfolding drop_spaces
drop_spaces-StartsBlack [] h = tt
drop_spaces-StartsBlack (c ∷ s) h =
    subst StartsBlack (sym (drop_spaces-keep_black c s)) (kept c (drop_spaces s) h)
  where
    kept : (c : ℕ) (k : CString) → isspace c ≡ false → StartsBlack (keep_black c k)
    kept c [] h = rw h h
    kept c (d ∷ rest) h = h

-- What clicon_strtrim gives is the string less spaces at both ends, and it neither begins nor ends
-- with one.
pub strtrim-Trimmed :
    (granted : ℕ → Bool) (s new : CString) → clicon_strtrim granted s ≡ value new → Trimmed s new
unfolding clicon_strtrim
strtrim-Trimmed granted s new h =
    let (before, eq, all, black) = skip_lem s in
    let (after, eq', all', black') = drop_lem (skip_spaces s) in
    let trimmed : Trimmed s (drop_spaces (skip_spaces s)) = (
      before,
      after,
      eq ∙ ap (λ t. before ++ t) eq',
      all,
      all',
      drop_spaces-StartsBlack (skip_spaces s) black,
      black',
    ) in
    elim (Bool-cases (granted (strlen (drop_spaces (skip_spaces s)) + 1))) [
      | inl e ↦
          let same : value (drop_spaces (skip_spaces s)) ≡ value new = sym (rw e refl) ∙ h in
          let eq'' : drop_spaces (skip_spaces s) ≡ new = cc in subst (Trimmed s) eq'' trimmed
      | inr e ↦ let bad : null ≡ value new = sym (rw e refl) ∙ h in absurd cc
    ]
