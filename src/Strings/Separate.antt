-- ===== src/Strings/Separate.antt =====
-- Separating the two parts of `a[b]` and of `a/b`.
use clicon.Base.{
  ℕ, ◌+◌, ◌≡◌, refl, Bool, true, false, ◌||◌, [], ◌∷◌, ◌++◌, none, some, arith, ==_refl, ◌==◌,
  append-nil,
}
use clicon.Proto.Types.{CString, strlen}
use clicon.Strings.{value, until, extension, with_extension, clicon_sep, duplicate}

-- No character of the string stops the search.
abbrev pub Passes : (ℕ → Bool) → CString → Type 0
Passes stop [] = Unit
Passes stop (c ∷ s) = (stop c ≡ false) × Passes stop s

pub until-Passes :
    (stop : ℕ → Bool) (a rest : CString)
    → Passes stop a
    → until stop (a ++ rest) ≡ (a ++ (until stop rest).0, (until stop rest).1)
unfolding until
until-Passes stop [] rest h = refl
until-Passes stop (c ∷ a) rest (hc, h) = rw (hc, until, until-Passes stop a rest h) refl

pub until-stop :
    (stop : ℕ → Bool) (c : ℕ) (s : CString) → stop c ≡ true → until stop (c ∷ s) ≡ ([], c ∷ s)
unfolding until
until-stop stop c s h = rw (h, until) refl

or_refl : (c e : ℕ) → (c == c || c == e) ≡ true
or_refl c e = ground arith

until-nil : (stop : ℕ → Bool) → until stop [] ≡ ([], [])
unfolding until
until-nil stop = refl

extension-found :
    (granted : ℕ → Bool) (sep0 sep1 : ℕ) (b rest : CString)
    → Passes (λ c. c == sep1) b
    → extension granted sep0 sep1 (sep0 ∷ (b ++ (sep1 ∷ rest))) ≡ some (duplicate granted b)
unfolding extension
extension-found granted sep0 sep1 b rest h =
    let e = until-Passes (λ c. c == sep1) b (sep1 ∷ rest) h in
    let stop = until-stop (λ c. c == sep1) sep1 rest (==_refl sep1) in
    rw (==_refl sep0, e, stop, append-nil b) refl

-- When neither separator occurs in `a`, and the second not in `b`, and there is memory, clicon_sep of `a`,
-- the first separator, `b` and the second gives both parts, whatever follows.
pub sep_two :
    (granted : ℕ → Bool) (sep0 sep1 : ℕ) (a b rest : CString)
    → Passes (λ c. c == sep0 || c == sep1) a
    → Passes (λ c. c == sep1) b
    → granted (strlen a + 1) ≡ true
    → granted (strlen b + 1) ≡ true
    → clicon_sep granted (a ++ (sep0 ∷ (b ++ (sep1 ∷ rest)))) sep0 sep1 ≡ value (a, some b)
unfolding clicon_sep duplicate with_extension
sep_two granted sep0 sep1 a b rest ha hb ga gb =
    let both : ℕ → Bool = λ c. c == sep0 || c == sep1 in
    let e = until-Passes both a (sep0 ∷ (b ++ (sep1 ∷ rest))) ha in
    let stop = until-stop both sep0 (b ++ (sep1 ∷ rest)) (or_refl sep0 sep1) in
    rw (e, stop, append-nil a, ga, extension-found granted sep0 sep1 b rest hb, gb) refl

-- A string that is passed to its end.
until-whole : (stop : ℕ → Bool) (a : CString) → Passes stop a → until stop a ≡ (a, [])
unfolding until
until-whole stop [] h = refl
until-whole stop (c ∷ a) (hc, h) = rw (hc, until, until-whole stop a h) refl

-- When neither separator occurs in the string and there is memory, clicon_sep gives it as the first part
-- and no second.
pub sep_one :
    (granted : ℕ → Bool) (sep0 sep1 : ℕ) (a : CString)
    → Passes (λ c. c == sep0 || c == sep1) a
    → granted (strlen a + 1) ≡ true
    → clicon_sep granted a sep0 sep1 ≡ value (a, none)
unfolding clicon_sep extension with_extension
sep_one granted sep0 sep1 a ha ga = rw (until-whole (λ c. c == sep0 || c == sep1) a ha, ga) refl
