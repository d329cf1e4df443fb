-- ===== src/Strings/Tests.antt =====
-- The string helpers on short texts, with all memory granted.
use clicon.Base.{ℕ, ◌≡◌, refl, Bool, true, List, [], ◌∷◌, some}
use clicon.Proto.Types.{CString}
use clicon.Strings.{value, hangs, clicon_strsplit, clicon_strjoin, clicon_strtrim, clicon_sep}
use clicon.Strings.Join.{strjoin-strsplit}

abbrev always : ℕ → Bool
always n = true

-- "a", "bc", and "a,bc".
abbrev parts : List CString
parts = (97 ∷ []) ∷ (98 ∷ 99 ∷ []) ∷ []

abbrev joined : CString
joined = 97 ∷ 44 ∷ 98 ∷ 99 ∷ []

split_on_nothing : clicon_strsplit always joined [] ≡ hangs
unfolding clicon_strsplit
split_on_nothing = refl

trimmed : clicon_strtrim always (32 ∷ 97 ∷ 32 ∷ 98 ∷ 10 ∷ []) ≡ value (97 ∷ 32 ∷ 98 ∷ [])
unfolding clicon_strtrim
trimmed = refl

separated : clicon_sep always (97 ∷ 91 ∷ 98 ∷ 93 ∷ []) 91 93 ≡ value (97 ∷ [], some (98 ∷ []))
unfolding clicon_sep
separated = refl

strjoin-strsplit_example : clicon_strjoin always parts (some (44 ∷ [])) ≡ value joined
unfolding clicon_strsplit
strjoin-strsplit_example = strjoin-strsplit always joined (44 ∷ []) parts refl refl
