-- ===== src/Strings/Join.antt =====
-- Joining strings into one chunk.
use clicon.Base.{
  ℕ, zero, suc, ◌+◌, ◌-◌, ◌*◌, ◌≤◌, ◌<◌, ◌≡◌, refl, sym, ap, ◌∙◌, Bool, true, List, [], ◌∷◌, ◌++◌,
  some, length, take, arith, Bool-cases, inl, inr, append_assoc, append-nil, length-append,
}
use clicon.Proto.Types.{CString, strlen}
use clicon.Strings.{
  value, null, join_rest, join_all, join_size, total_length, strncat, clicon_strjoin,
  clicon_strsplit, clicon_strsub, strstr_all, vector_size,
}
use clicon.Strings.Split.{between, split-between, AllWithout, strstr_all-between}

-- The delimiter and the entry, for each entry.
unfoldable tail_text : CString → List CString → CString
tail_text delim [] = []
tail_text delim (s ∷ argv) = delim ++ (s ++ tail_text delim argv)

between-tail_text :
    (delim p : CString) (ps : List CString) → between delim (p ∷ ps) ≡ p ++ tail_text delim ps
unfolding between tail_text
between-tail_text delim p [] = sym (append-nil p)
between-tail_text delim p (q ∷ ps) = ap (λ t. p ++ (delim ++ t)) (between-tail_text delim q ps)

take_whole : (n : ℕ) (s : CString) → strlen s ≤ n → take n s ≡ s
take_whole zero [] h = refl
take_whole zero (c ∷ s) h = absurd (omega arith)
take_whole (suc n) [] h = refl
take_whole (suc n) (c ∷ s) h = ap (λ t. c ∷ t) (take_whole n s (omega arith))

strncat_whole : (str s : CString) (n : ℕ) → strlen s ≤ n → strncat str s n ≡ str ++ s
strncat_whole str s n h = ap (λ t. str ++ t) (take_whole n s h)

entry_length :
    (delim s : CString) (argv : List CString)
    → strlen (tail_text delim (s ∷ argv))
      ≡ strlen delim + (strlen s + strlen (tail_text delim argv))
unfolding tail_text
entry_length delim s argv = length-append delim _ ∙ ap (λ n. strlen delim + n) (length-append s _)

tail_length :
    (delim : CString) (argv : List CString)
    → strlen (tail_text delim argv) ≡ total_length argv + strlen delim * length argv
unfolding total_length tail_text
tail_length delim [] = omega arith
tail_length delim (s ∷ argv) =
    let e = entry_length delim s argv in let ih = tail_length delim argv in grind arith

join_rest-whole :
    (len : ℕ) (str delim : CString) (argv : List CString)
    → strlen str + strlen (tail_text delim argv) ≤ len
    → join_rest len str (some delim) argv ≡ value (str ++ tail_text delim argv)
unfolding join_rest tail_text
join_rest-whole len str delim [] h = ap value (sym (append-nil str))
join_rest-whole len str delim (s ∷ argv) h =
    let e = entry_length delim s argv in
    let e1 = strncat_whole str delim (len - strlen str) (omega arith) in
    let l1 = length-append str delim in
    let e2 = strncat_whole (str ++ delim) s (len - strlen (str ++ delim)) (omega arith) in
    let l2 = length-append (str ++ delim) s in
    rw (e1, e2)
      (join_rest-whole len ((str ++ delim) ++ s) delim argv (omega arith)
        ∙ ap value (append_assoc (str ++ delim) s _ ∙ append_assoc str delim _))

between_length :
    (delim p : CString) (ps : List CString)
    → strlen (between delim (p ∷ ps)) + strlen delim + 1 ≡ join_size (p ∷ ps) (some delim)
unfolding join_size total_length
between_length delim p ps =
    let e : strlen (between delim (p ∷ ps)) ≡ strlen (p ++ tail_text delim ps) =
      ap strlen (between-tail_text delim p ps) in
    let l = length-append p (tail_text delim ps) in let t = tail_length delim ps in grind arith

fits :
    (delim : CString) (argv : List CString)
    → strlen (between delim argv) < join_size argv (some delim)
unfolding join_size total_length between
fits delim [] = omega arith
fits delim (p ∷ ps) = let e = between_length delim p ps in omega arith

join_all-between :
    (delim : CString) (argv : List CString)
    → join_all (join_size argv (some delim)) (some delim) argv ≡ value (between delim argv)
unfolding join_all between
join_all-between delim [] = refl
join_all-between delim (p ∷ ps) =
    let b = between_length delim p ps in
    let l = ap strlen (between-tail_text delim p ps) ∙ length-append p (tail_text delim ps) in
    let e = take_whole (join_size (p ∷ ps) (some delim)) p (omega arith) in
    rw e (join_rest-whole (join_size (p ∷ ps) (some delim)) p delim ps (omega arith))
    ∙ ap value (sym (between-tail_text delim p ps))

-- With memory for the chunk clicon_strjoin gives the entries with the delimiter between them, none of
-- them cut short, and the text and its NUL are no longer than the chunk.
pub strjoin-between :
    (granted : ℕ → Bool) (argv : List CString) (delim : CString)
    → granted (join_size argv (some delim)) ≡ true
    → (clicon_strjoin granted argv (some delim) ≡ value (between delim argv))
      × (strlen (between delim argv) + 1 ≤ join_size argv (some delim))
unfolding clicon_strjoin
strjoin-between granted argv delim h =
    (rw h (join_all-between delim argv), let f = fits delim argv in omega arith)

-- When clicon_strsplit gives the pieces of a string and there is memory for the chunk, clicon_strjoin of
-- the pieces with the same delimiter gives the string again.
pub strjoin-strsplit :
    (granted : ℕ → Bool) (s delim : CString) (vec : List CString)
    → clicon_strsplit granted s delim ≡ value vec
    → granted (join_size vec (some delim)) ≡ true
    → clicon_strjoin granted vec (some delim) ≡ value s
strjoin-strsplit granted s delim vec h g =
    (strjoin-between granted vec delim g).0 ∙ ap value (split-between granted s delim vec h)

-- When the first character of the delimiter is in none of the entries, at least one of them, and there
-- is memory, clicon_strsplit of what clicon_strjoin made gives the entries again.
pub strsplit-strjoin :
    (granted : ℕ → Bool) (d : ℕ) (delim p : CString) (ps : List CString) (s : CString)
    → AllWithout d (p ∷ ps)
    → clicon_strjoin granted (p ∷ ps) (some (d ∷ delim)) ≡ value s
    → granted (vector_size (length (p ∷ ps)) s) ≡ true
    → clicon_strsplit granted s (d ∷ delim) ≡ value (p ∷ ps)
unfolding clicon_strsplit clicon_strjoin
strsplit-strjoin granted d delim p ps s w h g =
    elim (Bool-cases (granted (join_size (p ∷ ps) (some (d ∷ delim))))) [
      | inl e ↦
          let joined : value (between (d ∷ delim) (p ∷ ps)) ≡ value s =
            sym (strjoin-between granted (p ∷ ps) (d ∷ delim) e).0 ∙ h in
          let same : between (d ∷ delim) (p ∷ ps) ≡ s = cc in
          let pieces : strstr_all (d ∷ delim) 0 s ≡ p ∷ ps =
            ap (strstr_all (d ∷ delim) 0) (sym same) ∙ strstr_all-between d delim p ps w in
          rw (pieces, g) refl
      | inr e ↦ let bad : null ≡ value s = sym (rw e refl) ∙ h in absurd cc
    ]

-- Substituting a text by itself gives the string again, when there is memory for the pieces and for
-- the result.
pub strsub_same :
    (granted : ℕ → Bool) (s from : CString) (vec : List CString)
    → clicon_strsplit granted s from ≡ value vec
    → granted (join_size vec (some from)) ≡ true
    → clicon_strsub granted s from from ≡ value s
unfolding clicon_strsub
strsub_same granted s from vec h g = rw h (strjoin-strsplit granted s from vec h g)
