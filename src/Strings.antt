-- ===== src/Strings.antt =====
-- The string helpers: lib/src/clicon_string.c.
use clicon.Base.{
  ℕ, zero, suc, ◌+◌, ◌-◌, ◌*◌, Bool, true, false, ◌&&◌, ◌||◌, List, [], ◌∷◌, ◌++◌, Option, none,
  some, length, take, leb, ◌==◌, if◌then◌else◌,
}
use clicon.Proto.Types.{CString, strlen}
pub mod Split
pub mod Join
pub mod Trim
pub mod Separate
mod Tests

-- `hangs` is a loop without an end, and `faults` a read through NULL: no C values. `null` is the
-- pointer that a function returns for want of memory.
pub data Result (A : Type 0) : Type 0 where
  value : A → Result A
  null : Result A
  hangs : Result A
  faults : Result A

infixl 5 ◌>>=◌
abbrev pub ◌>>=◌ : {A B : Type 0} → Result A → (A → Result B) → Result B
value a >>= f = f a
null >>= f = null
hangs >>= f = hangs
faults >>= f = faults

-- `strchr(s, c) != NULL`, for a character that is not NUL.
unfoldable pub has_char : ℕ → CString → Bool
has_char c [] = false
has_char c (d ∷ s) = c == d || has_char c s

-- A character in front of the first piece.
abbrev pub cons_head : ℕ → List CString → List CString
cons_head c [] = (c ∷ []) ∷ []
cons_head c (p ∷ ps) = (c ∷ p) ∷ ps

-- What calls of `strsep` find until the string is used up.
unfoldable pub strsep_all : CString → CString → List CString
unfolding has_char
strsep_all delim [] = [] ∷ []
strsep_all delim (c ∷ s) =
    let rest = strsep_all delim s in if has_char c delim then [] ∷ rest else cons_head c rest

-- The string begins with the other.
unfoldable pub is_prefix : CString → CString → Bool
is_prefix [] s = true
is_prefix (d ∷ delim) [] = false
is_prefix (d ∷ delim) (c ∷ s) = d == c && is_prefix delim s

-- The pieces between what calls of `strstr` find, each behind the one before. `skip` characters of an
-- occurrence are still to be passed over.
unfoldable pub strstr_all : CString → ℕ → CString → List CString
unfolding is_prefix
strstr_all delim skip [] = [] ∷ []
strstr_all delim (suc skip) (c ∷ s) = strstr_all delim skip s
strstr_all delim zero (c ∷ s) = elim (is_prefix delim (c ∷ s)) [
  | true ↦ [] ∷ strstr_all delim (strlen delim - 1) s
  | false ↦ cons_head c (strstr_all delim 0 s)
]

-- A pointer has eight bytes. The vector and the text of its entries are one chunk.
abbrev pub vector_size : ℕ → CString → ℕ
vector_size nvec s = (nvec + 1) * 8 + strlen s + 1

-- `strncat(str, s, n)`.
abbrev strncat : CString → CString → ℕ → CString
strncat str s n = str ++ take n s

unfoldable pub total_length : List CString → ℕ
total_length [] = 0
total_length (s ∷ argv) = strlen s + total_length argv

-- The size of the chunk for the result.
unfoldable pub join_size : List CString → Option CString → ℕ
unfolding total_length
join_size argv none = total_length argv + 1
join_size argv (some delim) = total_length argv + strlen delim * length argv + 1

-- The entries from the second on. Without a delimiter `strncat` reads through NULL.
unfoldable pub join_rest : ℕ → CString → Option CString → List CString → Result CString
join_rest len str delim [] = value str
join_rest len str none (s ∷ argv) = faults
join_rest len str (some delim) (s ∷ argv) =
    let str' = strncat str delim (len - strlen str) in
    join_rest len (strncat str' s (len - strlen str')) (some delim) argv

unfoldable pub join_all : ℕ → Option CString → List CString → Result CString
unfolding join_rest
join_all len delim [] = value []
join_all len delim (s ∷ argv) = join_rest len (strncat [] s len) delim argv

-- `isspace` of the C locale.
abbrev pub isspace : ℕ → Bool
isspace c = c == 32 || (leb 9 c && leb c 13)

-- The text from its first character on that is not a space.
unfoldable pub skip_spaces : CString → CString
skip_spaces [] = []
skip_spaces (c ∷ s) = elim (isspace c) [ true ↦ skip_spaces s | false ↦ c ∷ s ]

-- The text up to its last such character.
unfoldable pub drop_spaces : CString → CString
drop_spaces [] = []
drop_spaces (c ∷ s) = elim (drop_spaces s) [
  | [] ↦ if isspace c then [] else c ∷ []
  | d ∷ rest ↦ c ∷ d ∷ rest
]

-- The text up to one of two separators, and what follows from the separator on.
unfoldable pub until : (ℕ → Bool) → CString → CString × CString
until stop [] = ([], [])
until stop (c ∷ s) = elim (stop c) [
  | true ↦ ([], c ∷ s)
  | false ↦ let (before, after) = until stop s in (c ∷ before, after)
]

with_extension : CString → Option (Result CString) → Result (CString × Option CString)
with_extension a none = value (a, none)
with_extension a (some b) = b >>= λ b. value (a, some b)

module _ (granted : ℕ → Bool) where
  -- The first copy is not checked for NULL: without it no entry is counted.
  unfoldable pub clicon_sepsplit : CString → CString → Result (List CString)
  unfolding strsep_all
  clicon_sepsplit s delim =
      let vec = if granted (strlen s + 1) then strsep_all delim s else [] in
      if granted (vector_size (length vec) s) then value vec else null

  -- `strstr` finds an empty delimiter again and again at the same place.
  unfoldable pub clicon_strsplit : CString → CString → Result (List CString)
  unfolding strstr_all
  clicon_strsplit s [] = hangs
  clicon_strsplit s (d ∷ delim) =
      let vec = strstr_all (d ∷ delim) 0 s in
      if granted (vector_size (length vec) s) then value vec else null

  unfoldable pub clicon_strjoin : List CString → Option CString → Result CString
  unfolding join_all join_size
  clicon_strjoin argv delim =
      let len = join_size argv delim in if granted len then join_all len delim argv else null

  -- The copy of the result by `strdup` is taken to be there.
  unfoldable pub clicon_strsub : CString → CString → CString → Result CString
  unfolding clicon_strsplit clicon_strjoin
  clicon_strsub s from to = do vec ← clicon_strsplit s from; clicon_strjoin vec (some to)

  unfoldable pub clicon_strtrim : CString → Result CString
  unfolding skip_spaces drop_spaces
  clicon_strtrim s =
      let new = drop_spaces (skip_spaces s) in if granted (strlen new + 1) then value new else null

  duplicate : CString → Result CString
  duplicate s = if granted (strlen s + 1) then value s else null

  -- The second part, if the first separator follows.
  extension : ℕ → ℕ → CString → Option (Result CString)
  unfolding until duplicate
  extension sep0 sep1 [] = none
  extension sep0 sep1 (c ∷ s) =
      if c == sep0 then some (duplicate (until (λ d. d == sep1) s).0) else none

  -- `clicon_sep(s, sep, label, &a, &b)`, with what it writes to `a` and `b`.
  unfoldable pub clicon_sep : CString → ℕ → ℕ → Result (CString × Option CString)
  unfolding with_extension extension until
  clicon_sep s sep0 sep1 =
      let (a, rest) = until (λ c. c == sep0 || c == sep1) s in
      if granted (strlen a + 1) then with_extension a (extension sep0 sep1 rest) else null

-- `clicon_strndup`: at most `len` characters.
unfoldable pub clicon_strndup : (ℕ → Bool) → CString → ℕ → Result CString
clicon_strndup malloced s len =
    let n = if leb len (strlen s) then len else strlen s in
    if malloced (n + 1) then value (take n s) else null
