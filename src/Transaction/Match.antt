-- ===== src/Transaction/Match.antt =====
-- Database keys against the keys of dependencies: apps/config/config_dbdep.c.
use clicon.Base.{
  ℕ, zero, suc, ◌+◌, Bool, true, false, ◌&&◌, List, [], ◌∷◌, Option, none, some, take, drop, leb,
  ◌==◌, if◌then◌else◌,
}
use clicon.Proto.Types.{CString}
pub mod Pattern
pub mod Literal

-- The characters with a meaning, and `isdigit`.
abbrev pub star : ℕ
star = 42

abbrev pub dot : ℕ
dot = 46

abbrev pub open_bracket : ℕ
open_bracket = 91

abbrev pub close_bracket : ℕ
close_bracket = 93

abbrev pub isdigit : ℕ → Bool
isdigit c = leb 48 c && leb c 57

-- How many digits a text begins with.
unfoldable pub digits : CString → ℕ
digits [] = 0
digits (c ∷ s) = elim (isdigit c) [ true ↦ suc (digits s) | false ↦ 0 ]

-- How far the index moves: to the last of the digits, or not at all where there are none.
unfoldable pub match_key_index : CString → Option ℕ
unfolding digits
match_key_index key = elim (digits key) [ zero ↦ none | suc n ↦ some n ]

-- The loop and what follows it, from the places `i` in the key and `j` in `skey`, of which the rests
-- are given; `i` comes back where a match ends.
unfoldable pub match_from : CString → CString → Bool → ℕ → Option ℕ
unfolding match_key_index
match_from [] [] vec i = if vec then none else some i
match_from [] (k ∷ key) vec i = none
match_from (s ∷ skey) [] vec i = elim skey [ [] ↦ if vec then none else some i | t ∷ rest ↦ none ]
match_from (s ∷ skey) (k ∷ key) vec i = elim (s == star) [
  | true ↦ some i
  | false ↦ elim vec [
    | true ↦ elim (s == close_bracket) [
      | true ↦ elim (match_key_index (k ∷ key)) [
        | none ↦ none
        | some n ↦ match_from skey (drop n key) false (suc (n + i))
      ]
      | false ↦ none
    ]
    | false ↦ elim (s == open_bracket && k == dot) [
      | true ↦ match_from skey key true (suc i)
      | false ↦ elim (k == s) [ true ↦ match_from skey key false (suc i) | false ↦ none ]
    ]
  ]
]

-- The part of the key that matches.
unfoldable pub dbdep_match_key : CString → CString → Option CString
unfolding match_from
dbdep_match_key key skey = elim (match_from skey key false 0) [
  | none ↦ none
  | some i ↦ some (take i key)
]

-- The first key of an entry that the database key matches, and the matched part.
unfoldable pub dbdep_match : List CString → CString → Option CString
unfolding dbdep_match_key
dbdep_match [] dbkey = none
dbdep_match (skey ∷ dent) dbkey = elim (dbdep_match_key dbkey skey) [
  | some match ↦ some match
  | none ↦ dbdep_match dent dbkey
]
