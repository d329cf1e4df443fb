-- ===== src/Hash/Chain.antt =====
-- One bucket of a hash table as a map from keys to values.
use clicon.Base.{
  ℕ, ◌≡◌, ◌≢◌, refl, sym, ◌∙◌, true, false, List, [], ◌∷◌, none, some, All, inl, inr, if◌then◌else◌,
  str_eq, eq_of_str_eq, Bool-cases,
}
use mathlib.Core.Path.{subst}
use clicon.Proto.Types.{CString}
use clicon.Hash.Table.{Chain, value_of, find_key, replace_value, delete_key}

-- The keys of a chain differ.
abbrev pub Distinct : Chain → Type 0
Distinct [] = Unit {0}
Distinct (h ∷ rest) = All (λ g. str_eq g.h_key h.h_key ≡ false) rest × Distinct rest

str_eq_sym : (s t : CString) → str_eq s t ≡ str_eq t s
str_eq_sym s t = elim (Bool-cases (str_eq s t)) [
  | inl same ↦ let e = eq_of_str_eq s t same in rw e refl
  | inr differ ↦ elim (Bool-cases (str_eq t s)) [
    | inl same ↦ let e = eq_of_str_eq t s same in rw e refl
    | inr differ2 ↦ differ ∙ sym differ2
  ]
]

-- A string that equals one key differs from what that key differs from.
str_eq_apart : (s t u : CString) → str_eq s t ≡ true → str_eq s u ≡ false → str_eq t u ≡ false
str_eq_apart s t u same differ = let e = eq_of_str_eq s t same in rw (sym e) differ

pub find_key-replace_value :
    (key other : CString) (val : List ℕ) (chain : Chain)
    → find_key key chain ≢ none
    → value_of (find_key other (replace_value key val chain))
      ≡ (if str_eq key other then some val else value_of (find_key other chain))
unfolding find_key replace_value
find_key-replace_value key other val [] found = elim (found refl) [ ]
find_key-replace_value key other val (h ∷ rest) found = elim (Bool-cases (str_eq h.h_key key)) [
  | inl same ↦
      let e = eq_of_str_eq h.h_key key same in
      elim (Bool-cases (str_eq key other)) [
        | inl hit ↦ rw (same, e, hit) refl
        | inr miss ↦ rw (same, e, miss) refl
      ]
  | inr differ ↦
      let found_rest : find_key key rest ≢ none = λ n. found (rw (differ, n) refl) in
      let ih = find_key-replace_value key other val rest found_rest in
      elim (Bool-cases (str_eq h.h_key other)) [
        | inl hit ↦
            let apart = str_eq_apart h.h_key other key hit differ in
            let apart2 = str_eq_sym key other ∙ apart in rw (differ, hit, apart2) refl
        | inr miss ↦ rw (differ, miss) ih
      ]
]

find_key-absent :
    (key : CString) (chain : Chain)
    → All (λ g. str_eq g.h_key key ≡ false) chain
    → find_key key chain ≡ none
unfolding find_key
find_key-absent key [] absent = refl
find_key-absent key (h ∷ rest) (differ, absent) = rw differ (find_key-absent key rest absent)

-- After a key is deleted from a chain of different keys it is not there, and the others are.
pub find_key-delete_key :
    (key other : CString) (chain : Chain)
    → Distinct chain
    → value_of (find_key other (delete_key key chain))
      ≡ (if str_eq key other then none else value_of (find_key other chain))
unfolding find_key delete_key
find_key-delete_key key other [] distinct = elim (Bool-cases (str_eq key other)) [
  | inl hit ↦ rw hit refl
  | inr miss ↦ rw miss refl
]
find_key-delete_key key other (h ∷ rest) (apart, distinct) =
    elim (Bool-cases (str_eq h.h_key key)) [
      | inl same ↦
          let e = eq_of_str_eq h.h_key key same in
          elim (Bool-cases (str_eq key other)) [
            | inl hit ↦
                let e2 = eq_of_str_eq key other hit in
                let gone =
                  find_key-absent other rest
                    (subst (λ k. All (λ g. str_eq g.h_key k ≡ false) rest) (e ∙ e2) apart) in
                rw (same, hit, gone) refl
            | inr miss ↦ rw (same, e, miss) refl
          ]
      | inr differ ↦
          let ih = find_key-delete_key key other rest distinct in
          elim (Bool-cases (str_eq h.h_key other)) [
            | inl hit ↦
                let apart2 = str_eq_sym key other ∙ str_eq_apart h.h_key other key hit differ in
                rw (differ, hit, apart2) refl
            | inr miss ↦ rw (differ, miss) ih
          ]
    ]

-- What a chain without a key looks like, and what the writes to a chain keep.
pub find_key-none_apart :
    (key : CString) (chain : Chain)
    → find_key key chain ≡ none
    → All (λ g. str_eq g.h_key key ≡ false) chain
unfolding find_key
find_key-none_apart key [] none_found = tt
find_key-none_apart key (h ∷ rest) none_found = elim (Bool-cases (str_eq h.h_key key)) [
  | inl same ↦ let hit : find_key key (h ∷ rest) ≡ some h = rw same refl in cc
  | inr differ ↦
      let tail : find_key key (h ∷ rest) ≡ find_key key rest = rw differ refl in
      (differ, find_key-none_apart key rest (sym tail ∙ none_found))
]

module _ (P : CString → Type 0) where
  pub All-replace_value :
      (key : CString) (val : List ℕ) (chain : Chain)
      → All (λ g. P g.h_key) chain
      → All (λ g. P g.h_key) (replace_value key val chain)
  unfolding replace_value
  All-replace_value key val [] all = tt
  All-replace_value key val (h ∷ rest) (here, all) = elim (Bool-cases (str_eq h.h_key key)) [
    | inl same ↦ rw same (here, all)
    | inr differ ↦ rw differ (here, All-replace_value key val rest all)
  ]

  pub All-delete_key :
      (key : CString) (chain : Chain)
      → All (λ g. P g.h_key) chain
      → All (λ g. P g.h_key) (delete_key key chain)
  unfolding delete_key
  All-delete_key key [] all = tt
  All-delete_key key (h ∷ rest) (here, all) = elim (Bool-cases (str_eq h.h_key key)) [
    | inl same ↦ rw same all
    | inr differ ↦ rw differ (here, All-delete_key key rest all)
  ]

pub replace_value-Distinct :
    (key : CString) (val : List ℕ) (chain : Chain)
    → Distinct chain
    → Distinct (replace_value key val chain)
unfolding replace_value
replace_value-Distinct key val [] distinct = tt
replace_value-Distinct key val (h ∷ rest) (apart, distinct) =
    elim (Bool-cases (str_eq h.h_key key)) [
      | inl same ↦ rw same (apart, distinct)
      | inr differ ↦ rw differ (
        All-replace_value (λ k. str_eq k h.h_key ≡ false) key val rest apart,
        replace_value-Distinct key val rest distinct,
      )
    ]

pub delete_key-Distinct :
    (key : CString) (chain : Chain) → Distinct chain → Distinct (delete_key key chain)
unfolding delete_key
delete_key-Distinct key [] distinct = tt
delete_key-Distinct key (h ∷ rest) (apart, distinct) = elim (Bool-cases (str_eq h.h_key key)) [
  | inl same ↦ rw same distinct
  | inr differ ↦ rw differ (
    All-delete_key (λ k. str_eq k h.h_key ≡ false) key rest apart,
    delete_key-Distinct key rest distinct,
  )
]
