-- ===== src/Hash/Keys.antt =====
-- The keys that `hash_keys` lists, and the memory that `hash_add` may not have.
use clicon.Base.{
  ℕ, zero, suc, ◌+◌, ◌≡◌, ◌≢◌, ◌<◌, ◌≤◌, refl, sym, ap, ◌∙◌, false, List, [], ◌∷◌, ◌++◌, map,
  Option, none, some, All, inl, inr, arith, if◌then◌else◌, ◌==◌, ==_iff, str_eq, eq_of_str_eq,
  Bool-cases, Option-cases,
}
use mathlib.Core.Path.{subst}
use clicon.Proto.Types.{CString}
use clicon.Hash.Table.{
  Entry, Chain, Table, Memory, hash_size, hash_bucket, find_key, hash_lookup, hash_add, add_new,
  add_old, hash_keys, keys_from,
}
use clicon.Hash.Chain.{Distinct}
use clicon.Hash.Laws.{IsValid, enough}

-- How often a key is in a list.
abbrev pub count : CString → List CString → ℕ
count key [] = 0
count key (k ∷ ks) = if str_eq k key then suc (count key ks) else count key ks

count-append :
    (key : CString) (xs ys : List CString) → count key (xs ++ ys) ≡ count key xs + count key ys
count-append key [] ys = omega arith
count-append key (x ∷ xs) ys = ground (arith, count-append key xs ys)

abbrev keys_of : Chain → List CString
keys_of chain = map (λ h. h.h_key) chain

abbrev pub occurs : Option Entry → ℕ
occurs none = 0
occurs (some h) = 1

count-absent :
    (key : CString) (chain : Chain)
    → All (λ h. str_eq h.h_key key ≡ false) chain
    → count key (keys_of chain) ≡ 0
count-absent key [] absent = refl
count-absent key (h ∷ rest) (differ, absent) = rw differ (count-absent key rest absent)

count-elsewhere :
    (key : CString) (bkt : ℕ) (chain : Chain)
    → All (λ h. hash_bucket h.h_key ≡ bkt) chain
    → bkt ≢ hash_bucket key
    → count key (keys_of chain) ≡ 0
count-elsewhere key bkt [] placed other = refl
count-elsewhere key bkt (h ∷ rest) (here, placed) other = elim (Bool-cases (str_eq h.h_key key)) [
  | inl same ↦
      let e = eq_of_str_eq h.h_key key same in elim (other (sym here ∙ ap hash_bucket e)) [ ]
  | inr differ ↦ rw differ (count-elsewhere key bkt rest placed other)
]

count-find_key :
    (key : CString) (chain : Chain)
    → Distinct chain
    → count key (keys_of chain) ≡ occurs (find_key key chain)
unfolding find_key
count-find_key key [] distinct = refl
count-find_key key (h ∷ rest) (apart, distinct) = elim (Bool-cases (str_eq h.h_key key)) [
  | inl same ↦
      let e = eq_of_str_eq h.h_key key same in
      let gone =
        count-absent key rest (subst (λ k. All (λ g. str_eq g.h_key k ≡ false) rest) e apart) in
      rw (same, gone) refl
  | inr differ ↦ rw differ (count-find_key key rest distinct)
]

differ_apart : (a b : ℕ) → (a == b) ≡ false → a ≢ b
differ_apart a b differ e = ground arith

module _ (hash : Table) (valid : IsValid hash) (key : CString) where
  count-before : (n bkt : ℕ) → hash_bucket key < bkt → count key (keys_from hash bkt n) ≡ 0
  unfolding keys_from
  count-before zero bkt before = refl
  count-before (suc n) bkt before =
      let here =
        count-elsewhere key bkt (hash bkt) (valid.placed bkt) (λ e. absurd (omega (arith, e))) in
      omega (
        arith,
        count-append key (keys_of (hash bkt)) (keys_from hash (suc bkt) n),
        here,
        count-before n (suc bkt) (omega arith),
      )

  count-within :
      (n bkt : ℕ)
      → bkt ≤ hash_bucket key
      → hash_bucket key < bkt + n
      → count key (keys_from hash bkt n) ≡ count key (keys_of (hash (hash_bucket key)))
  unfolding keys_from
  count-within zero bkt lower upper = absurd (omega arith)
  count-within (suc n) bkt lower upper = elim (Bool-cases (bkt == hash_bucket key)) [
    | inl same ↦
        let e : bkt ≡ hash_bucket key = (==_iff _ _).0 same in
        let after = count-before n (suc bkt) (omega (arith, e)) in
        omega (
          arith,
          count-append key (keys_of (hash bkt)) (keys_from hash (suc bkt) n),
          after,
          ap (λ b. count key (keys_of (hash b))) e,
        )
    | inr differ ↦
        let apart : bkt ≢ hash_bucket key = λ e. differ_apart bkt (hash_bucket key) differ e in
        let here = count-elsewhere key bkt (hash bkt) (valid.placed bkt) apart in
        let beyond : suc bkt ≤ hash_bucket key = omega (arith, apart) in
        omega (
          arith,
          count-append key (keys_of (hash bkt)) (keys_from hash (suc bkt) n),
          here,
          count-within n (suc bkt) beyond (omega arith),
        )
  ]

hash_bucket-bound : (key : CString) → hash_bucket key < hash_size
unfolding hash_bucket
hash_bucket-bound key = omega arith

-- `hash_keys` lists every key of the table exactly once, and no other key: how often a key is
-- listed is 1 where a look-up finds it, and 0 where it does not. Every key stands in its bucket, and
-- once.
pub count-hash_keys :
    (hash : Table) (key : CString)
    → IsValid hash
    → count key (hash_keys hash) ≡ occurs (hash_lookup hash key)
unfolding hash_keys hash_lookup
count-hash_keys hash key valid =
    let b = hash_bucket key in
    count-within hash valid key hash_size 0 (omega arith) (omega (arith, hash_bucket-bound key))
    ∙ count-find_key key (hash b) (valid.distinct b)

abbrev Refused : Memory → Table → Option Entry × Table → Type 0
Refused memory hash r = (r.1 ≡ hash) × (memory ≢ enough)

add_new-Refused :
    (memory : Memory) (hash : Table) (key : CString) (val : List ℕ)
    → (add_new memory hash key val).0 ≡ none
    → Refused memory hash (add_new memory hash key val)
unfolding add_new
add_new-Refused memory hash key val failed = (ground arith, λ e. ground (arith, e))

add_old-Refused :
    (memory : Memory) (hash : Table) (h : Entry) (key : CString) (val : List ℕ)
    → (add_old memory h hash key val).0 ≡ none
    → Refused memory hash (add_old memory h hash key val)
unfolding add_old
add_old-Refused memory hash h key val failed = (ground arith, λ e. ground (arith, e))

-- Where `hash_add` returns NULL, for want of whatever memory, the table is as it was; and it returns
-- NULL for no other reason: with all three allocations it does not.
pub hash_add-none :
    (memory : Memory) (hash : Table) (key : CString) (val : List ℕ)
    → (hash_add memory hash key val).0 ≡ none
    → ((hash_add memory hash key val).1 ≡ hash) × (memory ≢ enough)
unfolding hash_add
hash_add-none memory hash key val = elim (Option-cases (hash_lookup hash key)) [
  | inl new ↦ rw (hash_add, new) (add_new-Refused memory hash key val)
  | inr (h, old) ↦ rw (hash_add, old) (add_old-Refused memory hash h key val)
]
