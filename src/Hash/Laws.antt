-- ===== src/Hash/Laws.antt =====
-- A hash table as a map from keys to values: what `hash_add` and `hash_del` do to `hash_value`, and
-- the form that the tables have.
use clicon.Base.{
  ℕ, ◌≡◌, ◌≢◌, refl, sym, ◌∙◌, Bool, true, false, List, ◌∷◌, Option, none, some, All, inl, inr,
  if◌then◌else◌, ◌==◌, ==_refl, ==_iff, str_eq, eq_of_str_eq, Bool-cases, Option-cases,
}
use mathlib.Core.Path.{subst}
use clicon.Proto.Types.{CString}
use clicon.Hash.Table.{
  Entry, Chain, Table, Memory, hash_bucket, hash_init, value_of, find_key, hash_lookup, hash_value,
  replace_value, delete_key, set_bucket, hash_add, hash_del, add_new, add_old,
}
use clicon.Hash.Chain.{
  Distinct, find_key-replace_value, find_key-delete_key, find_key-none_apart, All-replace_value,
  All-delete_key, replace_value-Distinct, delete_key-Distinct,
}

-- Every key stands in the bucket that it hashes to, and once.
pub record IsValid (hash : Table) : Type 0 where
  pub placed : (bkt : ℕ) → All (λ h. hash_bucket h.h_key ≡ bkt) (hash bkt)
  pub distinct : (bkt : ℕ) → Distinct (hash bkt)

update-value :
    (hash : Table) (key : CString) (chain : Chain) (new : Option (List ℕ))
    → ((other : CString)
        → value_of (find_key other chain)
          ≡ (if str_eq key other then new else value_of (find_key other (hash (hash_bucket key)))))
    → (other : CString)
    → hash_value (set_bucket hash (hash_bucket key) chain) other
      ≡ (if str_eq key other then new else hash_value hash other)
unfolding hash_value hash_lookup set_bucket
update-value hash key chain new h other = elim (Bool-cases (hash_bucket other == hash_bucket key)) [
  | inl same ↦
      let e : hash_bucket other ≡ hash_bucket key = (==_iff _ _).0 same in rw (same, e) (h other)
  | inr differ ↦ elim (Bool-cases (str_eq key other)) [
    | inl hit ↦
        let e = eq_of_str_eq key other hit in
        let same : (hash_bucket other == hash_bucket key) ≡ true = rw e (==_refl _) in cc
    | inr miss ↦ rw (differ, miss) refl
  ]
]

abbrev pub enough : Memory
enough = record { for_entry = true; for_key = true; for_value = true }

head_value :
    (key other : CString) (val : List ℕ) (chain : Chain)
    → value_of (find_key other (record { h_key = key; h_val = val } ∷ chain))
      ≡ (if str_eq key other then some val else value_of (find_key other chain))
unfolding find_key
head_value key other val chain = elim (Bool-cases (str_eq key other)) [
  | inl hit ↦ rw hit refl
  | inr miss ↦ rw miss refl
]

some-ne-none : (h : Entry) → some h ≢ none
some-ne-none h e = cc

add_new-value :
    (hash : Table) (key : CString) (val : List ℕ) (other : CString)
    → hash_value (add_new enough hash key val).1 other
      ≡ (if str_eq key other then some val else hash_value hash other)
unfolding add_new
add_new-value hash key val other =
    update-value hash key (record { h_key = key; h_val = val } ∷ hash (hash_bucket key)) (some val)
      (λ k. head_value key k val (hash (hash_bucket key))) other

add_old-value :
    (hash : Table) (h : Entry) (key : CString) (val : List ℕ) (other : CString)
    → hash_lookup hash key ≢ none
    → hash_value (add_old enough h hash key val).1 other
      ≡ (if str_eq key other then some val else hash_value hash other)
unfolding add_old hash_lookup
add_old-value hash h key val other found =
    update-value hash key (replace_value key val (hash (hash_bucket key))) (some val)
      (λ k. find_key-replace_value key k val (hash (hash_bucket key)) found) other

-- After a value is added under a key, looking up that key gives the value, and every other key what
-- it gave before, collisions of buckets or not. The memory for the entry, the key and the value is
-- there.
pub hash_value-hash_add :
    (hash : Table) (key other : CString) (val : List ℕ)
    → hash_value (hash_add enough hash key val).1 other
      ≡ (if str_eq key other then some val else hash_value hash other)
unfolding hash_add
hash_value-hash_add hash key other val = elim (Option-cases (hash_lookup hash key)) [
  | inl new ↦ rw (hash_add, new) (add_new-value hash key val other)
  | inr (h, old) ↦
      rw (hash_add, old) (add_old-value hash h key val other (λ n. some-ne-none h (sym old ∙ n)))
]

missing_value :
    (hash : Table) (key other : CString)
    → hash_lookup hash key ≡ none
    → hash_value hash other ≡ (if str_eq key other then none else hash_value hash other)
unfolding hash_value
missing_value hash key other missing = elim (Bool-cases (str_eq key other)) [
  | inl hit ↦ let e = eq_of_str_eq key other hit in rw (hit, sym e, missing) refl
  | inr miss ↦ rw miss refl
]

-- Deleting a key of a table in which every key stands once, in its bucket: it is there no longer,
-- and every other key has the value it had.
pub hash_value-hash_del :
    (hash : Table) (key other : CString)
    → IsValid hash
    → hash_value (hash_del hash key).1 other
      ≡ (if str_eq key other then none else hash_value hash other)
unfolding hash_del
hash_value-hash_del hash key other valid = elim (Option-cases (hash_lookup hash key)) [
  | inl missing ↦ rw (hash_del, missing) (missing_value hash key other missing)
  | inr (h, old) ↦
      rw (hash_del, old)
        (update-value hash key (delete_key key (hash (hash_bucket key))) none
          (λ k.
            find_key-delete_key key k (hash (hash_bucket key)) (valid.distinct (hash_bucket key)))
          other)
]

either :
    (b : Bool) (r s : Option Entry × Table)
    → IsValid r.1
    → IsValid s.1
    → IsValid (if b then r else s).1
either true r s hr hs = hr
either false r s hr hs = hs

-- The form of the tables: every operation keeps each key in its bucket, and once.
module _ (hash : Table) (valid : IsValid hash) where
  set_bucket-IsValid :
      (key : CString) (chain : Chain)
      → All (λ h. hash_bucket h.h_key ≡ hash_bucket key) chain
      → Distinct chain
      → IsValid (set_bucket hash (hash_bucket key) chain)
  unfolding set_bucket
  set_bucket-IsValid key chain placed distinct = record {
    placed = λ bkt. elim (Bool-cases (bkt == hash_bucket key)) [
      | inl same ↦
          let e : bkt ≡ hash_bucket key = (==_iff _ _).0 same in
          rw same (subst (λ b. All (λ h. hash_bucket h.h_key ≡ b) chain) (sym e) placed)
      | inr differ ↦ rw differ (valid.placed bkt)
    ];
    distinct = λ bkt. elim (Bool-cases (bkt == hash_bucket key)) [
      | inl same ↦ rw same distinct
      | inr differ ↦ rw differ (valid.distinct bkt)
    ];
  }

  add_new-IsValid :
      (memory : Memory) (key : CString) (val : List ℕ)
      → hash_lookup hash key ≡ none
      → IsValid (add_new memory hash key val).1
  unfolding add_new hash_lookup
  add_new-IsValid memory key val missing =
      let added =
        set_bucket-IsValid key (record { h_key = key; h_val = val } ∷ hash (hash_bucket key))
          (refl, valid.placed (hash_bucket key))
          (
            find_key-none_apart key (hash (hash_bucket key)) missing,
            valid.distinct (hash_bucket key),
          ) in
      either memory.for_entry _ _
        (either memory.for_key _ _ (either memory.for_value _ _ added valid) valid) valid

  add_old-IsValid :
      (memory : Memory) (h : Entry) (key : CString) (val : List ℕ)
      → IsValid (add_old memory h hash key val).1
  unfolding add_old
  add_old-IsValid memory h key val =
      let b = hash_bucket key in
      let replaced =
        set_bucket-IsValid key (replace_value key val (hash b))
          (All-replace_value (λ k. hash_bucket k ≡ b) key val (hash b) (valid.placed b))
          (replace_value-Distinct key val (hash b) (valid.distinct b)) in
      either memory.for_value _ _ replaced valid

  -- Adding under a key, whatever memory there is, keeps every key in its bucket, and once.
  pub hash_add-IsValid :
      (memory : Memory) (key : CString) (val : List ℕ) → IsValid (hash_add memory hash key val).1
  unfolding hash_add
  hash_add-IsValid memory key val = elim (Option-cases (hash_lookup hash key)) [
    | inl new ↦ rw (hash_add, new) (add_new-IsValid memory key val new)
    | inr (h, old) ↦ rw (hash_add, old) (add_old-IsValid memory h key val)
  ]

  -- Deleting a key keeps every key in its bucket, and once.
  pub hash_del-IsValid : (key : CString) → IsValid (hash_del hash key).1
  unfolding hash_del
  hash_del-IsValid key =
      let b = hash_bucket key in
      elim (Option-cases (hash_lookup hash key)) [
        | inl missing ↦ rw (hash_del, missing) valid
        | inr (h, old) ↦
            rw (hash_del, old)
              (set_bucket-IsValid key (delete_key key (hash b))
                (All-delete_key (λ k. hash_bucket k ≡ b) key (hash b) (valid.placed b))
                (delete_key-Distinct key (hash b) (valid.distinct b)))
      ]

pub hash_init-IsValid : IsValid hash_init
hash_init-IsValid = record { placed = λ bkt. tt; distinct = λ bkt. tt }
