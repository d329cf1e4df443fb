-- ===== src/Hash/Table.antt =====
-- lib/src/clicon_hash.c. A bucket is a ring of lib/clicon/clicon_queue.h, here the list of its
-- elements from the head on; the array of buckets is a function.
use clicon.Base.{
  ℕ, zero, suc, ◌+◌, ◌-◌, ◌%◌, ◌^◌, Bool, true, false, List, [], ◌∷◌, ◌++◌, map, Option, none, some,
  ltb, ◌==◌, if◌then◌else◌, str_eq,
}
use clicon.Proto.Types.{CString}

-- `struct clicon_hash` without its links. `h_vlen` is the length of `h_val`.
pub record Entry : Type 0 where
  pub h_key : CString
  pub h_val : List ℕ

abbrev pub Chain : Type 0
Chain = List Entry

abbrev pub Table : Type 0
Table = ℕ → Chain

-- HASH_SIZE.
abbrev pub hash_size : ℕ
hash_size = 1031

-- `(uint32_t)*str`: a `char` is signed, and a negative one is extended to 32 bits.
abbrev pub char_word : ℕ → ℕ
char_word c = if ltb c 128 then c else c + (2 ^ 32 - 256)

unfoldable sum_from : ℕ → CString → ℕ
sum_from n [] = n
sum_from n (c ∷ str) = sum_from ((n + char_word c) % 2 ^ 32) str

unfoldable pub hash_bucket : CString → ℕ
unfolding sum_from
hash_bucket str = sum_from 0 str % hash_size

abbrev pub hash_init : Table
hash_init = λ bkt. []

-- The walk around the ring.
unfoldable pub find_key : CString → Chain → Option Entry
find_key key [] = none
find_key key (h ∷ rest) = if str_eq h.h_key key then some h else find_key key rest

unfoldable pub hash_lookup : Table → CString → Option Entry
unfolding find_key hash_bucket
hash_lookup hash key = find_key key (hash (hash_bucket key))

abbrev pub value_of : Option Entry → Option (List ℕ)
value_of none = none
value_of (some h) = some h.h_val

-- Also the length, where the caller asks for it.
unfoldable pub hash_value : Table → CString → Option (List ℕ)
unfolding hash_lookup
hash_value hash key = value_of (hash_lookup hash key)

-- What the three allocations of `hash_add` have.
pub record Memory : Type 0 where
  pub for_entry : Bool
  pub for_key : Bool
  pub for_value : Bool

-- The new value is written through the pointer to the entry that was found.
unfoldable pub replace_value : CString → List ℕ → Chain → Chain
replace_value key val [] = []
replace_value key val (h ∷ rest) =
    if str_eq h.h_key key then record h { h_val = val } ∷ rest else h ∷ replace_value key val rest

unfoldable pub set_bucket : Table → ℕ → Chain → Table
set_bucket hash bkt chain = λ i. if i == bkt then chain else hash i

unfoldable pub add_new : Memory → Table → CString → List ℕ → Option Entry × Table
unfolding set_bucket hash_bucket
add_new memory hash key val =
    if memory.for_entry
    then if memory.for_key
      then if memory.for_value
        then (
          some (record { h_key = key; h_val = val }),
          set_bucket hash (hash_bucket key)
              (record { h_key = key; h_val = val } ∷ hash (hash_bucket key)),
        )
        else (none, hash)
      else (none, hash)
    else (none, hash)

unfoldable pub add_old : Memory → Entry → Table → CString → List ℕ → Option Entry × Table
unfolding set_bucket hash_bucket replace_value
add_old memory h hash key val =
    if memory.for_value
    then (
      some (record h { h_val = val }),
      set_bucket hash (hash_bucket key) (replace_value key val (hash (hash_bucket key))),
    )
    else (none, hash)

-- `INSQ` puts a new entry at the head of its ring.
unfoldable pub hash_add : Memory → Table → CString → List ℕ → Option Entry × Table
unfolding add_new add_old
hash_add memory hash key val = elim (hash_lookup hash key) [
  | none ↦ add_new memory hash key val
  | some h ↦ add_old memory h hash key val
]

-- `DELQ` of the entry that was found.
unfoldable pub delete_key : CString → Chain → Chain
delete_key key [] = []
delete_key key (h ∷ rest) = if str_eq h.h_key key then rest else h ∷ delete_key key rest

-- True where the source returns 0.
unfoldable pub hash_del : Table → CString → Bool × Table
unfolding set_bucket delete_key hash_bucket
hash_del hash key = elim (hash_lookup hash key) [
  | none ↦ (false, hash)
  | some h ↦ (true, set_bucket hash (hash_bucket key) (delete_key key (hash (hash_bucket key))))
]

unfoldable pub keys_from : Table → ℕ → ℕ → List CString
keys_from hash bkt zero = []
keys_from hash bkt (suc n) = map (λ h. h.h_key) (hash bkt) ++ keys_from hash (suc bkt) n

-- The keys of bucket 0 to HASH_SIZE - 1, where `realloc` has the memory for them.
unfoldable pub hash_keys : Table → List CString
unfolding keys_from
hash_keys hash = keys_from hash 0 hash_size
