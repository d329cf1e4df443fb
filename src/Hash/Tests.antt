-- ===== src/Hash/Tests.antt =====
-- A table with two keys in one bucket.
use clicon.Base.{ℕ, ◌≡◌, refl, true, false, [], ◌∷◌, str_eq}
use clicon.Proto.Types.{CString}
use clicon.Hash.Table.{
  Memory, Table, hash_bucket, hash_init, hash_lookup, hash_value, hash_add, hash_del, hash_keys,
  keys_from, find_key, set_bucket, replace_value, delete_key,
}
use clicon.Hash.Laws.{
  IsValid, enough, hash_init-IsValid, hash_add-IsValid, hash_value-hash_add, hash_value-hash_del,
}
use clicon.Hash.Keys.{count, count-hash_keys}

abbrev ab : CString
ab = b'a' ∷ b'b' ∷ []

abbrev ba : CString
ba = b'b' ∷ b'a' ∷ []

program : ℕ
unfolding hash_bucket hash_lookup hash_value hash_add hash_del hash_keys keys_from find_key
    set_bucket replace_value delete_key str_eq
program = 0

abbrev one : Table
one = (hash_add enough hash_init ab (1 ∷ [])).1

abbrev two : Table
two = (hash_add enough one ba (2 ∷ [])).1

two-IsValid : IsValid two
two-IsValid =
    hash_add-IsValid one (hash_add-IsValid hash_init hash_init-IsValid enough ab (1 ∷ [])) enough ba
      (2 ∷ [])

collision : hash_bucket ab ≡ hash_bucket ba
unfolding program
collision = refl

hash_value-hash_add_example : hash_value two ab ≡ hash_value one ab
unfolding program
hash_value-hash_add_example = hash_value-hash_add one ba ab (2 ∷ [])

hash_value-hash_del_example : hash_value (hash_del two ba).1 ab ≡ hash_value two ab
unfolding program
hash_value-hash_del_example = hash_value-hash_del two ba ab two-IsValid

count-hash_keys_example : count ab (hash_keys two) ≡ 1
unfolding program
count-hash_keys_example = count-hash_keys two ab two-IsValid

abbrev no_value : Memory
no_value = record { for_entry = true; for_key = true; for_value = false }
