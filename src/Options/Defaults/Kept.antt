-- ===== src/Options/Defaults/Kept.antt =====
-- What becomes of the value of an option in `clicon_option_default` of lib/src/clicon_options.c.
use clicon.Base.{
  ℕ, ◌+◌, ◌≡◌, refl, sym, ap, ◌∙◌, Bool, true, false, ◌&&◌, not, List, [], ◌∷◌, Option, none, some,
  if◌then◌else◌, str_eq, Bool-cases, inl, inr, str_eq_refl, eq_of_str_eq, All,
}
use mathlib.Core.Path.{subst}
use clicon.Proto.Types.{CString, strlen}
use clicon.Hash.Table.{Table, Entry, hash_lookup, hash_value, hash_add, value_of}
use clicon.Hash.Laws.{enough, hash_value-hash_add}
use clicon.Options.{with_nul, clicon_option_exists, is_some}
use clicon.Options.Defaults.{Default, set_default, set_defaults}

-- The value that there was, or else the default.
abbrev pub kept_or : Option (List ℕ) → CString → Option (List ℕ)
kept_or (some old) val = some old
kept_or none val = some (with_nul val)

and_false : (b : Bool) → (b && not true) ≡ false
and_false true = refl
and_false false = refl

kept-there :
    (o : Option Entry) (val : CString) → is_some o ≡ true → value_of o ≡ kept_or (value_of o) val
kept-there none val e = absurd cc
kept-there (some h) val e = refl

kept-missing :
    (o : Option Entry) (val : CString)
    → is_some o ≡ false
    → some (with_nul val) ≡ kept_or (value_of o) val
kept-missing none val e = refl
kept-missing (some h) val e = absurd cc

-- The names differ from one another.
unfoldable pub all_differ : CString → List Default → Bool
all_differ name [] = true
all_differ name (d ∷ ds) = not (str_eq name d.name) && all_differ name ds

unfoldable pub distinct : List Default → Bool
unfolding all_differ
distinct [] = true
distinct (d ∷ ds) = all_differ d.name ds && distinct ds

and_parts : (b c : Bool) → (b && c) ≡ true → (b ≡ true) × (c ≡ true)
and_parts true c e = (refl, e)
and_parts false c e = absurd cc

str_eq-false_sym : (a b : CString) → str_eq a b ≡ false → str_eq b a ≡ false
str_eq-false_sym a b apart = elim (Bool-cases (str_eq b a)) [
  | inr e ↦ e
  | inl e ↦
      let same = subst (λ x. str_eq a x ≡ true) (sym (eq_of_str_eq b a e)) (str_eq_refl a) in
      absurd cc
]

not-true : (b : Bool) → not b ≡ true → b ≡ false
not-true true e = absurd cc
not-true false e = refl

module _ (granted : ℕ → Bool) (dir : CString) (all : (n : ℕ) → granted n ≡ true) where
  -- The table after an option, where there is memory.
  abbrev next : Table → Default → Table
  unfolding clicon_option_exists
  next copt d =
      if clicon_option_exists copt d.name
      then copt
      else (hash_add enough copt d.name (with_nul (d.value_in dir))).1

  set_default-next :
      (copt : Table) (d : Default)
      → set_default granted (λ n. enough) dir copt d ≡ some (next copt d)
  unfolding set_default clicon_option_exists
  set_default-next copt d = elim (Bool-cases (is_some (hash_lookup copt d.name))) [
    | inl e ↦ rw (e, set_default) refl
    | inr e ↦ rw (e, all (strlen (d.value_in dir) + 1), and_false d.by_chunk, set_default) refl
  ]

  next-own :
      (copt : Table) (d : Default)
      → hash_value (next copt d) d.name ≡ kept_or (hash_value copt d.name) (d.value_in dir)
  unfolding clicon_option_exists hash_value
  next-own copt d = elim (Bool-cases (is_some (hash_lookup copt d.name))) [
    | inl e ↦ rw e (kept-there (hash_lookup copt d.name) (d.value_in dir) e)
    | inr e ↦ rw e (
        hash_value-hash_add copt d.name d.name (with_nul (d.value_in dir))
        ∙ ap (λ b. if b then some (with_nul (d.value_in dir)) else hash_value copt d.name)
            (str_eq_refl d.name)
        ∙ kept-missing (hash_lookup copt d.name) (d.value_in dir) e)
  ]

  next-other :
      (copt : Table) (d : Default) (other : CString)
      → str_eq d.name other ≡ false
      → hash_value (next copt d) other ≡ hash_value copt other
  unfolding clicon_option_exists
  next-other copt d other apart = elim (Bool-cases (is_some (hash_lookup copt d.name))) [
    | inl e ↦ rw e refl
    | inr e ↦ rw e (
        hash_value-hash_add copt d.name other (with_nul (d.value_in dir))
        ∙ ap (λ b. if b then some (with_nul (d.value_in dir)) else hash_value copt other) apart)
  ]

  set_defaults-next :
      (d : Default) (ds : List Default) (copt : Table)
      → set_defaults granted (λ n. enough) dir (d ∷ ds) copt
        ≡ set_defaults granted (λ n. enough) dir ds (next copt d)
  unfolding set_defaults
  set_defaults-next d ds copt = rw (set_default-next copt d, set_defaults) refl

  set_defaults-other :
      (name : CString) (ds : List Default) (copt : Table)
      → all_differ name ds ≡ true
      → hash_value (set_defaults granted (λ n. enough) dir ds copt) name ≡ hash_value copt name
  unfolding set_defaults all_differ
  set_defaults-other name [] copt differ = refl
  set_defaults-other name (d ∷ ds) copt differ =
      let (apart, rest) = and_parts _ _ differ in
      ap (λ t. hash_value t name) (set_defaults-next d ds copt)
      ∙ set_defaults-other name ds (next copt d) rest
      ∙ next-other copt d name (str_eq-false_sym _ _ (not-true _ apart))

  -- The option has its old value or the default.
  abbrev pub Valued : Table → Table → Default → Type 0
  Valued copt copt' d = hash_value copt' d.name ≡ kept_or (hash_value copt d.name) (d.value_in dir)

  Valued-next :
      (d : Default) (ds : List Default) (copt copt' : Table)
      → all_differ d.name ds ≡ true
      → All (Valued (next copt d) copt') ds
      → All (Valued copt copt') ds
  unfolding all_differ
  Valued-next d [] copt copt' differ h = tt
  Valued-next d (d' ∷ ds) copt copt' differ (h, hs) =
      let (apart, rest) = and_parts _ _ differ in
      (
        h ∙ ap (λ o. kept_or o (d'.value_in dir)) (next-other copt d d'.name (not-true _ apart)),
        Valued-next d ds copt copt' rest hs,
      )

  pub set_defaults-Valued :
      (ds : List Default) (copt : Table)
      → distinct ds ≡ true
      → All (Valued copt (set_defaults granted (λ n. enough) dir ds copt)) ds
  unfolding set_defaults distinct
  set_defaults-Valued [] copt differ = tt
  set_defaults-Valued (d ∷ ds) copt differ =
      let (apart, rest) = and_parts _ _ differ in
      subst (λ t. All (Valued copt t) (d ∷ ds)) (sym (set_defaults-next d ds copt))
        (
          set_defaults-other d.name ds (next copt d) apart ∙ next-own copt d,
          Valued-next d ds copt _ apart (set_defaults-Valued ds (next copt d) rest),
        )
