-- ===== src/Options/Access.antt =====
-- Setting options and getting them.
use clicon.Base.{
  ℕ, ◌≡◌, refl, sym, ap, ◌∙◌, Bool, true, false, List, [], ◌∷◌, ◌++◌, Option, none, some, ◌==◌, ◌<◌,
  arith, if◌then◌else◌, str_eq, append-nil,
}
use clicon.Proto.Types.{CString, IsCString}
use clicon.Hash.Table.{Table, Entry, hash_lookup, hash_value, hash_add, value_of}
use clicon.Hash.Laws.{enough, hash_value-hash_add}
use clicon.Strings.Separate.{Passes, until-Passes, until-stop}
use clicon.Options.{with_nul, string_at, string_of, clicon_option_str, clicon_option_str_set}

not_nul : (c : ℕ) → 0 < c → (c == 0) ≡ false
not_nul c h = ground arith

IsCString-Passes : (s : CString) → IsCString s → Passes (λ c. c == 0) s
IsCString-Passes [] h = tt
IsCString-Passes (c ∷ s) (hc, h) = (not_nul c hc, IsCString-Passes s h)

string_at-with_nul : (s : CString) → IsCString s → string_at (with_nul s) ≡ s
unfolding string_at
string_at-with_nul s h =
    ap (λ p. p.0) (until-Passes (λ c. c == 0) s (0 ∷ []) (IsCString-Passes s h))
    ∙ ap (λ p. s ++ p.0) (until-stop (λ c. c == 0) 0 [] refl)
    ∙ append-nil s

found_value :
    (o found : Option Entry)
    → o ≡ found
    → (elim o [ none ↦ none | some h ↦ string_of (value_of found) ]) ≡ string_of (value_of found)
unfolding string_of
found_value none found e = ap (λ t. string_of (value_of t)) e
found_value (some h) found e = refl

pub option_str-hash_value :
    (copt : Table) (name : CString) → clicon_option_str copt name ≡ string_of (hash_value copt name)
unfolding clicon_option_str hash_value
option_str-hash_value copt name = found_value (hash_lookup copt name) (hash_lookup copt name) refl

string_of-either :
    (b : Bool) (x y : Option (List ℕ))
    → string_of (if b then x else y) ≡ (if b then string_of x else string_of y)
string_of-either true x y = refl
string_of-either false x y = refl

-- After an option is set to a C string, with the memory for it, its value is that string, and
-- every other option has the value that it had.
pub option_str-set :
    (copt : Table) (name other val : CString)
    → IsCString val
    → clicon_option_str (clicon_option_str_set enough copt name val).1 other
      ≡ (if str_eq name other then some val else clicon_option_str copt other)
unfolding clicon_option_str_set string_of
option_str-set copt name other val h =
    let copt' = (hash_add enough copt name (with_nul val)).1 in
    option_str-hash_value copt' other
    ∙ ap string_of (hash_value-hash_add copt name other (with_nul val))
    ∙ string_of-either (str_eq name other) (some (with_nul val)) (hash_value copt other)
    ∙ ap (λ v. if str_eq name other then some v else string_of (hash_value copt other))
        (string_at-with_nul val h)
    ∙ ap (λ v. if str_eq name other then some val else v) (sym (option_str-hash_value copt other))
