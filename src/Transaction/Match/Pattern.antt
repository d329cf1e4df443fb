-- ===== src/Transaction/Match/Pattern.antt =====
-- The pattern of a key, in which every index is left open, matches the key.
use clicon.Base.{
  ℕ, suc, ◌+◌, ◌≡◌, refl, sym, ap, ◌∙◌, true, false, List, [], ◌∷◌, ◌++◌, some, length, drop-append,
  take-append, length-append, append_assoc, append-nil, arith, ◌==◌, ==_refl,
}
use clicon.Proto.Types.{CString}
use clicon.Transaction.Match.{
  star, dot, open_bracket, close_bracket, isdigit, digits, match_key_index, match_from,
  dbdep_match_key,
}

-- A key in pieces: a character as it stands, or a dot and an index of at least one digit.
pub data Piece : Type 0 where
  char : ℕ → Piece
  index : ℕ → CString → Piece

unfoldable pub key_of : List Piece → CString
key_of [] = []
key_of (char c ∷ ps) = c ∷ key_of ps
key_of (index d ds ∷ ps) = dot ∷ d ∷ (ds ++ key_of ps)

unfoldable pub pattern_of : List Piece → CString
pattern_of [] = []
pattern_of (char c ∷ ps) = c ∷ pattern_of ps
pattern_of (index d ds ∷ ps) = open_bracket ∷ close_bracket ∷ pattern_of ps

abbrev pub AllDigits : CString → Type 0
AllDigits [] = Unit
AllDigits (c ∷ s) = (isdigit c ≡ true) × AllDigits s

-- A text that does not go on with a digit.
abbrev pub NoDigit : CString → Type 0
NoDigit [] = Unit
NoDigit (c ∷ s) = isdigit c ≡ false

-- Characters are none of `*` and `[`, indices are digits, and what follows an index is not a digit.
-- `rest` follows the whole key.
unfoldable pub Spelled : List Piece → CString → Type 0
unfolding key_of
Spelled [] rest = Unit
Spelled (char c ∷ ps) rest =
    (((c == star) ≡ false) × ((c == open_bracket) ≡ false)) × Spelled ps rest
Spelled (index d ds ∷ ps) rest = AllDigits (d ∷ ds) × NoDigit (key_of ps ++ rest) × Spelled ps rest

digits-append : (ds rest : CString) → AllDigits ds → NoDigit rest → digits (ds ++ rest) ≡ length ds
unfolding digits
digits-append [] [] hd hn = refl
digits-append [] (c ∷ rest) hd hn = rw (hn, digits) refl
digits-append (d ∷ ds) rest (h, hd) hn = rw (h, digits) (ap suc (digits-append ds rest hd hn))

index_lem :
    (d : ℕ) (ds rest : CString)
    → AllDigits (d ∷ ds)
    → NoDigit rest
    → match_key_index (d ∷ (ds ++ rest)) ≡ some (length ds)
unfolding match_key_index
index_lem d ds rest hd hn = rw (digits-append (d ∷ ds) rest hd hn, match_key_index) refl

pub match_from-char :
    (c : ℕ) (skey key : CString) (i : ℕ)
    → (c == star) ≡ false
    → (c == open_bracket) ≡ false
    → match_from (c ∷ skey) (c ∷ key) false i ≡ match_from skey key false (suc i)
unfolding match_from
match_from-char c skey key i hs hb = rw (hs, hb, ==_refl c, match_from) refl

match_from-index :
    (d : ℕ) (ds rest skey : CString) (i : ℕ)
    → AllDigits (d ∷ ds)
    → NoDigit rest
    → match_from (open_bracket ∷ close_bracket ∷ skey) (dot ∷ d ∷ (ds ++ rest)) false i
      ≡ match_from skey rest false (suc (length ds + suc i))
unfolding match_from
match_from-index d ds rest skey i hd hn =
    rw (index_lem d ds rest hd hn, drop-append (length ds) ds rest refl, match_from) refl

-- The loop goes over pieces that its pattern has.
match_from-pieces :
    (ps : List Piece) (rest skey : CString) (i : ℕ)
    → Spelled ps rest
    → match_from (pattern_of ps ++ skey) (key_of ps ++ rest) false i
      ≡ match_from skey rest false (length (key_of ps) + i)
unfolding match_from key_of pattern_of Spelled
match_from-pieces [] rest skey i h = ap (match_from skey rest false) (omega arith)
match_from-pieces (char c ∷ ps) rest skey i ((hs, hb), h) =
    match_from-char c (pattern_of ps ++ skey) (key_of ps ++ rest) i hs hb
    ∙ match_from-pieces ps rest skey (suc i) h
    ∙ ap (match_from skey rest false) (omega arith)
match_from-pieces (index d ds ∷ ps) rest skey i (hd, hn, h) =
    ap
      (λ t.
        match_from (open_bracket ∷ close_bracket ∷ (pattern_of ps ++ skey)) (dot ∷ d ∷ t) false i)
      (append_assoc ds (key_of ps) rest)
    ∙ match_from-index d ds (key_of ps ++ rest) (pattern_of ps ++ skey) i hd hn
    ∙ match_from-pieces ps rest skey (suc (length ds + suc i)) h
    ∙ ap (match_from skey rest false) (omega (arith, length-append ds (key_of ps)))

-- A key with `rest` behind it, and its pattern with `skey` behind it.
whole_key :
    (ps : List Piece) (rest skey : CString)
    → Spelled ps rest
    → match_from skey rest false (length (key_of ps)) ≡ some (length (key_of ps))
    → dbdep_match_key (key_of ps ++ rest) (pattern_of ps ++ skey) ≡ some (key_of ps)
unfolding dbdep_match_key
whole_key ps rest skey h ended =
    let from : match_from (pattern_of ps ++ skey) (key_of ps ++ rest) false 0
        ≡ some (length (key_of ps)) =
      match_from-pieces ps rest skey 0 h ∙ ap (match_from skey rest false) (omega arith) ∙ ended in
    rw (from, take-append (length (key_of ps)) (key_of ps) rest refl, dbdep_match_key) refl

-- A key matches, whole, the pattern that leaves its indices open.
pub dbdep_match_key-pattern :
    (ps : List Piece)
    → Spelled ps []
    → dbdep_match_key (key_of ps) (pattern_of ps) ≡ some (key_of ps)
unfolding match_from
dbdep_match_key-pattern ps h =
    ap (dbdep_match_key (key_of ps)) (sym (append-nil (pattern_of ps)))
    ∙ ap (λ key. dbdep_match_key key (pattern_of ps ++ [])) (sym (append-nil (key_of ps)))
    ∙ whole_key ps [] [] h refl
