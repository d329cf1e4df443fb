-- ===== src/Options/Decimal.antt =====
-- Integer options, which are stored as decimal digits.
use clicon.Base.{
  ℕ, zero, suc, ◌+◌, ◌-◌, ◌*◌, ◌/◌, ◌%◌, ◌^◌, ◌≤◌, ◌<◌, ◌≡◌, refl, ap, ◌∙◌, true, false, ◌&&◌, ◌||◌,
  [], ◌∷◌, ◌++◌, none, some, leb, ltb, ◌==◌, str_eq_refl, Bool-cases, inl, inr, arith, All,
}
use clicon.Proto.Types.{CString, IsCString}
use clicon.Hash.Table.{Table}
use clicon.Hash.Laws.{enough}
use clicon.Strings.{skip_spaces}
use clicon.Options.{
  digits_from, decimal_from, decimal, signed, atoi, minus_one, clicon_option_int,
  clicon_option_int_set, clicon_option_str, clicon_option_str_set,
}
use clicon.Options.Access.{option_str-set}

abbrev Digit : ℕ → Type 0
Digit c = (48 ≤ c) × (c ≤ 57)

Digit-digits : (c : ℕ) → Digit c → (leb 48 c && leb c 57) ≡ true
Digit-digits c (lo, hi) = ground arith

-- Digits up to the last.
digits_from-append :
    (n : ℕ) (s : CString) (d : ℕ)
    → All Digit s
    → d < 10
    → digits_from n (s ++ ((48 + d) ∷ [])) ≡ digits_from n s * 10 + d
unfolding digits_from
digits_from-append n [] d h hd =
    let e = Digit-digits (48 + d) (omega arith, omega arith) in rw (e, digits_from) (omega arith)
digits_from-append n (c ∷ s) d (hc, h) hd =
    rw (Digit-digits c hc, digits_from) (digits_from-append (n * 10 + (c - 48)) s d h hd)

All-append : (s t : CString) → All Digit s → All Digit t → All Digit (s ++ t)
All-append [] t h g = g
All-append (c ∷ s) t (hc, h) g = (hc, All-append s t h g)

Digit-below : (d : ℕ) → d < 10 → Digit (48 + d)
Digit-below d h = (omega arith, omega arith)

below-true : (n m : ℕ) → ltb n m ≡ true → n < m
below-true n m h = ground arith

below-false : (n m : ℕ) → ltb n m ≡ false → m ≤ n
below-false n m h = ground arith

decimal-Digits : (fuel n : ℕ) → All Digit (decimal_from fuel n)
unfolding decimal_from
decimal-Digits zero n = tt
decimal-Digits (suc fuel) n = elim (Bool-cases (ltb n 10)) [
  | inl e ↦ rw (e, decimal_from) (Digit-below n (below-true n 10 e), tt)
  | inr e ↦
      rw (e, decimal_from)
        (All-append (decimal_from fuel (n / 10)) _ (decimal-Digits fuel (n / 10))
          (Digit-below (n % 10) (omega arith), tt))
]

-- 10 to the power.
power : ℕ → ℕ
power zero = 1
power (suc fuel) = 10 * power fuel

decimal_value : (fuel n : ℕ) → n < power fuel → digits_from 0 (decimal_from fuel n) ≡ n
unfolding decimal_from power digits_from
decimal_value zero n h = omega arith
decimal_value (suc fuel) n h = elim (Bool-cases (ltb n 10)) [
  | inl e ↦
      let d = digits_from-append 0 [] n tt (below-true n 10 e) in
      rw (e, decimal_from) (d ∙ omega arith)
  | inr e ↦
      let d =
        digits_from-append 0 (decimal_from fuel (n / 10)) (n % 10) (decimal-Digits fuel (n / 10))
          (omega arith) in
      let ih = decimal_value fuel (n / 10) (omega arith) in
      rw (e, decimal_from) (d ∙ ap (λ k. k * 10 + n % 10) ih ∙ omega arith)
]

-- A decimal number is read from its first digit on.
Digit-start :
    (c : ℕ) (s : CString) → Digit c → All Digit s → atoi (c ∷ s) ≡ digits_from 0 (c ∷ s) % 2 ^ 32
unfolding atoi skip_spaces signed
Digit-start c s (lo, hi) h =
    let space : (c == 32 || (leb 9 c && leb c 13)) ≡ false = ground arith in
    let minus : (c == 45) ≡ false = ground arith in
    let plus : (c == 43) ≡ false = ground arith in rw (space, skip_spaces, minus, plus) refl

atoi-Digits : (s : CString) → All Digit s → atoi s ≡ digits_from 0 s % 2 ^ 32
unfolding atoi skip_spaces signed digits_from
atoi-Digits [] h = refl
atoi-Digits (c ∷ s) (hc, h) = Digit-start c s hc h

below_power : (n : ℕ) → n < 2 ^ 31 → n < power 10
unfolding power
below_power n h = omega arith

Digits-IsCString : (s : CString) → All Digit s → IsCString s
Digits-IsCString [] h = tt
Digits-IsCString (c ∷ s) ((lo, hi), h) = (omega arith, Digits-IsCString s h)

atoi-decimal : (n : ℕ) → n < 2 ^ 31 → atoi (decimal n) ≡ n
unfolding decimal
atoi-decimal n h =
    atoi-Digits (decimal_from 10 n) (decimal-Digits 10 n)
    ∙ ap (λ k. k % 2 ^ 32) (decimal_value 10 n (below_power n h))
    ∙ omega arith

option_int-str :
    (copt : Table) (name s : CString)
    → clicon_option_str copt name ≡ some s
    → clicon_option_int copt name ≡ atoi s
unfolding clicon_option_int
option_int-str copt name s e = ap (λ o. elim o [ none ↦ minus_one | some t ↦ atoi t ]) e

-- After an option is set to an integer that is not negative, with the memory for it, its value as an
-- integer is that integer.
pub option_int-set :
    (copt : Table) (name : CString) (val : ℕ)
    → val < 2 ^ 31
    → clicon_option_int (clicon_option_int_set enough copt name val).1 name ≡ val
unfolding clicon_option_int_set
option_int-set copt name val h =
    let got =
      option_str-set copt name name (decimal val)
        (Digits-IsCString (decimal val) (decimal-Digits 10 val)) in
    let same = str_eq_refl name in
    let e : clicon_option_str (clicon_option_str_set enough copt name (decimal val)).1 name
        ≡ some (decimal val) =
      got ∙ rw same refl in
    option_int-str _ name (decimal val) e ∙ atoi-decimal val h
