-- ===== src/Strings/Numbers.antt =====
-- strToInt of stringutils.c.
use native.Mathlib.Nat.{pow-suc}
use progetto_sistemi_operati.Base.{
  ℕ, zero, suc, ◌+◌, ◌-◌, ◌*◌, ◌/◌, ◌%◌, ◌^◌, ◌≤◌, ◌<◌, ◌≡◌, refl, ap, ◌∙◌, inl, inr, List, [], ◌∷◌,
  ◌++◌, Bool, true, false, some, Bool-cases, length, All, ◌==◌, leb, ltb, if◌then◌else◌, arith,
  length-append,
}
use progetto_sistemi_operati.Base.Int.{ℤ, pos, negsuc, sub_ℕ}
use progetto_sistemi_operati.Strings.{
  is_digit, is_space, skip_spaces, digits_value, long_of, signed_long, str_to_int,
}

-- The decimal digits of a number below 10 ^ fuel.
unfoldable pub decimal : ℕ → ℕ → List ℕ
decimal zero n = []
decimal (suc fuel) n =
    let more = decimal fuel (n / 10) ++ (b'0' + n % 10) ∷ [] in
    if ltb n 10 then (b'0' + n) ∷ [] else more

-- A number as `printf("%ld")` writes it.
unfoldable pub print_long : ℤ → List ℕ
unfolding decimal
print_long (pos n) = decimal 20 n
print_long (negsuc n) = b'-' ∷ decimal 20 (n + 1)

-- The numbers of a `long`.
abbrev pub IsLong : ℤ → Type 0
IsLong (pos n) = n < 2 ^ 63
IsLong (negsuc n) = n < 2 ^ 63

digits_value-append :
    (ds rest : List ℕ) (value : ℕ)
    → All (λ c. is_digit c ≡ true) ds
    → digits_value value (ds ++ rest) ≡ digits_value (digits_value value ds).0 rest
unfolding digits_value
digits_value-append [] rest value h = refl
digits_value-append (d ∷ ds) rest value (is_d, h) =
    rw is_d (digits_value-append ds rest (value * 10 + (d - b'0')) h)

digits_value-digits :
    (ds : List ℕ) (value : ℕ) → All (λ c. is_digit c ≡ true) ds → (digits_value value ds).1 ≡ []
unfolding digits_value
digits_value-digits [] value h = refl
digits_value-digits (d ∷ ds) value (is_d, h) =
    rw is_d (digits_value-digits ds (value * 10 + (d - b'0')) h)

All-snoc :
    (xs : List ℕ) (x : ℕ)
    → All (λ c. is_digit c ≡ true) xs
    → is_digit x ≡ true
    → All (λ c. is_digit c ≡ true) (xs ++ x ∷ [])
All-snoc [] x h e = (e, tt)
All-snoc (y ∷ xs) x (h, hs) e = (h, All-snoc xs x hs e)

decimal-digits : (fuel n : ℕ) → All (λ c. is_digit c ≡ true) (decimal fuel n)
unfolding decimal
decimal-digits zero n = tt
decimal-digits (suc fuel) n = elim (Bool-cases (ltb n 10)) [
  | inl small ↦ rw small (ground arith, tt)
  | inr large ↦
      rw large (All-snoc (decimal fuel (n / 10)) _ (decimal-digits fuel (n / 10)) (ground arith))
]

digits_value-snoc :
    (ds : List ℕ) (c : ℕ)
    → All (λ c. is_digit c ≡ true) ds
    → is_digit c ≡ true
    → (digits_value 0 (ds ++ c ∷ [])).0 ≡ (digits_value 0 ds).0 * 10 + (c - b'0')
digits_value-snoc ds c h e =
    ap (λ r. r.0) (digits_value-append ds (c ∷ []) 0 h) ∙ (unfold digits_value in rw e refl)

decimal-value : (fuel n : ℕ) → n < 10 ^ fuel → (digits_value 0 (decimal fuel n)).0 ≡ n
unfolding decimal
decimal-value zero n h = unfold digits_value in omega arith
decimal-value (suc fuel) n h = elim (Bool-cases (ltb n 10)) [
  | inl small ↦ rw small (unfold digits_value in ground arith)
  | inr large ↦
      let rest = n / 10 in
      rw large (
        digits_value-snoc (decimal fuel rest) _ (decimal-digits fuel rest) (ground arith)
        ∙ omega (arith, decimal-value fuel rest (omega (arith, pow-suc 10 fuel))))
]

decimal-some : (fuel n : ℕ) → 0 < length (decimal (suc fuel) n)
unfolding decimal
decimal-some fuel n = elim (Bool-cases (ltb n 10)) [
  | inl small ↦ rw small (omega arith)
  | inr large ↦ rw large (omega (arith, length-append (decimal fuel (n / 10)) _))
]

-- Digits that make up a number within the limit are read as it.
long_of-digits :
    (negative : Bool) (ds : List ℕ) (n : ℕ)
    → All (λ c. is_digit c ≡ true) ds
    → 0 < length ds
    → (digits_value 0 ds).0 ≡ n
    → n ≤ (if negative then 2 ^ 63 else 2 ^ 63 - 1)
    → long_of negative ds ≡ some (if negative then sub_ℕ 0 n else pos n)
unfolding long_of
long_of-digits negative [] n h some_digit v le = elim some_digit [ ]
long_of-digits negative (d ∷ ds) n (is_d, h) some_digit v le =
    let within : leb n (if negative then 2 ^ 63 else 2 ^ 63 - 1) ≡ true = ground arith in
    rw (is_d, digits_value-digits (d ∷ ds) 0 (is_d, h), v, within) refl

signed_long-digits :
    (ds : List ℕ)
    → All (λ c. is_digit c ≡ true) ds
    → 0 < length ds
    → signed_long (skip_spaces ds) ≡ long_of false ds
unfolding signed_long skip_spaces
signed_long-digits [] h some_digit = elim some_digit [ ]
signed_long-digits (d ∷ ds) (is_d, h) some_digit =
    let no_space : is_space d ≡ false = ground arith in
    let no_minus : (d == b'-') ≡ false = ground arith in
    let no_plus : (d == b'+') ≡ false = ground arith in
    rw (no_space, signed_long, no_minus, no_plus) refl

-- A long is read back from its decimal digits.
pub str_to_int-print_long : (z : ℤ) → IsLong z → str_to_int (some (print_long z)) ≡ some z
unfolding str_to_int print_long
str_to_int-print_long (pos n) h =
    signed_long-digits (decimal 20 n) (decimal-digits 20 n) (decimal-some 19 n)
    ∙ long_of-digits false (decimal 20 n) n (decimal-digits 20 n) (decimal-some 19 n)
        (decimal-value 20 n (omega arith)) (omega arith)
str_to_int-print_long (negsuc n) h =
    (unfold skip_spaces signed_long in
      long_of-digits true (decimal 20 (n + 1)) (n + 1) (decimal-digits 20 (n + 1))
        (decimal-some 19 (n + 1)) (decimal-value 20 (n + 1) (omega arith)) (omega arith))
    ∙ ap some (ground arith)
