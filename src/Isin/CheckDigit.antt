-- ===== src/Isin/CheckDigit.antt =====
-- What the check digit says about the rest of an ISIN.
use investment_portfolio_man.Base.{
  ℕ, zero, suc, ◌+◌, ◌-◌, ◌≡◌, ◌↔◌, refl, Bool, true, false, List, [], ◌∷◌, ◌++◌, length, arith, ap,
  ◌≢◌, Bool-cases, inl, inr, sym, ◌∙◌, ◌%◌, ◌<◌, ◌==◌, if◌then◌else◌,
}
use investment_portfolio_man.Isin.{
  is_digit, matches, body_regex, front, char_at, doubled, luhn_sum, digits_of, check_digit,
  validate_isin,
}

matches-snoc :
    (tests : List (ℕ → Bool)) (test : ℕ → Bool) (text : List ℕ) (char : ℕ)
    → matches tests text ≡ true
    → matches (tests ++ (test ∷ [])) (text ++ (char ∷ [])) ≡ test char
matches-snoc [] test [] char h = ground arith
matches-snoc [] test (c ∷ text) char h = cc
matches-snoc (t ∷ tests) test [] char h = cc
matches-snoc (t ∷ tests) test (c ∷ text) char h = ground (arith, matches-snoc tests test text char)

length-matches :
    (tests : List (ℕ → Bool)) (text : List ℕ)
    → matches tests text ≡ true
    → length text ≡ length tests
length-matches [] [] h = refl
length-matches [] (c ∷ text) h = cc
length-matches (t ∷ tests) [] h = cc
length-matches (t ∷ tests) (c ∷ text) h = ground (arith, length-matches tests text)

front-snoc :
    (n : ℕ) (text : List ℕ) (char : ℕ) → length text ≡ n → front n (text ++ (char ∷ [])) ≡ text
front-snoc zero [] char h = refl
front-snoc zero (c ∷ text) char h = absurd (omega arith)
front-snoc (suc n) [] char h = absurd (omega arith)
front-snoc (suc n) (c ∷ text) char h = ap (λ t. c ∷ t) (front-snoc n text char (omega arith))

char_at-snoc :
    (n : ℕ) (text : List ℕ) (char : ℕ) → length text ≡ n → char_at n (text ++ (char ∷ [])) ≡ char
char_at-snoc zero [] char h = refl
char_at-snoc zero (c ∷ text) char h = absurd (omega arith)
char_at-snoc (suc n) [] char h = absurd (omega arith)
char_at-snoc (suc n) (c ∷ text) char h = char_at-snoc n text char (omega arith)

check_digit-lt : (text : List ℕ) → check_digit text < 10
unfolding check_digit
check_digit-lt text = omega arith

-- To eleven characters that fit the pattern, validateISIN accepts exactly one last character: the
-- digit that check_digit computes from them.
validate_isin-snoc :
    (body : List ℕ) (char : ℕ)
    → matches body_regex body ≡ true
    → (validate_isin (body ++ (char ∷ [])) ≡ true) ↔ (char ≡ check_digit body + 48)
unfolding validate_isin
validate_isin-snoc body char h =
    let eleven = length-matches body_regex body h in
    let bound = check_digit-lt body in
    rw
      (
        matches-snoc body_regex is_digit body char h,
        front-snoc 11 body char eleven,
        char_at-snoc 11 body char eleven,
      )
      (decides char (check_digit body) bound)
  where
    decides :
        (char digit : ℕ)
        → digit < 10
        → ((if is_digit char then digit == char - 48 else false) ≡ true) ↔ (char ≡ digit + 48)
    decides char digit h = ground arith

-- What a digit adds to the sum, with so many digits behind it.
abbrev weighted : ℕ → ℕ → ℕ
weighted behind digit = if behind % 2 == 0 then doubled digit else digit

length-exchange : (xs ys : List ℕ) (d e : ℕ) → length (xs ++ (d ∷ ys)) ≡ length (xs ++ (e ∷ ys))
length-exchange [] ys d e = refl
length-exchange (x ∷ xs) ys d e = ap (λ n. suc n) (length-exchange xs ys d e)

-- One digit for another, and the sum changes by what they add.
luhn_sum-exchange :
    (xs ys : List ℕ) (d e : ℕ)
    → luhn_sum (xs ++ (d ∷ ys)) + weighted (length ys) e
      ≡ luhn_sum (xs ++ (e ∷ ys)) + weighted (length ys) d
unfolding luhn_sum
luhn_sum-exchange [] ys d e = swap (weighted (length ys) d) (luhn_sum ys) (weighted (length ys) e)
  where
    swap : (a s b : ℕ) → a + s + b ≡ b + s + a
    swap a s b = omega arith
luhn_sum-exchange (x ∷ xs) ys d e =
    rw (length-exchange xs ys d e) (added _ _ _ _ _ (luhn_sum-exchange xs ys d e))
  where
    added : (k a b v w : ℕ) → a + v ≡ b + w → k + a + v ≡ k + b + w
    added k a b v w h = omega arith

digits_of-digit :
    (pre post : List ℕ) (char : ℕ)
    → is_digit char ≡ true
    → digits_of (pre ++ (char ∷ post)) ≡ digits_of pre ++ ((char - 48) ∷ digits_of post)
unfolding digits_of
digits_of-digit [] post char h = ground arith
digits_of-digit (c ∷ pre) post char h = ground (arith, digits_of-digit pre post char)

weighted-injective :
    (behind d e a b : ℕ)
    → d < 10
    → e < 10
    → a + weighted behind e ≡ b + weighted behind d
    → (10 - a % 10) % 10 ≡ (10 - b % 10) % 10
    → d ≡ e
weighted-injective behind d e a b hd he h k = ground arith

same_check : {m n : ℕ} → m + 48 ≡ n + 48 → m ≡ n
same_check h = omega arith

below_ten : (m : ℕ) → is_digit m ≡ true → m - 48 < 10
below_ten m h = ground arith

same_digit : (m n : ℕ) → is_digit m ≡ true → is_digit n ≡ true → m - 48 ≡ n - 48 → m ≡ n
same_digit m n h k e = ground arith

one_digit_same :
    (pre post : List ℕ) (c d char : ℕ)
    → matches body_regex (pre ++ (c ∷ post)) ≡ true
    → matches body_regex (pre ++ (d ∷ post)) ≡ true
    → is_digit c ≡ true
    → is_digit d ≡ true
    → validate_isin ((pre ++ (c ∷ post)) ++ (char ∷ [])) ≡ true
    → validate_isin ((pre ++ (d ∷ post)) ++ (char ∷ [])) ≡ true
    → c ≡ d
unfolding check_digit
one_digit_same pre post c d char mc md hc hd vc vd =
    let same =
      sym ((validate_isin-snoc (pre ++ (c ∷ post)) char mc).0 vc)
      ∙ (validate_isin-snoc (pre ++ (d ∷ post)) char md).0 vd in
    let sums = luhn_sum-exchange (digits_of pre) (digits_of post) (c - 48) (d - 48) in
    same_digit _ _ hc hd (
      weighted-injective (length (digits_of post)) (c - 48) (d - 48) _ _ (below_ten c hc)
        (below_ten d hd) sums
        (rw (digits_of-digit pre post c hc, digits_of-digit pre post d hd) at (same_check same)))

-- An ISIN that validateISIN accepts is refused once one digit of it, other than the last, is
-- exchanged for another digit, when both forms fit the pattern.
pub validate_isin-exchange :
    (pre post : List ℕ) (c d char : ℕ)
    → matches body_regex (pre ++ (c ∷ post)) ≡ true
    → matches body_regex (pre ++ (d ∷ post)) ≡ true
    → is_digit c ≡ true
    → is_digit d ≡ true
    → c ≢ d
    → validate_isin ((pre ++ (c ∷ post)) ++ (char ∷ [])) ≡ true
    → validate_isin ((pre ++ (d ∷ post)) ++ (char ∷ [])) ≡ false
validate_isin-exchange pre post c d char mc md hc hd other vc =
    elim (Bool-cases (validate_isin ((pre ++ (d ∷ post)) ++ (char ∷ [])))) [
      | inl vd ↦ absurd (other (one_digit_same pre post c d char mc md hc hd vc vd))
      | inr e ↦ e
    ]
