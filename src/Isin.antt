-- ===== src/Isin.antt =====
-- `validateISIN`, internal/validation/validation.go: the form and the check digit of an ISIN. A text is
-- the list of its character codes.
pub mod CheckDigit
mod Tests
use investment_portfolio_man.Base.{
  ℕ, zero, suc, ◌+◌, ◌-◌, ◌*◌, ◌/◌, ◌%◌, Bool, true, false, ◌&&◌, ◌||◌, List, [], ◌∷◌, ◌++◌, length,
  ltb, leb, ◌==◌, if◌then◌else◌,
}

abbrev pub is_letter : ℕ → Bool
is_letter char = leb 65 char && leb char 90

abbrev pub is_digit : ℕ → Bool
is_digit char = leb 48 char && leb char 57

abbrev pub is_letter_or_digit : ℕ → Bool
is_letter_or_digit char = is_letter char || is_digit char

-- A text against a pattern of one test for each character.
abbrev pub matches : List (ℕ → Bool) → List ℕ → Bool
matches [] [] = true
matches [] (char ∷ text) = false
matches (test ∷ tests) [] = false
matches (test ∷ tests) (char ∷ text) = test char && matches tests text

abbrev pub repeated : ℕ → (ℕ → Bool) → List (ℕ → Bool)
repeated zero test = []
repeated (suc n) test = test ∷ repeated n test

-- `([A-Z]{2})([A-Z0-9]{9})`, and after it `([0-9]{1})`.
abbrev pub body_regex : List (ℕ → Bool)
body_regex = repeated 2 is_letter ++ repeated 9 is_letter_or_digit

abbrev pub isin_regex : List (ℕ → Bool)
isin_regex = body_regex ++ (is_digit ∷ [])

-- `text[:n]` and `text[n]`, for a text that is long enough.
abbrev pub front : ℕ → List ℕ → List ℕ
front zero text = []
front (suc n) [] = []
front (suc n) (char ∷ text) = char ∷ front n text

abbrev pub char_at : ℕ → List ℕ → ℕ
char_at n [] = 0
char_at zero (char ∷ text) = char
char_at (suc n) (char ∷ text) = char_at n text

-- The digits of a text, two for a letter.
pub digits_of : List ℕ → List ℕ
digits_of [] = []
digits_of (char ∷ text) =
    if is_letter char
    then ((char - 65 + 10) / 10) ∷ ((char - 65 + 10) % 10) ∷ digits_of text
    else (char - 48) ∷ digits_of text

abbrev pub doubled : ℕ → ℕ
doubled digit = if ltb 9 (digit * 2) then digit * 2 - 9 else digit * 2

-- Every second digit is doubled, from the last one on; behind the digit at `i` there are
-- `len(digits)-1-i` others.
pub luhn_sum : List ℕ → ℕ
luhn_sum [] = 0
luhn_sum (digit ∷ digits) =
    (if length digits % 2 == 0 then doubled digit else digit) + luhn_sum digits

pub check_digit : List ℕ → ℕ
check_digit text = (10 - luhn_sum (digits_of text) % 10) % 10

pub validate_isin : List ℕ → Bool
validate_isin isin =
    if matches isin_regex isin then check_digit (front 11 isin) == char_at 11 isin - 48 else false
