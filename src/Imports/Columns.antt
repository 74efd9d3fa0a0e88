-- ===== src/Imports/Columns.antt =====
-- What a row of a file says, by the names of its columns, against `read_price_row` and
-- `validate_transaction_row`.
use investment_portfolio_man.Base.{
  ℕ, zero, suc, subst, ◌+◌, ◌≡◌, refl, ◌∙◌, ap, false, true, List, [], ◌∷◌, Option, none, some,
  Bool-cases, inl, inr, if◌then◌else◌, arith,
}
use investment_portfolio_man.Float64.{Float64, nought}
use investment_portfolio_man.Result.{
  Result, ok, ok-injective, err, Error, ◌>>=◌, cell, invalid_transaction_row,
}
use investment_portfolio_man.Model.{Time, TransactionType, buy, sell, dividend, fee, other_type}
use investment_portfolio_man.Store.Effects.{or_not_found}
use investment_portfolio_man.Csv.{
  Text, Parsers, TransactionRow, same_text, trim_space, to_lower, column_loop, field, type_of,
  valid_type, positive, not_negative, read_price_row, validate_transaction_row,
}

abbrev first : List Text → Option Text
first [] = none
first (c ∷ cs) = some c

abbrev behind : List Text → List Text
behind [] = []
behind (c ∷ cs) = cs

-- Headers and fields side by side.
unfoldable pub last_under : Text → List Text → List Text → Option Text → Option Text
last_under name [] row found = found
last_under name (h ∷ hs) row found =
    last_under name hs (behind row) (if same_text h name then first row else found)

-- The field under the last header of the name; without one, the first.
abbrev pub under : Text → List Text → List Text → Option Text
under name headers row = last_under name headers row (first row)

-- A relation between the elements of two lists of one length.
abbrev pub Each : {A B : Type 0} → (A → B → Type 0) → List A → List B → Type 0
Each R [] [] = Unit
Each R [] (y ∷ ys) = ⊥
Each R (x ∷ xs) [] = ⊥
Each R (x ∷ xs) (y ∷ ys) = R x y × Each R xs ys

-- The texts `buy`, `sell`, `dividend` and `fee`.
abbrev pub Names : Text → TransactionType → Type 0
Names cs buy = same_text cs (98 ∷ 117 ∷ 121 ∷ []) ≡ true
Names cs sell = same_text cs (115 ∷ 101 ∷ 108 ∷ 108 ∷ []) ≡ true
Names cs dividend = same_text cs (100 ∷ 105 ∷ 118 ∷ 105 ∷ 100 ∷ 101 ∷ 110 ∷ 100 ∷ []) ≡ true
Names cs fee = same_text cs (102 ∷ 101 ∷ 101 ∷ []) ≡ true
Names cs other_type = ⊥

abbrev found_of : Result Text → Option Text
found_of (ok c) = some c
found_of (err e) = none

first-cell : (row : List Text) → first row ≡ found_of (cell 0 row)
first-cell [] = refl
first-cell (c ∷ cs) = refl

behind-cell :
    (row : List Text) (n : ℕ) → found_of (cell n (behind row)) ≡ found_of (cell (n + 1) row)
behind-cell [] zero = refl
behind-cell [] (suc n) = refl
behind-cell (c ∷ cs) n = ground arith

last_under-column_loop :
    (name : Text) (headers row whole : List Text) (at found : ℕ)
    → ((n : ℕ) → found_of (cell n row) ≡ found_of (cell (at + n) whole))
    → last_under name headers row (found_of (cell found whole))
      ≡ found_of (cell (column_loop name headers at found) whole)
unfolding last_under
last_under-column_loop name [] row whole at found h = refl
last_under-column_loop name (x ∷ xs) row whole at found h = elim (Bool-cases (same_text x name)) [
  | inl same ↦
      rw (same, first-cell row, h 0, plus_zero at)
        (last_under-column_loop name xs (behind row) whole (at + 1) at next)
  | inr other ↦ rw other (last_under-column_loop name xs (behind row) whole (at + 1) found next)
]
  where
    next : (n : ℕ) → found_of (cell n (behind row)) ≡ found_of (cell (at + 1 + n) whole)
    next n = behind-cell row n ∙ h (n + 1) ∙ ap (λ m. found_of (cell m whole)) (omega arith)

    plus_zero : (n : ℕ) → n + 0 ≡ n
    plus_zero n = omega arith

field-under :
    (headers row : List Text) (name text : Text)
    → field headers row name ≡ ok text
    → under name headers row ≡ some text
field-under headers row name text h =
    ap (last_under name headers row) (first-cell row)
    ∙ last_under-column_loop name headers row row 0 0
        (λ n. ap (λ m. found_of (cell m row)) (omega arith))
    ∙ ap found_of h

bind-ok :
    {A B : Type 0} (r : Result A) (k : A → Result B) {y : B}
    → (r >>= k) ≡ ok y
    → (x : A) × (r ≡ ok x) × (k x ≡ ok y)
bind-ok (ok x) k h = (x, refl, h)
bind-ok (err e) k h = cc

found-ok : {A : Type 0} (e : Error) (o : Option A) {x : A} → or_not_found e o ≡ ok x → o ≡ some x
found-ok e none h = cc
found-ok e (some y) h = cc

valid_type-Names :
    (cs : Text) {kind : TransactionType} → valid_type (type_of cs) ≡ ok kind → Names cs kind
valid_type-Names cs h = elim (Bool-cases (same_text cs (98 ∷ 117 ∷ 121 ∷ []))) [
  | inl b ↦ subst (Names cs) (ok-injective (rw b at h)) b
  | inr b ↦ elim (Bool-cases (same_text cs (115 ∷ 101 ∷ 108 ∷ 108 ∷ []))) [
    | inl s ↦ subst (Names cs) (ok-injective (rw (b, s) at h)) s
    | inr s ↦
        elim (Bool-cases (same_text cs (100 ∷ 105 ∷ 118 ∷ 105 ∷ 100 ∷ 101 ∷ 110 ∷ 100 ∷ []))) [
          | inl d ↦ subst (Names cs) (ok-injective (rw (b, s, d) at h)) d
          | inr d ↦ elim (Bool-cases (same_text cs (102 ∷ 101 ∷ 101 ∷ []))) [
            | inl e ↦ subst (Names cs) (ok-injective (rw (b, s, d, e) at h)) e
            | inr e ↦ cc (rw (b, s, d, e) at h)
          ]
        ]
  ]
]

module _ {F : Type 0} ⦃f : Float64 F⦄ where
  positive-ok :
      (e : Error) (x : F) {y : F}
      → positive e x ≡ ok y
      → (x ≡ y) × (f.lt x nought ≡ false) × (f.eq x nought ≡ false)
  positive-ok e x h = elim (Bool-cases (f.lt x nought)) [
    | inl below ↦ cc (rw below at h)
    | inr above ↦ elim (Bool-cases (f.eq x nought)) [
      | inl equal ↦ cc (rw (above, equal) at h)
      | inr differ ↦ (ok-injective (rw (above, differ) at h), above, differ)
    ]
  ]

  not_negative-ok : (x : F) {y : F} → not_negative x ≡ ok y → (x ≡ y) × (f.lt x nought ≡ false)
  not_negative-ok x h = elim (Bool-cases (f.lt x nought)) [
    | inl below ↦ cc (rw below at h)
    | inr above ↦ (ok-injective (rw above at h), above)
  ]

module _ {F : Type 0} ⦃f : Float64 F⦄ (p : Parsers F) where
  -- Some text without the spaces around it is the date or the number.
  abbrev pub IsDateText : Option Text → Time → Type 0
  IsDateText o date = (a : Text) × (o ≡ some a) × (p.date_of (trim_space a) ≡ some date)

  abbrev pub IsNumberText : Option Text → F → Type 0
  IsNumberText o x = (a : Text) × (o ≡ some a) × (p.float_of (trim_space a) ≡ some x)

  -- Under `date` there is the date, under `price` the price, which is positive.
  abbrev pub IsPriceRow : (headers row : List Text) → Time × F → Type 0
  IsPriceRow headers row (date, price) =
      IsDateText (under (100 ∷ 97 ∷ 116 ∷ 101 ∷ []) headers row) date
      × IsNumberText (under (112 ∷ 114 ∷ 105 ∷ 99 ∷ 101 ∷ []) headers row) price
      × (f.lt price nought ≡ false)
      × (f.eq price nought ≡ false)

  pub read_price_row-IsPriceRow :
      (headers row : List Text) (x : Time × F)
      → read_price_row p headers row ≡ ok x
      → IsPriceRow headers row x
  unfolding read_price_row
  read_price_row-IsPriceRow headers row (date, price) h =
      let (a, ea, h₁) = bind-ok _ _ h in
      let (d, ed, h₂) = bind-ok _ _ h₁ in
      let (b, eb, h₃) = bind-ok _ _ h₂ in
      let (v, ev, h₄) = bind-ok _ _ h₃ in
      let (w, ew, h₅) = bind-ok _ _ h₄ in
      let (same, above, differ) = positive-ok _ v ew in
      let both : (d, w) ≡ (date, price) = ok-injective h₅ in
      let value : v ≡ price = same ∙ ap (λ (x : Time × F). x.1) both in
      (
        (a, field-under headers row _ a ea, found-ok _ _ ed ∙ ap (λ (x : Time × F). some x.0) both),
        (b, field-under headers row _ b eb, found-ok _ _ ev ∙ ap some value),
        subst (λ (x : F). f.lt x nought ≡ false) value above,
        subst (λ (x : F). f.eq x nought ≡ false) value differ,
      )

  -- Under `type` there is the type in letters of either case, under `shares` a positive number,
  -- under `cost_per_share` a number that is not negative.
  abbrev pub IsTransactionRow : (headers row : List Text) → TransactionRow F → Type 0
  IsTransactionRow headers row x =
      IsDateText (under (100 ∷ 97 ∷ 116 ∷ 101 ∷ []) headers row) x.date
      × ((a : Text) × (under (116 ∷ 121 ∷ 112 ∷ 101 ∷ []) headers row ≡ some a)
          × Names (trim_space (to_lower a)) x.kind)
      × IsNumberText (under (115 ∷ 104 ∷ 97 ∷ 114 ∷ 101 ∷ 115 ∷ []) headers row) x.shares
      × (f.lt x.shares nought ≡ false)
      × (f.eq x.shares nought ≡ false)
      × IsNumberText
          (under
            (99 ∷ 111 ∷ 115 ∷ 116 ∷ 95 ∷ 112 ∷ 101 ∷ 114 ∷ 95 ∷ 115 ∷ 104 ∷ 97 ∷ 114 ∷ 101 ∷ [])
            headers row)
          x.cost_per_share
      × (f.lt x.cost_per_share nought ≡ false)

  pub validate_transaction_row-IsTransactionRow :
      (headers row : List Text) (x : TransactionRow F)
      → validate_transaction_row p headers row ≡ ok x
      → IsTransactionRow headers row x
  unfolding validate_transaction_row
  validate_transaction_row-IsTransactionRow headers row x h =
      let (a, ea, h₁) = bind-ok _ _ h in
      let (d, ed, h₂) = bind-ok _ _ h₁ in
      let (b, eb, h₃) = bind-ok _ _ h₂ in
      let (k, ek, h₄) = bind-ok (valid_type (type_of (trim_space (to_lower b)))) _ h₃ in
      let (c, ec, h₅) = bind-ok _ _ h₄ in
      let (s, es, h₆) = bind-ok _ _ h₅ in
      let (m, em, h₇) = bind-ok (positive invalid_transaction_row s) _ h₆ in
      let (g, eg, h₈) = bind-ok _ _ h₇ in
      let (u, eu, h₉) = bind-ok _ _ h₈ in
      let (v, ev, last) = bind-ok (not_negative u) _ h₉ in
      let (same, above, differ) = positive-ok invalid_transaction_row s em in
      let (same', above') = not_negative-ok u ev in
      subst (IsTransactionRow headers row) (ok-injective last) (
        (a, field-under headers row _ a ea, found-ok _ _ ed),
        (b, field-under headers row _ b eb, valid_type-Names (trim_space (to_lower b)) ek),
        (c, field-under headers row _ c ec, found-ok _ _ es ∙ ap some same),
        subst (λ (y : F). f.lt y nought ≡ false) same above,
        subst (λ (y : F). f.eq y nought ≡ false) same differ,
        (g, field-under headers row _ g eg, found-ok _ _ eu ∙ ap some same'),
        subst (λ (y : F). f.lt y nought ≡ false) same' above',
      )
