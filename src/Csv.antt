-- ===== src/Csv.antt =====
-- CSV files in internal/service/developer_service.go: parseCSV, validateCSVHeaders, the columns of a
-- row, and validateTransactionRow. A text is the list of its character codes. encoding/csv,
-- `time.Parse` for dates and `strconv.ParseFloat` are parameters.
use investment_portfolio_man.Base.{
  ℕ, ◌+◌, Bool, true, false, not, ◌&&◌, ◌||◌, List, [], ◌∷◌, map, keep, find?, Option, none, some,
  leb, ◌==◌, if◌then◌else◌,
}
use investment_portfolio_man.Float64.{Float64, nought}
use investment_portfolio_man.Result.{
  Result, ok, err, Error, ◌>>=◌, cell, parse_date, invalid_price, invalid_csv_headers,
  invalid_transaction_row,
}
use investment_portfolio_man.Model.{Time, TransactionType, buy, sell, dividend, fee, other_type}
use investment_portfolio_man.Store.Effects.{is_some, or_not_found}

abbrev pub Text : Type 0
Text = List ℕ

-- `csv.Reader.ReadAll` on the bytes of a file, and what the texts of dates and numbers stand for.
pub record Parsers (F : Type 0) : Type 0 where
  pub read_all : List ℕ → Result (List (List Text))
  pub date_of : Text → Option Time
  pub float_of : Text → Option F

abbrev pub same_text : Text → Text → Bool
same_text [] [] = true
same_text [] (d ∷ ds) = false
same_text (c ∷ cs) [] = false
same_text (c ∷ cs) (d ∷ ds) = c == d && same_text cs ds

-- `unicode.IsSpace`.
abbrev pub is_space : ℕ → Bool
is_space c =
    leb 9 c && leb c 13
    || c == 32
    || c == 133
    || c == 160
    || c == 5760
    || leb 8192 c && leb c 8202
    || c == 8232
    || c == 8233
    || c == 8239
    || c == 8287
    || c == 12288

abbrev pub trim_left : Text → Text
trim_left [] = []
trim_left (c ∷ cs) = if is_space c then trim_left cs else c ∷ cs

abbrev pub before_end : ℕ → Text → Text
before_end c [] = if is_space c then [] else c ∷ []
before_end c (d ∷ ds) = c ∷ d ∷ ds

abbrev pub trim_right : Text → Text
trim_right [] = []
trim_right (c ∷ cs) = before_end c (trim_right cs)

abbrev pub trim_space : Text → Text
trim_space cs = trim_right (trim_left cs)

-- `unicode.ToLower`, as far as a comparison with a text of letters a to z can tell: besides A to Z,
-- the dotted capital I and the sign of kelvin become such a letter.
abbrev pub lower : ℕ → ℕ
lower c =
    if leb 65 c && leb c 90 then c + 32 else if c == 304 then 105 else if c == 8490 then 107 else c

abbrev pub to_lower : Text → Text
to_lower cs = map lower cs

abbrev pub without_prefix : List ℕ → List ℕ → Option (List ℕ)
without_prefix [] cs = some cs
without_prefix (b ∷ bs) [] = none
without_prefix (b ∷ bs) (c ∷ cs) = if b == c then without_prefix bs cs else none

abbrev pub trimmed : Option (List ℕ) → List ℕ → List ℕ
trimmed none content = content
trimmed (some cs) content = cs

-- `bytes.TrimPrefix` of the byte order mark.
abbrev pub trim_mark : List ℕ → List ℕ
trim_mark content = trimmed (without_prefix (239 ∷ 187 ∷ 191 ∷ []) content) content

-- The two slices that `parseCSV` returns.
pub record Records : Type 0 where
  pub headers : List Text
  pub rows : List (List Text)

abbrev pub headed : List (List Text) → Result Records
headed [] = err invalid_csv_headers
headed (first ∷ rows) =
    ok (record { headers = map (λ h. trim_space (to_lower h)) first; rows = rows })

-- The words `date`, `price`, `type`, `shares` and `cost_per_share`.
abbrev pub date_header : Text
date_header = 100 ∷ 97 ∷ 116 ∷ 101 ∷ []

abbrev pub price_header : Text
price_header = 112 ∷ 114 ∷ 105 ∷ 99 ∷ 101 ∷ []

abbrev pub type_header : Text
type_header = 116 ∷ 121 ∷ 112 ∷ 101 ∷ []

abbrev pub shares_header : Text
shares_header = 115 ∷ 104 ∷ 97 ∷ 114 ∷ 101 ∷ 115 ∷ []

abbrev pub cost_per_share_header : Text
cost_per_share_header =
    99 ∷ 111 ∷ 115 ∷ 116 ∷ 95 ∷ 112 ∷ 101 ∷ 114 ∷ 95 ∷ 115 ∷ 104 ∷ 97 ∷ 114 ∷ 101 ∷ []

abbrev pub has_header : List Text → Text → Bool
has_header headers name = is_some (find? (λ h. same_text h name) headers)

abbrev pub none_missing : List Text → Result (Unit {0})
none_missing [] = ok tt
none_missing (name ∷ names) = err invalid_csv_headers

abbrev pub validate_csv_headers : List Text → (required : List Text) → Result (Unit {0})
validate_csv_headers headers required =
    none_missing (keep (λ name. not (has_header headers name)) required)

-- `colIdx[name]`: the last column of that name, or 0.
abbrev pub column_loop : Text → List Text → (at found : ℕ) → ℕ
column_loop name [] at found = found
column_loop name (h ∷ hs) at found =
    column_loop name hs (at + 1) (if same_text h name then at else found)

abbrev pub field : List Text → List Text → Text → Result Text
field headers row name = cell (column_loop name headers 0 0) row

-- `transactionRow`.
pub record TransactionRow (F : Type 0) : Type 0 where
  pub date : Time
  pub kind : TransactionType
  pub shares : F
  pub cost_per_share : F

-- The texts `buy`, `sell`, `dividend` and `fee`.
abbrev pub type_of : Text → TransactionType
type_of cs =
    if same_text cs (98 ∷ 117 ∷ 121 ∷ [])
    then buy
    else if same_text cs (115 ∷ 101 ∷ 108 ∷ 108 ∷ [])
    then sell
    else if same_text cs (100 ∷ 105 ∷ 118 ∷ 105 ∷ 100 ∷ 101 ∷ 110 ∷ 100 ∷ [])
    then dividend
    else if same_text cs (102 ∷ 101 ∷ 101 ∷ [])
    then fee
    else other_type

abbrev pub valid_type : TransactionType → Result TransactionType
valid_type buy = ok buy
valid_type sell = ok sell
valid_type dividend = ok dividend
valid_type fee = ok fee
valid_type other_type = err invalid_transaction_row

module _ {F : Type 0} (p : Parsers F) where
  unfoldable pub parse_csv : List ℕ → Result Records
  parse_csv content = p.read_all (trim_mark content) >>= headed

module _ {F : Type 0} ⦃f : Float64 F⦄ where
  -- `price <= 0`, and `x < 0`.
  abbrev pub positive : Error → F → Result F
  positive e x = if f.lt x nought || f.eq x nought then err e else ok x

  abbrev pub not_negative : F → Result F
  not_negative x = if f.lt x nought then err invalid_transaction_row else ok x

module _ {F : Type 0} ⦃f : Float64 F⦄ (p : Parsers F) where
  unfoldable pub read_price_row : List Text → List Text → Result (Time × F)
  read_price_row headers row = field headers row date_header >>= λ date_text.
      or_not_found parse_date (p.date_of (trim_space date_text)) >>= λ date.
      field headers row price_header >>= λ price_text.
      or_not_found invalid_price (p.float_of (trim_space price_text)) >>= λ v.
      positive invalid_price v >>= λ price. ok (date, price)

  unfoldable pub validate_transaction_row : List Text → List Text → Result (TransactionRow F)
  validate_transaction_row headers row = field headers row date_header >>= λ date_text.
      or_not_found parse_date (p.date_of (trim_space date_text)) >>= λ date.
      field headers row type_header >>= λ type_text.
      valid_type (type_of (trim_space (to_lower type_text))) >>= λ kind.
      field headers row shares_header >>= λ shares_text.
      or_not_found invalid_transaction_row (p.float_of (trim_space shares_text)) >>= λ s.
      positive invalid_transaction_row s >>= λ shares.
      field headers row cost_per_share_header >>= λ cost_text.
      or_not_found invalid_transaction_row (p.float_of (trim_space cost_text)) >>= λ c.
      not_negative c >>= λ cost.
      ok (record { date = date; kind = kind; shares = shares; cost_per_share = cost })
