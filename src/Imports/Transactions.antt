-- ===== src/Imports/Transactions.antt =====
-- What `ImportTransactions` leaves.
use investment_portfolio_man.Base.{
  ℕ, ◌+◌, ◌<◌, ◌≡◌, refl, not, ◌||◌, ◌==◌, List, [], ◌∷◌, ◌++◌, map, length, arith, ◌∙◌, sym, ap,
}
use mathlib.Core.List.{append-nil, append_assoc}
use investment_portfolio_man.Float64.{Float64}
use investment_portfolio_man.Result.{ok, portfolio_fund_not_found, constraint, invalid_portfolio_id}
use investment_portfolio_man.Model.{Ident, Time, midnight, Transaction, TransactionType}
use investment_portfolio_man.Store.Tables.{Tables}
use investment_portfolio_man.Store.Monad.{World}
use investment_portfolio_man.Store.Effects.{
  is_some, stored, find_transaction, find_portfolio_fund, insert_transaction_row,
}
use investment_portfolio_man.Store.Triples.{
  Answers, Answers-guard, Commits, Ensures, bind_rule, pure_rule, exec_rule, new_uuid_rule,
  get_now_rule, with_fact, weaken_result,
}
use investment_portfolio_man.Store.Reads.{lift_read_rule}
use investment_portfolio_man.Store.Quiet.{IsRead, read-Commits, guard-IsRead, query-IsRead}
use investment_portfolio_man.Store.Repositories.{get_portfolio_fund, insert_transaction}
use investment_portfolio_man.Transactions.{regen_job}
use investment_portfolio_man.Csv.{
  Text, Parsers, Records, TransactionRow, date_header, type_header, shares_header,
  cost_per_share_header, parse_csv, validate_csv_headers, validate_transaction_row,
}
use investment_portfolio_man.Imports.Columns.{
  Each, IsTransactionRow, validate_transaction_row-IsTransactionRow,
}
use investment_portfolio_man.Imports.Rules.{reported_as-IsRead, checked-Commits}
use investment_portfolio_man.Imports.{
  Imported, none_imported, with_date, import_transactions_loop, import_transactions, reported_as,
}

-- A transaction without its identifier and the time of its creation.
abbrev pub content_of : {F : Type 0} → Transaction F → Ident × Time × TransactionType × F × F
content_of x = (x.portfolio_fund_id, x.date, x.kind, x.shares, x.cost_per_share)

abbrev pub content_for :
    {F : Type 0} → Ident → TransactionRow F → Ident × Time × TransactionType × F × F
content_for pf_id x = (pf_id, midnight x.date, x.kind, x.shares, x.cost_per_share)

module _ {F : Type 0} where
  abbrev with_rows : List (Transaction F) → Tables F → Tables F
  with_rows added t = record t { transactions = t.transactions ++ added }

  with_rows-none : (t : Tables F) → with_rows [] t ≡ t
  with_rows-none t = ap (λ rows. record t { transactions = rows }) (append-nil t.transactions)

  with_rows-twice :
      (x : Transaction F) (added : List (Transaction F)) (t : Tables F)
      → with_rows added (with_rows (x ∷ []) t) ≡ with_rows (x ∷ added) t
  with_rows-twice x added t =
      ap (λ rows. record t { transactions = rows }) (append_assoc t.transactions (x ∷ []) added)

  insert-with_rows :
      (x : Transaction F) (t : Tables F)
      → Answers (λ u. u ≡ with_rows (stored x ∷ []) t) (insert_transaction_row x t)
  unfolding insert_transaction_row
  insert-with_rows x t =
      Answers-guard _
        (is_some (find_transaction x.id t)
          || not (is_some (find_portfolio_fund x.portfolio_fund_id t)))
        constraint _ refl

  get_portfolio_fund-IsRead : (i : Ident) → IsRead {F = F} (get_portfolio_fund i)
  unfolding get_portfolio_fund
  get_portfolio_fund-IsRead i = guard-IsRead (i == 0) invalid_portfolio_id _ (query-IsRead _)

module _ {F : Type 0} ⦃f : Float64 F⦄ (p : Parsers F) (pf_id : Ident) (headers : List Text) where
  -- One transaction for each row, and nothing else.
  abbrev pub AreTransactions :
      (rows : List (List Text)) → (counted : ℕ) → Tables F → ℕ → Tables F → Type 0
  AreTransactions rows counted before n t =
      (reads : List (TransactionRow F)) × (added : List (Transaction F)) × Each
        (IsTransactionRow p headers) rows reads
      × (n ≡ counted + length reads)
      × (map content_of added ≡ map (content_for pf_id) reads)
      × (t ≡ with_rows added before)

  abbrev entered : TransactionRow F → Ident → Time → Transaction F
  entered x i now = record {
    id = i;
    portfolio_fund_id = pf_id;
    date = x.date;
    kind = x.kind;
    shares = x.shares;
    cost_per_share = x.cost_per_share;
    created_at = now;
  }

  row-AreTransactions :
      (row : List Text) (rows : List (List Text)) (x : TransactionRow F) (i : Ident) (now : Time)
      (counted n : ℕ) (before between after : Tables F)
      → IsTransactionRow p headers row x
      → between ≡ with_rows (stored (entered x i now) ∷ []) before
      → AreTransactions rows (counted + 1) between n after
      → AreTransactions (row ∷ rows) counted before n after
  row-AreTransactions row rows x i now counted n before between after e at
        (reads, added, all, count, same, t) =
      (
        x ∷ reads,
        stored (entered x i now) ∷ added,
        (e, all),
        omega (arith, count),
        rw same refl,
        t ∙ ap (with_rows added) at ∙ with_rows-twice (stored (entered x i now)) added before,
      )

  loop-AreTransactions :
      (rows : List (List Text)) (s : Imported) (before : Tables F)
      → Ensures
          (λ t. t ≡ before)
          (import_transactions_loop p pf_id headers rows s)
          (λ s' t. AreTransactions rows s.count before s'.count t)
  unfolding import_transactions_loop insert_transaction
  loop-AreTransactions [] s before =
      pure_rule s (λ t e. ([], [], tt, omega arith, refl, e ∙ sym (with_rows-none before)))
  loop-AreTransactions (row ∷ rows) s before =
      bind_rule (lift_read_rule (validate_transaction_row p headers row)) λ x. with_fact λ e.
        bind_rule (new_uuid_rule (λ t. t ≡ before)) λ i.
          bind_rule (get_now_rule (λ t. t ≡ before)) λ now.
            bind_rule
              (exec_rule {P = λ t. t ≡ before}
                {Q = λ t. t ≡ with_rows (stored (entered x i now) ∷ []) before}
                (insert_transaction_row (entered x i now))
                (λ t q. rw q (insert-with_rows (entered x i now) before)))
              λ u. record {
                leaves = λ w at.
                    (weaken_result (loop-AreTransactions rows (with_date x.date s) w.tables)
                        (λ s' t all.
                          row-AreTransactions row rows x i now s.count s'.count before w.tables t
                            (validate_transaction_row-IsTransactionRow p headers row x e) at
                            all)).leaves
                      w refl;
              }

module _ {F : Type 0} ⦃f : Float64 F⦄ (p : Parsers F) where
  -- For a file that encoding/csv can read and that has a first row, whichever statements fail,
  -- ImportTransactions either returns an error and leaves the tables as they were, or every row
  -- behind the first has a date, one of the types buy, sell, dividend and fee in letters of either
  -- case, a positive number of shares and a cost per share that is not negative, each under the
  -- last header of its name, or in the first column if there is no such header, and there is at
  -- least one; it returns how many, and adds, in order, one transaction of the portfolio-fund with
  -- the date, type, shares and cost of each row, and nothing else.
  pub import_transactions-AreTransactions :
      (pf_id : Ident) (content : List ℕ) (csv : Records) (w : World F)
      → parse_csv p content ≡ ok csv
      → Commits w.tables
          (λ n t. AreTransactions p pf_id csv.headers csv.rows 0 w.tables n t × (0 < n))
          (import_transactions p pf_id content w)
  unfolding import_transactions
  import_transactions-AreTransactions pf_id content csv w parsed_csv =
      read-Commits w.tables _ (reported_as portfolio_fund_not_found (get_portfolio_fund pf_id)) _ w
        (reported_as-IsRead portfolio_fund_not_found (get_portfolio_fund pf_id)
          (get_portfolio_fund-IsRead pf_id))
        refl
        (λ found w' same.
          checked-Commits w.tables (AreTransactions p pf_id csv.headers csv.rows 0 w.tables)
            (parse_csv p content) csv
            (λ x.
              validate_csv_headers x.headers
                (date_header ∷ type_header ∷ shares_header ∷ cost_per_share_header ∷ []))
            (λ x. import_transactions_loop p pf_id x.headers x.rows none_imported)
            (λ date. regen_job date pf_id) w' parsed_csv
            (loop-AreTransactions p pf_id csv.headers csv.rows none_imported w.tables) same)
