-- ===== src/Dividends/Bodies.antt =====
-- The bodies of create, update and delete: what they write, and that it is sound.
use investment_portfolio_man.Base.{◌≡◌, false, not, ◌||◌, none, some, arith, ◌==◌}
use investment_portfolio_man.Float64.{Float64}
use investment_portfolio_man.Model.{Ident, Transaction, Dividend, ReinvestmentStatus}
use investment_portfolio_man.Store.Tables.{Tables}
use investment_portfolio_man.Store.Triples.{
  Answers, Answers-guard, Answers-guards, Answers-both, Answers-map, Ensures, bind_rule, pure_rule,
  exec_rule, if_rule,
}
use investment_portfolio_man.Store.Rows.{find_row-delete-all}
use investment_portfolio_man.Store.Effects.{find_transaction, find_dividend, delete_transaction_row}
use investment_portfolio_man.Store.Repositories.{delete_transaction}
use investment_portfolio_man.Store.Dividends.{
  PortfolioFundListing, stored_dividend, insert_dividend, update_dividend, delete_dividend,
  insert_dividend_row, update_dividend_row, delete_dividend_row,
}
use investment_portfolio_man.Transactions.Matched.{IsMatched, delete_transaction-IsMatched}
use investment_portfolio_man.Transactions.Kept.{when_rule}
use investment_portfolio_man.Dividends.{
  CreateDividendRequest, UpdateDividendRequest, is_set, reinvestment_info,
  reinvestment_info_if_given,
}
use investment_portfolio_man.Dividends.Methods.{
  create_dividend_body, update_dividend_body, delete_dividend_body,
}
use investment_portfolio_man.Store.Dividends.{
  has_references, with_new_dividend, with_dividend, without_dividend,
}
use investment_portfolio_man.Result.{constraint, dividend_not_found, transaction_not_found}
use investment_portfolio_man.Store.Effects.{without_transaction, is_some}
use investment_portfolio_man.Base.{find?}
use investment_portfolio_man.Dividends.Kept.{IsSound, Insertable, Settled}
use investment_portfolio_man.Dividends.Linked.{
  IsLinked, insert_dividend-IsLinked, update_dividend-IsLinked, delete_dividend-IsLinked,
  delete_transaction-IsLinked,
}
use investment_portfolio_man.Dividends.Reinvested.{
  create_status, update_status, apply_reinvestment_rule, apply_update_reinvestment_rule,
  unbought_rule,
}

module _ {F : Type 0} ⦃f : Float64 F⦄ where
  -- The dividend that a method returns is the one that it has written.
  abbrev pub Written : ReinvestmentStatus → Dividend F → Dividend F → Tables F → Type 0
  Written s d new t =
      IsSound t
      × (find_dividend new.id t ≡ some (stored_dividend new))
      × (new.id ≡ d.id)
      × (new.reinvestment_status ≡ s)
      × (new.total_amount ≡ d.total_amount)

  insert_dividend-Written :
      (s : ReinvestmentStatus) (d new : Dividend F) (t : Tables F)
      → Settled s d new t
      → Answers (Written s d new) (insert_dividend_row new t)
  unfolding insert_dividend_row
  insert_dividend-Written s d new t p =
      Answers-map _ (Written s d new) _
        (Answers-both IsMatched
          (λ t'. IsLinked t' × (find_dividend new.id t' ≡ some (stored_dividend new)))
          (insert_dividend_row new t)
          (Answers-guards IsMatched (is_some (find_dividend new.id t)) (not (has_references new t))
            constraint constraint (with_new_dividend new t) p.0.0.0)
          (insert_dividend-IsLinked new t p.0.0.1 p.0.1))
        (λ t' q. ((q.0, q.1.0), q.1.1, p.1, p.2, p.3))

  update_dividend-Written :
      (s : ReinvestmentStatus) (d new : Dividend F) (t : Tables F)
      → Settled s d new t
      → Answers (Written s d new) (update_dividend_row new t)
  unfolding update_dividend_row
  update_dividend-Written s d new t p =
      Answers-map _ (Written s d new) _
        (Answers-both IsMatched
          (λ t'. IsLinked t' × (find_dividend new.id t' ≡ some (stored_dividend new)))
          (update_dividend_row new t)
          (Answers-guards IsMatched (not (is_some (find_dividend new.id t)))
            (not (has_references new t)) dividend_not_found constraint (with_dividend new t)
            p.0.0.0)
          (update_dividend-IsLinked new t p.0.0.1 p.0.1))
        (λ t' q. ((q.0, q.1.0), q.1.1, p.1, p.2, p.3))

  pub create_dividend_body_rule :
      (pf : PortfolioFundListing) (d : Dividend F) (req : CreateDividendRequest F)
      → let status =
          create_status pf.dividend_type
            (is_set req.buy_order_date)
            (reinvestment_info req.reinvestment_shares req.reinvestment_price)
            d.total_amount in
        Ensures (Insertable d) (create_dividend_body pf d req) (Written status d)
  unfolding create_dividend_body insert_dividend
  create_dividend_body_rule pf d req =
      bind_rule (apply_reinvestment_rule pf d req.buy_order_date req) λ new.
        bind_rule (exec_rule _ (insert_dividend-Written _ d new)) λ u. pure_rule new (λ t p. p)

  pub update_dividend_body_rule :
      (pf : PortfolioFundListing) (d : Dividend F) (req : UpdateDividendRequest F)
      → let status =
          update_status pf.dividend_type
            (is_set req.buy_order_date || not (d.buy_order_date == 0))
            (reinvestment_info_if_given req.reinvestment_shares req.reinvestment_price)
            d.reinvestment_status
            d.total_amount in
        Ensures (Insertable d) (update_dividend_body pf d req) (Written status d)
  unfolding update_dividend_body update_dividend
  update_dividend_body_rule pf d req =
      bind_rule
        (if_rule (is_set req.buy_order_date || not (d.buy_order_date == 0))
          (λ e. rw e (apply_update_reinvestment_rule pf d req))
          (λ e. rw e (unbought_rule pf.dividend_type d)))
        λ new.
          bind_rule (exec_rule _ (update_dividend-Written _ d new)) λ u. pure_rule new (λ t p. p)

module _ {F : Type 0} where
  -- A dividend that is gone, with its reinvestment transaction.
  abbrev pub IsGone : Ident → Ident → Tables F → Type 0
  IsGone i x t =
      IsSound t × (find_dividend i t ≡ none) × ((x == 0) ≡ false → find_transaction x t ≡ none)

  abbrev HasNeither : Ident → Ident → Tables F → Type 0
  HasNeither i x t = (find_dividend i t ≡ none) × (find_transaction x t ≡ none)

  delete_dividend-IsSound :
      (i : Ident) (t : Tables F)
      → IsSound t
      → Answers (λ t'. IsSound t' × (find_dividend i t' ≡ none)) (delete_dividend_row i t)
  unfolding delete_dividend_row
  delete_dividend-IsSound i t h =
      Answers-map _ (λ t'. IsSound t' × (find_dividend i t' ≡ none)) _
        (Answers-both IsMatched (λ t'. IsLinked t' × (find_dividend i t' ≡ none))
          (delete_dividend_row i t)
          (Answers-guard IsMatched (not (is_some (find_dividend i t))) dividend_not_found
            (without_dividend i t) h.0)
          (delete_dividend-IsLinked i t h.1))
        (λ t' q. ((q.0, q.1.0), q.1.1))

  delete_transaction-gone :
      (x i : Ident) (t : Tables F)
      → find_dividend i t ≡ none
      → Answers (HasNeither i x) (delete_transaction_row x t)
  unfolding delete_transaction_row
  delete_transaction-gone x i t h =
      Answers-guards (HasNeither i x)
        (is_some (find? (λ (d : Dividend F). d.reinvestment_transaction_id == x) t.dividends))
        (not (is_some (find_transaction x t))) constraint transaction_not_found
        (without_transaction x t)
        (h, find_row-delete-all (λ (y : Transaction F). y.id) x t.transactions)

  pub delete_dividend_body_rule :
      (d : Dividend F)
      → Ensures IsSound (delete_dividend_body d) (λ u. IsGone d.id d.reinvestment_transaction_id)
  unfolding delete_dividend_body delete_dividend delete_transaction
  delete_dividend_body_rule d = bind_rule (exec_rule _ (delete_dividend-IsSound d.id)) λ u.
      when_rule _ _ (not (d.reinvestment_transaction_id == 0))
        (λ e. exec_rule _ (λ t p.
          Answers-map _ (IsGone d.id d.reinvestment_transaction_id) _
            (Answers-both IsSound (HasNeither d.id d.reinvestment_transaction_id)
              (delete_transaction_row d.reinvestment_transaction_id t)
              (Answers-both IsMatched IsLinked
                (delete_transaction_row d.reinvestment_transaction_id t)
                (delete_transaction-IsMatched _ t (λ i e'. p.0.0 i))
                (delete_transaction-IsLinked _ t p.0.1))
              (delete_transaction-gone _ d.id t p.1))
            (λ t' q. (q.0, q.1.0, λ e'. q.1.1))))
        (λ e t p. (p.0, p.1, λ e'. ground (arith, e, e')))
