-- ===== src/Dividends/Reinvested.antt =====
-- The reinvestment that create and update make, with the status that they give.
use investment_portfolio_man.Base.{
  ◌≡◌, refl, Bool, true, false, Option, none, some, ◌==◌, if◌then◌else◌, subst,
}
use investment_portfolio_man.Float64.{Float64}
use investment_portfolio_man.Result.{parse_date}
use investment_portfolio_man.Model.{
  Ident, Time, Dividend, ReinvestmentStatus, pending, completed, partial, no_status,
}
use investment_portfolio_man.Store.Tables.{DividendType, stock, no_dividend, other_dividend}
use investment_portfolio_man.Store.Monad.{pure}
use investment_portfolio_man.Store.Triples.{
  Answers-map, Ensures, bind_rule, pure_rule, exec_rule, new_uuid_rule, get_now_rule,
  lift_keep_rule, if_rule,
}
use investment_portfolio_man.Store.Effects.{is_some, or_not_found, find_transaction}
use investment_portfolio_man.Store.Repositories.{insert_transaction, update_transaction}
use investment_portfolio_man.Store.Dividends.{PortfolioFundListing}
use investment_portfolio_man.Transactions.Kept.{parsed_if_given_rule}
use investment_portfolio_man.Dividends.{
  CreateDividendRequest, UpdateDividendRequest, Reinvestment, is_stock, is_set, unbought,
  kept_completed, with_reinvestment_status, reinvestment_info, reinvestment_info_if_given,
  reinvested_status, reinvestment_transaction, create_reinvestment_transaction,
  update_reinvestment_transaction, reinvest, apply_reinvestment, update_reinvestment,
  apply_update_reinvestment,
}
use investment_portfolio_man.Dividends.Kept.{
  IsFound, Insertable, Settled, restatus_rule, get_transaction_rule, insert_other-IsSound,
  update_same-IsSound,
}

module _ {F : Type 0} ⦃f : Float64 F⦄ where
  -- With and without a buy order, and with a reinvestment's shares and price or without.
  abbrev pub create_status :
      DividendType → (bought : Bool) → Option (Reinvestment F) → (total : F) → ReinvestmentStatus
  create_status kind false r total = if is_stock kind then pending else completed
  create_status kind true none total = pending
  create_status kind true (some r) total =
      if is_stock kind then reinvested_status total r else completed

  -- An update of a dividend that had a status.
  abbrev pub update_status :
      DividendType
      → (bought : Bool) → Option (Reinvestment F)
      → ReinvestmentStatus
      → (total : F) → ReinvestmentStatus
  update_status kind false r old total = if is_stock kind then pending else completed
  update_status kind true none old total = kept_completed old
  update_status kind true (some r) old total =
      if is_stock kind then reinvested_status total r else completed

  create_reinvestment_rule :
      (pf_id : Ident) (d : Dividend F) (r : Reinvestment F)
      → Ensures
          (Insertable d)
          (create_reinvestment_transaction pf_id d r)
          (Settled (reinvested_status d.total_amount r) d)
  unfolding create_reinvestment_transaction insert_transaction reinvestment_transaction
  create_reinvestment_rule pf_id d r = bind_rule (new_uuid_rule (Insertable d)) λ i.
      bind_rule (get_now_rule (Insertable d)) λ now.
        let x = reinvestment_transaction i pf_id d r now in
        bind_rule (exec_rule _ (λ t p. insert_other-IsSound x t refl p.0))
          λ u. pure_rule _ (λ t p. ((p.0, rw p.1 refl), refl, refl, refl))

  update_reinvestment_transaction_rule :
      (d : Dividend F) (r : Reinvestment F)
      → Ensures
          (Insertable d)
          (update_reinvestment_transaction d r)
          (Settled (reinvested_status d.total_amount r) d)
  unfolding update_reinvestment_transaction update_transaction
  update_reinvestment_transaction_rule d r =
      bind_rule (get_transaction_rule (Insertable d) d.reinvestment_transaction_id) λ x.
        bind_rule (get_now_rule _) λ now.
          bind_rule {Q = λ u t. IsFound x.id t × (x.id ≡ d.reinvestment_transaction_id)}
            (exec_rule _ (λ t p.
              Answers-map (IsFound x.id)
                (λ t'. IsFound x.id t' × (x.id ≡ d.reinvestment_transaction_id)) _
                (update_same-IsSound x _ t refl refl p.1 p.0.0) (λ t' q. (q, p.2))))
            λ u. pure_rule _ (λ t p. (
              (p.0.0, rw (subst (λ i. is_some (find_transaction i t) ≡ true) p.1 p.0.1) refl),
              refl,
              refl,
              refl,
            ))

  reinvest_rule :
      (pf : PortfolioFundListing) (d : Dividend F) (o : Option (Reinvestment F))
      → Ensures
          (Insertable d)
          (reinvest pf d o)
          (Settled (create_status pf.dividend_type true o d.total_amount) d)
  unfolding reinvest
  reinvest_rule pf d none = restatus_rule pending d refl
  reinvest_rule pf d (some r) =
      if_rule (is_stock pf.dividend_type)
        (λ e. rw e (create_reinvestment_rule d.portfolio_fund_id d r))
        (λ e. rw e (restatus_rule completed d refl))

  pub unbought_rule :
      (kind : DividendType) (d : Dividend F)
      → Ensures
          (Insertable d)
          (pure (with_reinvestment_status (unbought kind) d))
          (Settled (if is_stock kind then pending else completed) d)
  unbought_rule stock d = restatus_rule pending d refl
  unbought_rule no_dividend d = restatus_rule completed d refl
  unbought_rule other_dividend d = restatus_rule completed d refl

  pub apply_reinvestment_rule :
      (pf : PortfolioFundListing) (d : Dividend F) (o : Option (Option Time))
      (req : CreateDividendRequest F)
      → Ensures (Insertable d) (apply_reinvestment pf d o req) (
          Settled
            (create_status pf.dividend_type
              (is_set o)
              (reinvestment_info req.reinvestment_shares req.reinvestment_price)
              d.total_amount)
            d)
  unfolding apply_reinvestment
  apply_reinvestment_rule pf d none req = unbought_rule pf.dividend_type d
  apply_reinvestment_rule pf d (some o) req =
      bind_rule (lift_keep_rule (Insertable d) (or_not_found parse_date o))
        λ date. reinvest_rule pf (record d { buy_order_date = date }) _

  kept_completed_rule :
      (old : ReinvestmentStatus) (d : Dividend F)
      → Ensures
          (Insertable d)
          (pure (with_reinvestment_status (kept_completed old) d))
          (Settled (kept_completed old) d)
  kept_completed_rule completed d = restatus_rule completed d refl
  kept_completed_rule pending d = restatus_rule pending d refl
  kept_completed_rule partial d = restatus_rule pending d refl
  kept_completed_rule no_status d = restatus_rule pending d refl

  update_reinvestment_rule :
      (pf : PortfolioFundListing) (d : Dividend F) (o : Option (Reinvestment F))
      → Ensures
          (Insertable d)
          (update_reinvestment pf d o)
          (Settled (update_status pf.dividend_type true o d.reinvestment_status d.total_amount) d)
  unfolding update_reinvestment
  update_reinvestment_rule pf d none = kept_completed_rule d.reinvestment_status d
  update_reinvestment_rule pf d (some r) =
      if_rule (is_stock pf.dividend_type)
        (λ e. rw e (
          if_rule (d.reinvestment_transaction_id == 0)
            (λ e'. create_reinvestment_rule d.portfolio_fund_id d r)
            (λ e'. update_reinvestment_transaction_rule d r)))
        (λ e. rw e (restatus_rule completed d refl))

  pub apply_update_reinvestment_rule :
      (pf : PortfolioFundListing) (d : Dividend F) (req : UpdateDividendRequest F)
      → Ensures (Insertable d) (apply_update_reinvestment pf d req) (
          Settled
            (update_status pf.dividend_type true
              (reinvestment_info_if_given req.reinvestment_shares req.reinvestment_price)
              d.reinvestment_status
              d.total_amount)
            d)
  unfolding apply_update_reinvestment
  apply_update_reinvestment_rule pf d req =
      bind_rule (parsed_if_given_rule (Insertable d) req.buy_order_date d.buy_order_date)
        λ date. update_reinvestment_rule pf (record d { buy_order_date = date }) _
