-- ===== src/Dividends/Status.antt =====
-- The status of a dividend as a table, against the steps of `CreateDividend` and `UpdateDividend`.
use investment_portfolio_man.Base.{
  ◌≡◌, refl, ◌∙◌, Bool, true, false, ◌&&◌, Option, none, some, if◌then◌else◌, Bool-cases, inl, inr,
}
use investment_portfolio_man.Float64.{Float64, ◌*f◌, nought, round}
use investment_portfolio_man.Model.{ReinvestmentStatus, pending, completed, partial, no_status}
use investment_portfolio_man.Store.Tables.{DividendType, stock, no_dividend, other_dividend}
use investment_portfolio_man.Dividends.{
  Reinvestment, is_stock, kept_completed, reinvested_status, reinvestment_info,
  reinvestment_info_if_given,
}
use investment_portfolio_man.Dividends.Reinvested.{create_status, update_status}

abbrev pub no_order : DividendType → ReinvestmentStatus
no_order stock = pending
no_order no_dividend = completed
no_order other_dividend = completed

-- An order with no amount leaves a completed dividend completed.
abbrev pub no_amount : ReinvestmentStatus → ReinvestmentStatus
no_amount pending = pending
no_amount completed = completed
no_amount partial = pending
no_amount no_status = pending

module _ {F : Type 0} ⦃f : Float64 F⦄ where
  -- An amount of a stock dividend is the total, both rounded, or it is below or above.
  abbrev pub amount : DividendType → (shares price total : F) → ReinvestmentStatus
  amount stock shares price total =
      if f.eq (round (shares *f price)) (round total) then completed else partial
  amount no_dividend shares price total = completed
  amount other_dividend shares price total = completed

  -- Shares and a price count when both are given and positive.
  abbrev pub status_of :
      DividendType
      → (ordered : Bool) → (old : ReinvestmentStatus) → (shares price : Option F) → (total : F)
      → ReinvestmentStatus
  status_of kind false old shares price total = no_order kind
  status_of kind true old none price total = no_amount old
  status_of kind true old (some shares) none total = no_amount old
  status_of kind true old (some shares) (some price) total =
      if f.lt nought shares && f.lt nought price
      then amount kind shares price total
      else no_amount old

  order_status :
      (kind : DividendType) (old : ReinvestmentStatus) (shares price total : F)
      → update_status kind true (reinvestment_info shares price) old total
        ≡ status_of kind true old (some shares) (some price) total
  order_status kind old shares price total = elim (Bool-cases (f.lt nought shares)) [
    | inl s ↦ elim (Bool-cases (f.lt nought price)) [
      | inl p ↦ rw (s, p) (full kind)
      | inr p ↦ rw (s, p) (empty old)
    ]
    | inr s ↦ elim (Bool-cases (f.lt nought price)) [
      | inl p ↦ rw (s, p) (empty old)
      | inr p ↦ rw (s, p) (empty old)
    ]
  ]
    where
      empty : (o : ReinvestmentStatus) → kept_completed o ≡ no_amount o
      empty pending = refl
      empty completed = refl
      empty partial = refl
      empty no_status = refl

      full :
          (k : DividendType)
          → (if is_stock k
              then reinvested_status total (record { shares = shares; price = price })
              else completed)
            ≡ amount k shares price total
      full stock = refl
      full no_dividend = refl
      full other_dividend = refl

  pub update_status-table :
      (kind : DividendType) (ordered : Bool) (old : ReinvestmentStatus) (shares price : Option F)
      (total : F)
      → update_status kind ordered (reinvestment_info_if_given shares price) old total
        ≡ status_of kind ordered old shares price total
  update_status-table stock false old shares price total = refl
  update_status-table no_dividend false old shares price total = refl
  update_status-table other_dividend false old shares price total = refl
  update_status-table kind true pending none price total = refl
  update_status-table kind true completed none price total = refl
  update_status-table kind true partial none price total = refl
  update_status-table kind true no_status none price total = refl
  update_status-table kind true pending (some shares) none total = refl
  update_status-table kind true completed (some shares) none total = refl
  update_status-table kind true partial (some shares) none total = refl
  update_status-table kind true no_status (some shares) none total = refl
  update_status-table kind true old (some shares) (some price) total =
      order_status kind old shares price total

  from_pending :
      (kind : DividendType) (o : Option (Reinvestment F)) (total : F)
      → create_status kind true o total ≡ update_status kind true o pending total
  from_pending kind none total = refl
  from_pending kind (some r) total = refl

  pub create_status-table :
      (kind : DividendType) (ordered : Bool) (shares price total : F)
      → create_status kind ordered (reinvestment_info shares price) total
        ≡ status_of kind ordered pending (some shares) (some price) total
  create_status-table stock false shares price total = refl
  create_status-table no_dividend false shares price total = refl
  create_status-table other_dividend false shares price total = refl
  create_status-table kind true shares price total =
      from_pending kind (reinvestment_info shares price) total
      ∙ order_status kind pending shares price total
