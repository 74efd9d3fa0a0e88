-- ===== src/Dividends/Atomic.antt =====
-- Create, update and delete of `DividendService` as a whole, from the reads before `BeginTx` to the
-- regeneration that follows the commit.
use investment_portfolio_man.Base.{
  ◌≡◌, refl, not, ◌||◌, List, Option, none, some, ◌==◌, sym, ◌∙◌, ap, subst, arith, All-find,
}
use investment_portfolio_man.Float64.{Float64}
use investment_portfolio_man.Result.{parse_date, invalid_portfolio_id}
use investment_portfolio_man.Model.{Ident, Time, Dividend, pending}
use investment_portfolio_man.Store.Tables.{Tables, DividendType, stock, no_dividend, other_dividend}
use investment_portfolio_man.Store.Monad.{
  get_now, new_uuid, World, M, Job, pure, ◌>>=◌, ◌>>◌, transact, regenerate,
}
use investment_portfolio_man.Store.Triples.{
  Answers-guards, Commits, Ensures, bind_rule, pure_rule, query_rule, after-Commits,
  push_job-Commits,
}
use investment_portfolio_man.Store.Rows.{key-find_row}
use investment_portfolio_man.Store.Quiet.{
  IsRead, query-IsRead, quiet-Commits, push_job-IsQuiet, read-Commits, ensured-Commits,
  guard-IsRead, new_uuid-IsRead, get_now-IsRead, transact-Commits,
}
use investment_portfolio_man.Store.Effects.{find_dividend}
use investment_portfolio_man.Store.Dividends.{
  stored_dividend, PortfolioFundListing, get_portfolio_fund_listing, get_shares_on_date,
  get_dividend,
}
use investment_portfolio_man.Transactions.{given, parsed, parsed_if_given}
use investment_portfolio_man.Transactions.Kept.{parsed_if_given_rule}
use investment_portfolio_man.Dividends.{
  CreateDividendRequest, UpdateDividendRequest, DividendFund, is_set, pays_dividends,
  dividend_to_fund, apply_update_fields, reinvestment_info, reinvestment_info_if_given,
}
use investment_portfolio_man.Dividends.Methods.{
  new_dividend, create_dividend, create_dividend_body, recalculated, update_dividend_of,
  update_dividend_body, delete_dividend_of, delete_dividend_body,
}
use investment_portfolio_man.Dividends.Linked.{IsLinkedRow}
use investment_portfolio_man.Dividends.Kept.{IsSound, Insertable}
use investment_portfolio_man.Dividends.Reinvested.{create_status, update_status}
use investment_portfolio_man.Dividends.Status.{status_of, create_status-table, update_status-table}
use investment_portfolio_man.Dividends.Bodies.{
  Written, IsGone, create_dividend_body_rule, update_dividend_body_rule, delete_dividend_body_rule,
}

module _ {F : Type 0} where
  listing-IsRead : (i : Ident) → IsRead (get_portfolio_fund_listing {F = F} i)
  unfolding get_portfolio_fund_listing
  listing-IsRead i = query-IsRead _

  pays-IsRead : (kind : DividendType) → IsRead (pays_dividends {F = F} kind)
  pays-IsRead stock w = refl
  pays-IsRead no_dividend w = refl
  pays-IsRead other_dividend w = refl

  get_dividend-IsRead : (i : Ident) → IsRead (get_dividend {F = F} i)
  unfolding get_dividend
  get_dividend-IsRead i = query-IsRead _

  parsed_if_given-IsRead :
      (o : Option (Option Time)) (date : Time) → IsRead (parsed_if_given {F = F} o date)
  parsed_if_given-IsRead none date w = refl
  parsed_if_given-IsRead (some o) date w = refl

  apply_update_fields-IsRead :
      (d : Dividend F) (req : UpdateDividendRequest F) → IsRead (apply_update_fields d req)
  unfolding apply_update_fields
  apply_update_fields-IsRead d req w = ground arith

  -- The dividend that an update works on, against the row that it found.
  abbrev pub Tracks : Ident → Dividend F → Dividend F → Tables F → Type 0
  Tracks i old d t =
      Insertable d t
      × (d.id ≡ i)
      × (d.reinvestment_status ≡ old.reinvestment_status)
      × (d.buy_order_date ≡ old.buy_order_date)

  get_dividend_rule :
      (i : Ident) (old : Dividend F)
      → Ensures (λ t. IsSound t × (find_dividend i t ≡ some old)) (get_dividend i) (Tracks i old)
  unfolding get_dividend
  get_dividend_rule i old = query_rule _ (λ t h. rw h.1 (
      Answers-guards (λ d. Tracks i old d t) (old.record_date == 0) (old.ex_dividend_date == 0)
        parse_date parse_date (record old { created_at = 0 })
        (
          (h.0, All-find (IsLinkedRow t) _ t.dividends old h.0.1 h.1),
          key-find_row (λ (x : Dividend F). x.id) i t.dividends old h.1,
          refl,
          refl,
        )))

  apply_update_fields_rule :
      (i : Ident) (old d : Dividend F) (req : UpdateDividendRequest F)
      → Ensures (Tracks i old d) (apply_update_fields d req) (Tracks i old)
  unfolding apply_update_fields
  apply_update_fields_rule i old d req =
      bind_rule (parsed_if_given_rule (Tracks i old d) req.record_date d.record_date) λ a.
        bind_rule (parsed_if_given_rule (Tracks i old d) req.ex_dividend_date d.ex_dividend_date)
          λ b. pure_rule _ (λ t p. p)

module _ {F : Type 0} ⦃f : Float64 F⦄ where
  get_shares-IsRead :
      (sum : List F → F) (i : Ident) (date : Time) → IsRead (get_shares_on_date sum i date)
  unfolding get_shares_on_date
  get_shares-IsRead sum i date = guard-IsRead (i == 0) invalid_portfolio_id _ (query-IsRead _)

  -- What a method answers after its commit and the regeneration that it asks for.
  answered-Commits :
      {A B : Type 0} (before : Tables F) (Q : A → Tables F → Type 0) (R : B → Tables F → Type 0)
      (job : A → Job) (answer : A → B) (m : M F A) (w : World F)
      → Commits before Q (m w)
      → ((a : A) (t : Tables F) → Q a t → R (answer a) t)
      → Commits before R ((m >>= λ a. regenerate (job a) >> pure (answer a)) w)
  unfolding regenerate
  answered-Commits before Q R job answer m w h weaker =
      after-Commits before Q R _ (m w) h (λ a w' q.
        push_job-Commits before R w'.has_invalidator (job a) (answer a) w' (weaker a w'.tables q))

  new_dividend-IsLinkedRow :
      (i : Ident) (now : Time) (pf : PortfolioFundListing) (record_date ex : Time) (shares : F)
      (req : CreateDividendRequest F) (t : Tables F)
      → IsLinkedRow t (new_dividend i now pf record_date ex shares req)
  unfolding new_dividend
  new_dividend-IsLinkedRow i now pf record_date ex shares req t = ground arith

  -- The dividend that is returned is the one in the table, with its status.
  abbrev pub IsCreated : CreateDividendRequest F → DividendFund F → Tables F → Type 0
  IsCreated req a t =
      let d = a.dividend in
      IsSound t
      × (find_dividend d.id t ≡ some (stored_dividend d))
      × (d.reinvestment_status
          ≡ status_of a.dividend_type (is_set req.buy_order_date) pending
              (some req.reinvestment_shares) (some req.reinvestment_price) d.total_amount)

  -- If every sale has exactly one realized gain and no other transaction has any, and every
  -- dividend names a reinvestment transaction that exists or none, and does name one if it is
  -- reinvested in part, then whichever statements fail, CreateDividend either returns an error and
  -- leaves the tables as they were, or succeeds, leaves tables where this holds again, and returns
  -- the dividend as it stands in the table, with this status: without a buy order PENDING for a
  -- stock fund and COMPLETED for another, with a buy order and not both a positive number of
  -- shares and a positive price PENDING, and otherwise, for a stock fund, COMPLETED if their
  -- product is the total amount, both rounded, and PARTIAL if it is not, and COMPLETED for another
  -- fund.
  pub create_dividend-Commits :
      (sum : List F → F) (req : CreateDividendRequest F) (w : World F)
      → IsSound w.tables
      → Commits w.tables (IsCreated req) (create_dividend sum req w)
  unfolding create_dividend dividend_to_fund new_dividend
  create_dividend-Commits sum req w h =
      let before = w.tables in
      let Q = IsCreated req in
      read-Commits before Q (get_portfolio_fund_listing req.portfolio_fund_id) _ w
        (listing-IsRead req.portfolio_fund_id) refl
        λ pf w₁ e₁.
          read-Commits before Q (pays_dividends pf.dividend_type) _ w₁
            (pays-IsRead pf.dividend_type) e₁
            λ u w₂ e₂.
              read-Commits before Q (parsed req.record_date) _ w₂ (λ w'. refl) e₂
                λ record_date w₃ e₃.
                  read-Commits before Q (parsed req.ex_dividend_date) _ w₃ (λ w'. refl) e₃
                    λ ex w₄ e₄.
                      read-Commits before Q (get_shares_on_date sum req.portfolio_fund_id ex) _ w₄
                        (get_shares-IsRead sum req.portfolio_fund_id ex) e₄
                        λ shares w₅ e₅.
                          read-Commits before Q new_uuid _ w₅ new_uuid-IsRead e₅ λ i w₆ e₆.
                            read-Commits before Q get_now _ w₆ get_now-IsRead e₆ λ now w₇ e₇.
                              let d = new_dividend i now pf record_date ex shares req in
                              answered-Commits before _ Q _ (λ new. dividend_to_fund new pf)
                                (transact (create_dividend_body pf d req)) w₇
                                (transact-Commits before w₇ (create_dividend_body_rule pf d req)
                                  (
                                    h,
                                    new_dividend-IsLinkedRow i now pf record_date ex shares req
                                        before,
                                  )
                                  e₇)
                                (λ new t p. (
                                  p.0,
                                  p.1,
                                  p.3
                                      ∙ ap
                                          (create_status pf.dividend_type
                                            (is_set req.buy_order_date)
                                            (reinvestment_info req.reinvestment_shares
                                              req.reinvestment_price))
                                          (sym p.4)
                                      ∙ create_status-table pf.dividend_type
                                          (is_set req.buy_order_date) req.reinvestment_shares
                                          req.reinvestment_price new.total_amount,
                                ))

  abbrev pub IsUpdated :
      Ident → Dividend F → UpdateDividendRequest F → DividendFund F → Tables F → Type 0
  IsUpdated i old req a t =
      let d = a.dividend in
      IsSound t
      × (d.id ≡ i)
      × (find_dividend d.id t ≡ some (stored_dividend d))
      × (d.reinvestment_status
          ≡ status_of a.dividend_type (is_set req.buy_order_date || not (old.buy_order_date == 0))
              old.reinvestment_status req.reinvestment_shares req.reinvestment_price d.total_amount)

  updated :
      (i : Ident) (old d new : Dividend F) (req : UpdateDividendRequest F)
      (pf : PortfolioFundListing) (t before : Tables F)
      → Tracks i old d before
      → Written
          (update_status pf.dividend_type
            (is_set req.buy_order_date || not (d.buy_order_date == 0))
            (reinvestment_info_if_given req.reinvestment_shares req.reinvestment_price)
            d.reinvestment_status
            d.total_amount)
          d
          new
          t
      → IsUpdated i old req (dividend_to_fund new pf) t
  unfolding dividend_to_fund
  updated i old d new req pf t before tracks p = (
    p.0,
    p.2 ∙ tracks.1,
    p.1,
    rw p.3 (
        rw (tracks.2, tracks.3)
          (rw p.4 (
            update_status-table pf.dividend_type
              (is_set req.buy_order_date || not (old.buy_order_date == 0)) old.reinvestment_status
              req.reinvestment_shares req.reinvestment_price d.total_amount))),
  )

  -- If every sale has exactly one realized gain and no other transaction has any, and every
  -- dividend names a reinvestment transaction that exists or none, and does name one if it is
  -- reinvested in part, then whichever statements fail, UpdateDividend of a dividend that there is
  -- either returns an error and leaves the tables as they were, or succeeds, leaves tables where
  -- this holds again, and returns the dividend of that identifier as it stands in the table, with
  -- this status: without a buy order, old or new, PENDING for a stock fund and COMPLETED for
  -- another, with a buy order and not both a positive number of shares and a positive price given
  -- the old one if it is COMPLETED and PENDING if it is not, and otherwise, for a stock fund,
  -- COMPLETED if their product is the total amount, both rounded, and PARTIAL if it is not, and
  -- COMPLETED for another fund.
  pub update_dividend_of-Commits :
      (sum : List F → F) (i : Ident) (req : UpdateDividendRequest F) (old : Dividend F)
      (w : World F)
      → IsSound w.tables
      → find_dividend i w.tables ≡ some old
      → Commits w.tables (IsUpdated i old req) (update_dividend_of sum i req w)
  unfolding update_dividend_of
  update_dividend_of-Commits sum i req old w h known =
      let before = w.tables in
      let Q = IsUpdated i old req in
      ensured-Commits before Q (get_dividend i) _ w (get_dividend-IsRead i)
        (get_dividend_rule i old) (h, known) refl
        λ d w₁ e₁ tracks.
          let moved = record d {
            portfolio_fund_id = given req.portfolio_fund_id d.portfolio_fund_id;
          } in
          read-Commits before Q (get_portfolio_fund_listing moved.portfolio_fund_id) _ w₁
            (listing-IsRead moved.portfolio_fund_id) e₁
            λ pf w₂ e₂.
              ensured-Commits before Q (apply_update_fields moved req) _ w₂
                (apply_update_fields-IsRead moved req) (apply_update_fields_rule i old moved req)
                tracks e₂
                λ dated w₃ e₃ tracks'.
                  read-Commits before Q
                    (get_shares_on_date sum dated.portfolio_fund_id dated.ex_dividend_date) _ w₃
                    (get_shares-IsRead sum dated.portfolio_fund_id dated.ex_dividend_date) e₃
                    λ shares w₄ e₄.
                      read-Commits before Q get_now _ w₄ get_now-IsRead e₄ λ now w₅ e₅.
                        let new = recalculated dated shares now in
                        answered-Commits before _ Q _ (λ x. dividend_to_fund x pf)
                          (transact (update_dividend_body pf new req)) w₅
                          (transact-Commits before w₅ (update_dividend_body_rule pf new req)
                            tracks'.0 e₅)
                          (λ x t p. updated i old new x req pf t before tracks' p)

module _ {F : Type 0} where
  -- The row that a deletion has found.
  get_same_rule :
      (i : Ident) (old : Dividend F)
      → Ensures
          (λ t. IsSound t × (find_dividend i t ≡ some old))
          (get_dividend i)
          (λ d t.
            IsSound t
            × (d.id ≡ i)
            × (d.reinvestment_transaction_id ≡ old.reinvestment_transaction_id))
  unfolding get_dividend
  get_same_rule i old = query_rule _ (λ t h. rw h.1 (
      Answers-guards
        (λ d.
          IsSound t
          × (d.id ≡ i)
          × (d.reinvestment_transaction_id ≡ old.reinvestment_transaction_id))
        (old.record_date == 0) (old.ex_dividend_date == 0) parse_date parse_date
        (record old { created_at = 0 })
        (h.0, key-find_row (λ (x : Dividend F). x.id) i t.dividends old h.1, refl)))

  regenerated-Commits :
      (before : Tables F) (Q : Tables F → Type 0) (job : Job) (m : M F (Unit {0})) (w : World F)
      → Commits before (λ u. Q) (m w)
      → Commits before (λ u. Q) ((m >> regenerate job) w)
  unfolding regenerate
  regenerated-Commits before Q job m w h =
      after-Commits before (λ u. Q) (λ u. Q) (λ u. regenerate job) (m w) h
        (λ u w' q. quiet-Commits before Q _ w' (push_job-IsQuiet w'.has_invalidator job) q)

  -- If every sale has exactly one realized gain and no other transaction has any, and every
  -- dividend names a reinvestment transaction that exists or none, and does name one if it is
  -- reinvested in part, then whichever statements fail, DeleteDividend of a dividend that there is
  -- either returns an error and leaves the tables as they were, or succeeds, leaves tables where
  -- this holds again, and both the dividend and its reinvestment transaction, if it has one, are
  -- gone.
  pub delete_dividend_of-Commits :
      (i : Ident) (old : Dividend F) (w : World F)
      → IsSound w.tables
      → find_dividend i w.tables ≡ some old
      → Commits w.tables (λ u. IsGone i old.reinvestment_transaction_id) (delete_dividend_of i w)
  unfolding delete_dividend_of
  delete_dividend_of-Commits i old w h known =
      let before = w.tables in
      let Q : Tables F → Type 0 = IsGone i old.reinvestment_transaction_id in
      ensured-Commits before (λ u. Q) (get_dividend i) _ w (get_dividend-IsRead i)
        (get_same_rule i old) (h, known) refl
        λ d w₁ e₁ same. regenerated-Commits before Q _ (transact (delete_dividend_body d)) w₁ (
          subst
            (λ j.
              Commits before (λ u. IsGone j old.reinvestment_transaction_id)
                (transact (delete_dividend_body d) w₁))
            same.1
            (subst (λ x. Commits before (λ u. IsGone d.id x) (transact (delete_dividend_body d) w₁))
              same.2 (transact-Commits before w₁ (delete_dividend_body_rule d) h e₁)))
