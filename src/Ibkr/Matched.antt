-- ===== src/Ibkr/Matched.antt =====
-- What `MatchDividend` leaves.
pub mod Entries
mod Tests
use investment_portfolio_man.Base.{
  ◌≡◌, refl, ◌∙◌, sym, ap, Bool, true, false, not, ◌&&◌, ◌||◌, List, [], ◌∷◌, Option, none, some,
  arith, ◌==◌, if◌then◌else◌, All, All-mono, Bool-cases, Option-cases, inl, inr, subst, ◌⊎◌, keep,
}
use investment_portfolio_man.Result.{
  ok, err, parse_date, dividend_not_found, constraint, invalid_portfolio_id, already_matched,
  no_allocation, portfolio_fund_not_found, ok-injective,
}
use investment_portfolio_man.Model.{Ident, Time, Map, Dividend, PortfolioFund, completed}
use investment_portfolio_man.Store.Tables.{Tables, IbkrTransaction, IbkrAllocation}
use investment_portfolio_man.Store.Monad.{World, M, lift_result, transact}
use investment_portfolio_man.Store.Effects.{
  is_some, find_dividend, find_transaction, find_portfolio_fund, find_portfolio, or_not_found,
}
use investment_portfolio_man.Store.Rows.{find_row-replace, key-find_row, replaced}
use investment_portfolio_man.Store.Triples.{
  Answers, Answers-both, Answers-map, Answers-guards, Commits, Ensures, bind_rule, pure_rule,
  fail_rule, if_rule, exec_rule, query_rule, with_fact, weaken, weaken_result, lift_keep_rule,
  transact_rule, after-Commits,
}
use investment_portfolio_man.Store.Reads.{keep_rule, read_rule, lift_read_rule}
use investment_portfolio_man.Store.Repositories.{get_ibkr_transaction, get_portfolio_fund}
use investment_portfolio_man.Store.Dividends.{
  get_dividend, update_dividend, update_dividend_row, has_references, with_dividend, scanned,
  stored_dividend,
}
use investment_portfolio_man.Dividends.Linked.{IsLinked, IsLinkedRow, update_dividend-IsLinked}
use investment_portfolio_man.Ibkr.{require, is_processed}
use investment_portfolio_man.Ibkr.Kept.{require_rule}
use investment_portfolio_man.Ibkr.Atomic.{trigger-Commits}
use investment_portfolio_man.Ibkr.Matched.Entries.{
  IsEntry, IsReinvestment, IsReinvested, allocated_to-IsEntry, details_of-IsDetail,
  portfolio_to_tx_id-IsEntry,
}
use investment_portfolio_man.Ibkr.Match.{
  details_of, AllocationDetail, portfolio_to_tx_id, allocated_to, get_allocation_details, unmatched,
  matched, match_loop, match_body, match_dividend,
}

module _ {F : Type 0} where
  -- Dividends keep their links and nothing else changes; those that were reinvested still are, and
  -- those that are asked for are too.
  abbrev ReinvestedFrom : Tables F → Ident → List Ident → Tables F → Tables F → Type 0
  ReinvestedFrom base i ids before t =
      IsLinked t
      × (t ≡ record before { dividends = t.dividends })
      × ((j : Ident) → IsReinvested base i before j → IsReinvested base i t j)
      × All (IsReinvested base i t) ids

  -- What a matching of some dividends to an IBKR transaction leaves.
  abbrev pub AreReinvested : Ident → List Ident → Tables F → Tables F → Type 0
  AreReinvested i ids before t =
      IsLinked t
      × (t ≡ record before { dividends = t.dividends })
      × All (IsReinvested before i t) ids

  update-with_dividend :
      (d : Dividend F) (t : Tables F)
      → Answers (λ u. u ≡ with_dividend d t) (update_dividend_row d t)
  unfolding update_dividend_row
  update-with_dividend d t =
      Answers-guards _ (not (is_some (find_dividend d.id t))) (not (has_references d t))
        dividend_not_found constraint _ refl

  update-IsLinked :
      (d : Dividend F) (t : Tables F)
      → IsLinked t
      → d.reinvestment_status ≡ completed
      → Answers IsLinked (update_dividend_row d t)
  unfolding update_dividend_row
  update-IsLinked d t h e = elim (Bool-cases (has_references d t)) [
    | inl known ↦
        Answers-map _ IsLinked (update_dividend_row d t)
          (update_dividend-IsLinked d t h
            (elim (Bool-cases (is_some (find_transaction d.reinvestment_transaction_id t))) [
              | inl there ↦ rw there refl
              | inr gone ↦ rw (gone, e) (ground (arith, known, gone))
            ]))
          (λ u q. q.0)
    | inr unknown ↦ elim (Bool-cases (is_some (find_dividend d.id t))) [
      | inl there ↦ rw (there, unknown) tt
      | inr absent ↦ rw absent tt
    ]
  ]

  -- What the statement for one dividend does.
  abbrev IsUpdated : Dividend F → Tables F → Tables F → Type 0
  IsUpdated d before t = IsLinked t × (t ≡ with_dividend d before)

  update-IsUpdated :
      (d : Dividend F) (t : Tables F)
      → IsLinked t
      → d.reinvestment_status ≡ completed
      → Answers (IsUpdated d t) (update_dividend_row d t)
  update-IsUpdated d t h e =
      Answers-both IsLinked (λ u. u ≡ with_dividend d t) (update_dividend_row d t)
        (update-IsLinked d t h e) (update-with_dividend d t)

  -- The rows that were reinvested still are, and the row itself is.
  update-IsReinvested :
      (base : Tables F) (i : Ident) (d : Dividend F) (j : Ident) (t : Tables F)
      → IsReinvestment base i (stored_dividend d)
      → is_some (find_dividend j t) ≡ true
      → ((d.id ≡ j) ⊎ IsReinvested base i t j)
      → IsReinvested base i (with_dividend d t) j
  update-IsReinvested base i d j t good there h = elim (Bool-cases (d.id == j)) [
    | inl same ↦ elim (Option-cases (find_dividend j t)) [
      | inl missing ↦ cc (rw missing at there)
      | inr (old, found) ↦ (
        stored_dividend d,
        rw
            (
              find_row-replace (λ (y : Dividend F). y.id) j (stored_dividend d) t.dividends,
              same,
              found,
            )
            refl,
        good,
      )
    ]
    | inr other ↦ elim h [
      | inl own ↦ absurd (ground (arith, own, other))
      | inr (old, found, kept) ↦ (
        old,
        rw (find_row-replace (λ (y : Dividend F). y.id) j (stored_dividend d) t.dividends, other)
            found,
        kept,
      )
    ]
  ]

  row-ReinvestedFrom :
      (base : Tables F) (k i : Ident) (ids : List Ident) (d : Dividend F)
      (before between after : Tables F)
      → IsReinvestment base k (stored_dividend d)
      → d.id ≡ i
      → is_some (find_dividend i before) ≡ true
      → IsUpdated d before between
      → ReinvestedFrom base k ids between after
      → ReinvestedFrom base k (i ∷ ids) before after
  row-ReinvestedFrom base k i ids d before between after good own there (linked, at)
        (linked', same, keeps, all) =
      let first : IsReinvested base k between i =
        rw at (update-IsReinvested base k d i before good there (inl own)) in
      (
        linked',
        same ∙ ap (λ (u : Tables F). record u { dividends = after.dividends }) at,
        (λ j h. keeps j (rw at (update-IsReinvested base k d j before good (rw h.1 refl) (inr h)))),
        (keeps i first, all),
      )

  get_dividend_rule :
      (before : Tables F) (i : Ident)
      → Ensures
          (λ t. t ≡ before)
          (get_dividend i)
          (λ d t. (t ≡ before) × ((d.id ≡ i) × (is_some (find_dividend i before) ≡ true)))
  unfolding get_dividend
  get_dividend_rule before i = query_rule _ (λ t q. rw q (scanned-id (find_dividend i before) refl))
    where
      scanned-id :
          (o : Option (Dividend F))
          → find_dividend i before ≡ o
          → Answers
              (λ (d : Dividend F).
                (before ≡ before) × ((d.id ≡ i) × (is_some (find_dividend i before) ≡ true)))
              (scanned o)
      scanned-id none h = tt
      scanned-id (some d) h =
          Answers-guards _ (d.record_date == 0) (d.ex_dividend_date == 0) parse_date parse_date _
            (refl, (key-find_row (λ (y : Dividend F). y.id) i before.dividends d h, rw h refl))

  unmatched_rule :
      (P : Tables F → Type 0) (d : Dividend F) → Ensures P (unmatched d) (λ (u : Unit {0}). P)
  unmatched_rule P d =
      if_rule (d.reinvestment_transaction_id == 0) (λ e. pure_rule tt (λ t q. q))
        (λ e. fail_rule already_matched)

  get_portfolio_fund_found :
      (before : Tables F) (i : Ident)
      → Ensures
          (λ t. t ≡ before)
          (get_portfolio_fund i)
          (λ pf t. (t ≡ before) × (find_portfolio_fund i before ≡ some pf))
  unfolding get_portfolio_fund
  get_portfolio_fund_found before i =
      if_leaves (i == 0) (query_rule _ (λ t q. rw q (found (find_portfolio_fund i before) refl)))
    where
      found :
          (o : Option PortfolioFund)
          → find_portfolio_fund i before ≡ o
          → Answers
              (λ (pf : PortfolioFund). (before ≡ before) × (find_portfolio_fund i before ≡ some pf))
              (or_not_found portfolio_fund_not_found o)
      found none h = tt
      found (some pf) h = (refl, h)

      if_leaves :
          (b : Bool) {m : M F PortfolioFund} {Q : PortfolioFund → Tables F → Type 0}
          → Ensures (λ t. t ≡ before) m Q
          → Ensures (λ t. t ≡ before) (λ w. if b then (err invalid_portfolio_id, w) else m w) Q
      if_leaves true h = record { leaves = λ w p. tt }
      if_leaves false h = record { leaves = λ w p. h.leaves w p }

  found_in_base :
      (base before : Tables F) (i : Ident) {pf : PortfolioFund}
      → before ≡ record base { dividends = before.dividends }
      → find_portfolio_fund i before ≡ some pf
      → find_portfolio_fund i base ≡ some pf
  found_in_base base before i same h = ap (λ (u : Tables F). find_portfolio_fund i u) (sym same) ∙ h

  with_dividend_in_base :
      (base before t : Tables F) (d : Dividend F)
      → before ≡ record base { dividends = before.dividends }
      → t ≡ with_dividend d before
      → t ≡ record base { dividends = t.dividends }
  with_dividend_in_base base before t d same at =
      at
      ∙ ap (λ (u : Tables F). record u { dividends = (with_dividend d before).dividends }) same
      ∙ ap (λ (u : Tables F). record base { dividends = u.dividends }) (sym at)

  match_loop-ReinvestedFrom :
      (base : Tables F) (k : Ident) (x : IbkrTransaction F) (by : Map Ident) (ids : List Ident)
      (before : Tables F)
      → All (IsEntry base k) by
      → before ≡ record base { dividends = before.dividends }
      → IsLinked before
      → Ensures
          (λ t. t ≡ before)
          (match_loop x by ids)
          (λ (u : Unit {0}). ReinvestedFrom base k ids before)
  unfolding match_loop update_dividend
  match_loop-ReinvestedFrom base k x by [] before entries same linked = pure_rule tt (λ t e. (
    subst IsLinked (sym e) linked,
    e ∙ ap (λ (u : Tables F). record before { dividends = u.dividends }) (sym e),
    (λ j h. rw e h),
    tt,
  ))
  match_loop-ReinvestedFrom base k x by (i ∷ ids) before entries same linked =
      bind_rule (get_dividend_rule before i) λ d. with_fact λ known.
        bind_rule (unmatched_rule (λ t. t ≡ before) d) λ u.
          bind_rule (get_portfolio_fund_found before d.portfolio_fund_id) λ pf. with_fact λ owner.
            bind_rule
              (lift_read_rule (or_not_found no_allocation (allocated_to pf.portfolio_id by)))
              λ tx_id. with_fact λ entry.
                bind_rule
                  (exec_rule {P = λ t. t ≡ before} {Q = IsUpdated (matched x d tx_id) before}
                    (update_dividend_row (matched x d tx_id))
                    (λ t q. rw q (update-IsUpdated (matched x d tx_id) before linked refl)))
                  λ v. record {
                    leaves = λ w at.
                        (weaken_result
                            (match_loop-ReinvestedFrom base k x by ids w.tables entries
                              (with_dividend_in_base base before w.tables (matched x d tx_id) same
                                at.1)
                              at.0)
                            (λ u' t all.
                              row-ReinvestedFrom base k i ids (matched x d tx_id) before w.tables t
                                (
                                  pf,
                                  refl,
                                  found_in_base base before d.portfolio_fund_id same owner,
                                  allocated_to-IsEntry base k pf.portfolio_id by entries entry,
                                )
                                known.0 known.1 at all)).leaves
                          w refl;
                  }

  match_body-AreReinvested :
      (i : Ident) (ids : List Ident) (before : Tables F)
      → IsLinked before
      → Ensures (λ t. t ≡ before) (match_body i ids) (λ (date : Time). AreReinvested i ids before)
  unfolding match_body get_ibkr_transaction get_allocation_details
  match_body-AreReinvested i ids before linked = bind_rule (keep_rule (λ t. t ≡ before) _) λ x.
      bind_rule
        (weaken_result (require_rule (λ t. t ≡ before) (is_processed x.status)) (λ u t q. q.0))
        λ u.
          bind_rule
            (weaken_result
              (read_rule {P = λ t. t ≡ before} (λ t. details_of t (
                keep
                  (λ (a : IbkrAllocation F).
                    a.ibkr_transaction_id == i && is_some (find_portfolio a.portfolio_id t))
                  t.ibkr_allocations)))
              (λ details t q. (q.0, rw q.0 at q.1)))
            λ details. with_fact λ listed.
              bind_rule
                (match_loop-ReinvestedFrom before i x (portfolio_to_tx_id details []) ids before
                  (portfolio_to_tx_id-IsEntry before i details []
                    (details_of-IsDetail before i
                      (λ (a : IbkrAllocation F). is_some (find_portfolio a.portfolio_id before))
                      before.ibkr_allocations listed)
                    tt)
                  refl linked)
                (λ v. pure_rule x.transaction_date (λ t q. (q.0, q.1, q.3)))

  -- If every dividend names a reinvestment transaction that exists or none, and does name one if
  -- it is reinvested in part, then whichever statements fail, MatchDividend either returns an
  -- error and leaves the tables as they were, or succeeds, changes nothing but dividends, leaves
  -- tables where this holds again, and each dividend that it was asked for is there and completely
  -- reinvested, by a transaction that is there and no fee and that an allocation of the IBKR
  -- transaction to the dividend's portfolio names.
  pub match_dividend-AreReinvested :
      (i : Ident) (dividend_ids : List Ident) (w : World F)
      → IsLinked w.tables
      → Commits w.tables
          (λ (u : Unit {0}). AreReinvested i dividend_ids w.tables)
          (match_dividend i dividend_ids w)
  unfolding match_dividend
  match_dividend-AreReinvested i dividend_ids w linked =
      after-Commits w.tables (λ (date : Time). AreReinvested i dividend_ids w.tables) _ _
        (transact (match_body i dividend_ids) w)
        (transact_rule (match_body-AreReinvested i dividend_ids w.tables linked) w refl)
        (λ date w' q. trigger-Commits w.tables (AreReinvested i dividend_ids w.tables) i date w' q)
