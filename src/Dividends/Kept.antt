-- ===== src/Dividends/Kept.antt =====
-- What the statements of the dividend service keep: realized gains match and dividends are linked.
use investment_portfolio_man.Base.{
  ◌==◌, ◌≡◌, refl, true, false, some, arith, Option-cases, inl, inr, sym, ◌∙◌, ap, subst,
}
use investment_portfolio_man.Result.{parse_date}
use investment_portfolio_man.Model.{Ident, Transaction, Dividend, ReinvestmentStatus}
use investment_portfolio_man.Store.Tables.{Tables}
use investment_portfolio_man.Store.Monad.{pure}
use investment_portfolio_man.Store.Triples.{
  Answers-guards, Answers, Answers-both, Answers-map, Ensures, pure_rule, query_rule,
}
use investment_portfolio_man.Store.Rows.{key-find_row}
use investment_portfolio_man.Store.Effects.{
  is_some, find_transaction, insert_transaction_row, update_transaction_row,
}
use investment_portfolio_man.Store.Repositories.{get_transaction_by_id}
use investment_portfolio_man.Transactions.Matched.{
  IsMatched, ElseMatched-IsMatched, due, insert_transaction-IsPending, update_transaction-IsMatched,
  due_kind,
}
use investment_portfolio_man.Dividends.{with_reinvestment_status}
use investment_portfolio_man.Dividends.Linked.{
  is_partial, IsLinkedRow, IsLinked, insert_transaction-IsLinked, update_transaction-IsLinked,
}

module _ {F : Type 0} where
  abbrev pub IsSound : Tables F → Type 0
  IsSound t = IsMatched t × IsLinked t

  abbrev pub Insertable : Dividend F → Tables F → Type 0
  Insertable d t = IsSound t × IsLinkedRow t d

  abbrev pub IsFound : Ident → Tables F → Type 0
  IsFound i t = IsSound t × (is_some (find_transaction i t) ≡ true)

  -- The dividend that a step makes of `d`, ready to be written.
  abbrev pub Settled : ReinvestmentStatus → Dividend F → Dividend F → Tables F → Type 0
  Settled s d new t =
      Insertable new t
      × (new.id ≡ d.id)
      × (new.reinvestment_status ≡ s)
      × (new.total_amount ≡ d.total_amount)

  restatus-IsLinkedRow :
      (t : Tables F) (s : ReinvestmentStatus) (d : Dividend F)
      → is_partial s ≡ false
      → IsLinkedRow t d
      → IsLinkedRow t (with_reinvestment_status s d)
  restatus-IsLinkedRow t s d e h = ground (arith, e, h)

  pub restatus_rule :
      (s : ReinvestmentStatus) (d : Dividend F)
      → is_partial s ≡ false
      → Ensures (Insertable d) (pure (with_reinvestment_status s d)) (Settled s d)
  restatus_rule s d e =
      pure_rule _ (λ t p. ((p.0, restatus-IsLinkedRow t s d e p.1), refl, refl, refl))

  pub get_transaction_rule :
      (P : Tables F → Type 0) (i : Ident)
      → Ensures P
          (get_transaction_by_id i)
          (λ x t. P t × (find_transaction x.id t ≡ some x) × (x.id ≡ i))
  unfolding get_transaction_by_id
  get_transaction_rule P i = query_rule _ (λ t h. elim (Option-cases (find_transaction i t)) [
    | inl none_ ↦ rw none_ tt
    | inr (x, e) ↦
        let same = key-find_row (λ (y : Transaction F). y.id) i t.transactions x e in
        rw e (
          Answers-guards
            (λ (y : Transaction F). P t × (find_transaction y.id t ≡ some y) × (y.id ≡ i))
            (x.date == 0) (x.created_at == 0) parse_date parse_date x
            (h, subst (λ j. find_transaction j t ≡ some x) (sym same) e, same))
  ])

  -- A transaction that is no sale.
  pub insert_other-IsSound :
      (x : Transaction F) (t : Tables F)
      → due_kind x.kind ≡ 0
      → IsSound t
      → Answers (IsFound x.id) (insert_transaction_row x t)
  insert_other-IsSound x t other h =
      Answers-map _ _ (insert_transaction_row x t)
        (Answers-both _ _ (insert_transaction_row x t) (insert_transaction-IsPending x t h.0)
          (insert_transaction-IsLinked x t h.1))
        (λ t' p.
          ((ElseMatched-IsMatched x.id t' p.0.0 (p.0.1 ∙ sym (p.0.2 ∙ other)), p.1.0), p.1.1))

  -- A change that keeps the identifier and the type.
  pub update_same-IsSound :
      (x y : Transaction F) (t : Tables F)
      → y.id ≡ x.id
      → y.kind ≡ x.kind
      → find_transaction x.id t ≡ some x
      → IsSound t
      → Answers (IsFound y.id) (update_transaction_row y t)
  update_same-IsSound x y t same alike there h =
      let found : find_transaction y.id t ≡ some x =
        subst (λ i. find_transaction i t ≡ some x) (sym same) there in
      Answers-map _ _ (update_transaction_row y t)
        (Answers-both _ _ (update_transaction_row y t)
          (update_transaction-IsMatched y (due_kind y.kind) t (
            (λ i e. h.0 i),
            h.0 y.id ∙ ap due found ∙ ap due_kind (sym alike),
            ap due found ∙ ap due_kind (sym alike),
          ))
          (update_transaction-IsLinked y t h.1))
        (λ t' p. ((p.0, p.1.0), p.1.1))
