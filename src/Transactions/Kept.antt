-- ===== src/Transactions/Kept.antt =====
-- The bodies of create, update and delete, and whether realized gains match, by the rules of their
-- statements.
use investment_portfolio_man.Base.{
  ℕ, Option-cases, inl, inr, ◌≡◌, refl, Bool, true, false, not, Option, none, some, ◌==◌, subst,
  sym, ap, ◌∙◌,
}
use investment_portfolio_man.Float64.{Float64}
use investment_portfolio_man.Model.{Ident, Time, Transaction}
use investment_portfolio_man.Result.{insufficient_shares, parse_date}
use investment_portfolio_man.Store.Tables.{Tables}
use investment_portfolio_man.Store.Monad.{M}
use investment_portfolio_man.Store.Triples.{
  Answers-guards, Ensures, bind_rule, pure_rule, fail_rule, weaken, exec_rule, new_uuid_rule,
  get_now_rule, query_rule, lift_keep_rule, with_fact,
}
use investment_portfolio_man.Store.Rows.{key-find_row}
use investment_portfolio_man.Store.Effects.{find_transaction, or_not_found}
use investment_portfolio_man.Store.Repositories.{
  get_transaction_by_id, insert_transaction, update_transaction, delete_transaction,
  insert_realized_gain_loss, delete_realized_gain_loss_by_transaction_id,
  update_ibkr_transaction_status, get_ibkr_transaction_id_by_transaction_id,
  count_ibkr_allocations_by_ibkr_transaction_id,
}
use investment_portfolio_man.Store.Reads.{keep_rule, get_portfolio_fund_rule, get_transactions_rule}
use investment_portfolio_man.Transactions.{
  CreateTransactionRequest, UpdateTransactionRequest, when, is_sell, calculate_current_position,
  realized_gain, enough_shares, create_realized_gain_loss, new_transaction, create_body,
  check_portfolio_fund, parsed_if_given, apply_transaction_updates, update_body, revert_ibkr,
  delete_body,
}
use investment_portfolio_man.Transactions.Matched.{
  IsMatched, ElseMatched-IsMatched, ElseMatched, due, IsPending, due_kind,
  insert_transaction-IsPending, delete_realized-IsPending, insert_realized-IsPending,
  update_transaction-IsMatched, delete_transaction-IsMatched, update_status-ElseMatched,
}

module _ {F : Type 0} where
  pub when_rule :
      (P Q : Tables F → Type 0) (b : Bool) {m : M F (Unit {0})}
      → (b ≡ true → Ensures P m (λ u. Q))
      → (b ≡ false → (t : Tables F) → P t → Q t)
      → Ensures P (when b m) (λ u. Q)
  when_rule P Q true h k = h refl
  when_rule P Q false h k = pure_rule tt (k refl)

  enough_rule : (P : Tables F → Type 0) (b : Bool) → Ensures P (enough_shares b) (λ u. P)
  enough_rule P true = fail_rule insufficient_shares
  enough_rule P false = pure_rule tt (λ t p. p)

  pub parsed_if_given_rule :
      (P : Tables F → Type 0) (o : Option (Option Time)) (date : Time)
      → Ensures P (parsed_if_given o date) (λ d. P)
  parsed_if_given_rule P none date = pure_rule date (λ t p. p)
  parsed_if_given_rule P (some o) date = lift_keep_rule P (or_not_found parse_date o)

  check_portfolio_fund_rule :
      (P : Tables F → Type 0) (o : Option Ident) → Ensures P (check_portfolio_fund o) (λ u. P)
  check_portfolio_fund_rule P none = pure_rule tt (λ t p. p)
  check_portfolio_fund_rule P (some i) =
      bind_rule (get_portfolio_fund_rule P i) (λ pf. pure_rule tt (λ t p. p))

module _ {F : Type 0} ⦃f : Float64 F⦄ where
  calculate_current_position_rule :
      (P : Tables F → Type 0) (i x : Ident) → Ensures P (calculate_current_position i x) (λ h. P)
  unfolding calculate_current_position
  calculate_current_position_rule P i x =
      bind_rule (get_transactions_rule P i) (λ ts. lift_keep_rule P _)

  create_realized_gain_loss_rule :
      (x : Transaction F) (m : ℕ)
      → Ensures (IsPending x.id 0 m) (create_realized_gain_loss x) (λ u. IsPending x.id 1 m)
  unfolding create_realized_gain_loss insert_realized_gain_loss realized_gain
  create_realized_gain_loss_rule x m =
      let P : Tables F → Type 0 = IsPending x.id 0 m in
      bind_rule (calculate_current_position_rule P x.portfolio_fund_id x.id) λ h.
        bind_rule (enough_rule P _) λ u.
          bind_rule (get_portfolio_fund_rule P x.portfolio_fund_id) λ pf.
            bind_rule (new_uuid_rule P) λ i.
              bind_rule (get_now_rule P)
                λ now. exec_rule _ (insert_realized-IsPending (realized_gain i pf x h now) m)

  gain_if_sale_rule :
      (x : Transaction F) (m : ℕ)
      → Ensures
          (IsPending x.id 0 m)
          (when (is_sell x.kind) (create_realized_gain_loss x))
          (λ u. IsPending x.id (due_kind x.kind) m)
  gain_if_sale_rule x m =
      when_rule (IsPending x.id 0 m) (IsPending x.id (due_kind x.kind) m) (is_sell x.kind)
        (λ e. rw e (create_realized_gain_loss_rule x m)) (λ e t p. rw e p)

  pub create_body_rule :
      (req : CreateTransactionRequest F) → Ensures IsMatched (create_body req) (λ t. IsMatched)
  unfolding create_body insert_transaction new_transaction
  create_body_rule req = bind_rule (get_portfolio_fund_rule IsMatched req.portfolio_fund_id) λ pf.
      bind_rule (lift_keep_rule IsMatched (or_not_found parse_date req.date)) λ date.
        bind_rule (new_uuid_rule IsMatched) λ i. bind_rule (get_now_rule IsMatched) λ now.
          let x = new_transaction i date now req in
          bind_rule (exec_rule _ (insert_transaction-IsPending x)) λ u.
            bind_rule (gain_if_sale_rule x (due_kind req.kind))
              λ v. pure_rule x (λ t p. ElseMatched-IsMatched i t p.0 (p.1 ∙ sym p.2))

  apply_transaction_updates_rule :
      (P : Tables F → Type 0) (old : Transaction F) (req : UpdateTransactionRequest F)
      → Ensures P (apply_transaction_updates old req) (λ new t. P t × (new.id ≡ old.id))
  unfolding apply_transaction_updates
  apply_transaction_updates_rule P old req =
      bind_rule (check_portfolio_fund_rule P req.portfolio_fund_id) λ u.
        bind_rule (parsed_if_given_rule P req.date old.date) λ date. pure_rule _ (λ t p. (p, refl))

  no_gains_rule :
      (old : Transaction F)
      → Ensures
          (λ t. IsMatched t × (find_transaction old.id t ≡ some old))
          (when (is_sell old.kind) (delete_realized_gain_loss_by_transaction_id old.id))
          (λ u. IsPending old.id 0 (due_kind old.kind))
  unfolding delete_realized_gain_loss_by_transaction_id
  no_gains_rule old =
      when_rule (λ t. IsMatched t × (find_transaction old.id t ≡ some old))
        (IsPending old.id 0 (due_kind old.kind)) (is_sell old.kind)
        (λ e. exec_rule _ (λ t p. delete_realized-IsPending old.id _ t (λ i x. p.0 i) (ap due p.1)))
        (λ e t p. ((λ i x. p.0 i), p.0 old.id ∙ ap due p.1 ∙ rw e refl, ap due p.1))

  -- A transaction as it stands in the table.
  abbrev pub IsCurrent : Transaction F → Tables F → Type 0
  IsCurrent x t = IsMatched t × (find_transaction x.id t ≡ some x)

  get_transaction_by_id_rule :
      (i : Ident)
      → Ensures {F = F} IsMatched
          (get_transaction_by_id i)
          (λ old t. IsCurrent old t × (old.id ≡ i))
  unfolding get_transaction_by_id
  get_transaction_by_id_rule i = query_rule _ (λ t h. elim (Option-cases (find_transaction i t)) [
    | inl none_ ↦ rw none_ tt
    | inr (x, e) ↦
        let same = key-find_row (λ (y : Transaction F). y.id) i t.transactions x e in
        rw e (
          Answers-guards (λ (old : Transaction F). IsCurrent old t × (old.id ≡ i)) (x.date == 0)
            (x.created_at == 0) parse_date parse_date x
            ((h, subst (λ j. find_transaction j t ≡ some x) (sym same) e), same))
  ])

  revert_ibkr_rule :
      (i ibkr_id : Ident)
      → Ensures {F = F} (ElseMatched i) (revert_ibkr ibkr_id) (λ u. ElseMatched i)
  unfolding revert_ibkr count_ibkr_allocations_by_ibkr_transaction_id update_ibkr_transaction_status
  revert_ibkr_rule i ibkr_id =
      let P : Tables F → Type 0 = ElseMatched i in
      when_rule P P (not (ibkr_id == 0))
        (λ e. bind_rule (keep_rule P _) (λ n.
          when_rule P P (n == 1) (λ e'. exec_rule _ (update_status-ElseMatched i ibkr_id _ _))
            (λ e' t p. p)))
        (λ e t p. p)

  no_gains_of_rule :
      (i : Ident) (old : Transaction F)
      → old.id ≡ i
      → Ensures
          (IsCurrent old)
          (when (is_sell old.kind) (delete_realized_gain_loss_by_transaction_id i))
          (λ u. IsPending old.id 0 (due_kind old.kind))
  no_gains_of_rule i old same =
      subst
        (λ j.
          Ensures (IsCurrent old)
            (when (is_sell old.kind) (delete_realized_gain_loss_by_transaction_id j))
            (λ u. IsPending old.id 0 (due_kind old.kind)))
        same (no_gains_rule old)

  pub update_body_rule :
      (i : Ident) (req : UpdateTransactionRequest F)
      → Ensures IsMatched (update_body i req) (λ both. IsMatched)
  unfolding update_body update_transaction
  update_body_rule i req = bind_rule (get_transaction_by_id_rule i) (λ old. with_fact (λ same.
      bind_rule (apply_transaction_updates_rule _ old req) (λ new. with_fact (λ same'.
        let m = due_kind old.kind in
        bind_rule (no_gains_of_rule i old same) (λ u.
          bind_rule
            (weaken (λ t p. subst (λ j. IsPending j 0 m t) (sym same') p) (gain_if_sale_rule new m))
            (λ v.
              bind_rule (exec_rule _ (update_transaction-IsMatched new m))
                (λ w. pure_rule _ (λ t p. p))))))))

  pub delete_body_rule : (i : Ident) → Ensures {F = F} IsMatched (delete_body i) (λ x. IsMatched)
  unfolding delete_body delete_transaction get_ibkr_transaction_id_by_transaction_id
  delete_body_rule i = bind_rule (get_transaction_by_id_rule i) (λ old. with_fact (λ same.
      bind_rule (no_gains_of_rule i old same) (λ u.
        bind_rule
          (weaken (λ t p. subst (λ j. ElseMatched j t) same p.0) (keep_rule (ElseMatched i) _))
          (λ ibkr_id. bind_rule (revert_ibkr_rule i ibkr_id) (λ v.
            bind_rule (exec_rule _ (delete_transaction-IsMatched i))
              (λ w. pure_rule _ (λ t p. p)))))))
