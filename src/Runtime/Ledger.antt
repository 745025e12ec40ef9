-- ===== src/Runtime/Ledger.antt =====
-- `PnLLedger` of apps/bot-engine/app/runtime/supervisor.py: profit and loss of the fills of a bot.
use xbottrader.Prelude.{if◌then◌else◌, List, [], ◌∷◌}
use xbottrader.Decimal.{Decimal, ◌⊕◌, ◌⊖◌, ◌⊗◌, zero_of}
use xbottrader.Strategy.Base.{is_buy}
use xbottrader.Exchange.Base.{FillEvent}

pub record PnlLedger (D : Type 0) : Type 0 where
  pub position : D
  pub cash_out : D

module _ (D : Type 0) ⦃d : Decimal D⦄ where
  abbrev pub new_ledger : PnlLedger D
  new_ledger = record { position = zero_of D; cash_out = zero_of D }

module _ {D : Type 0} ⦃d : Decimal D⦄ where
  unfoldable pub apply : PnlLedger D → FillEvent D → PnlLedger D
  apply ledger fill =
      let notional = fill.quantity ⊗ fill.price in
      if is_buy fill.side
      then record {
        position = ledger.position ⊕ fill.quantity;
        cash_out = ledger.cash_out ⊕ (notional ⊕ fill.fee);
      }
      else record {
        position = ledger.position ⊖ fill.quantity;
        cash_out = ledger.cash_out ⊖ (notional ⊖ fill.fee);
      }

  unfoldable pub pnl : PnlLedger D → D → D
  pnl ledger mark = ledger.position ⊗ mark ⊖ ledger.cash_out

  -- `for fill in fills: handle.ledger.apply(fill)`
  unfoldable pub apply_all : PnlLedger D → List (FillEvent D) → PnlLedger D
  unfolding apply
  apply_all ledger [] = ledger
  apply_all ledger (fill ∷ fills) = apply_all (apply ledger fill) fills
