-- ===== src/Exchange/Paper/Tests.antt =====
-- A run of the paper exchange, and its theorems at a concrete input.
use Prim.Native.String.{count, ◌∷◌ as str_cons}
use Prim.Native.String.count.{cons as count_cons}
use xbottrader.Prelude.{
  All, ℕ, zero, suc, ◌≤◌, String, ◌≡◌, refl, sym, ap, ◌∙◌, true, none, List, [], ◌∷◌, arith,
}
use xbottrader.Decimal.Whole.{ℤ, pos, whole, ℤ-IsOrdered}
use xbottrader.Strategy.Base.{buy, sell, no_tag, OrderIntent, market_intent, limit_intent}
use xbottrader.Exchange.Base.{FillEvent, Draws, IsFresh}
use xbottrader.Exchange.Paper.{
  PaperConfig, Resting, Paper, paper_adapter, rest_order, pop_orders, apply_slippage, is_triggered,
  build_fill, match_loop, match_resting, update_mark, place_market, place_order,
}
use xbottrader.Exchange.Paper.Book.{keep}
use xbottrader.Exchange.Paper.Matching.{is_left, IsUnreached, AreFillsOf, update_mark-AreFillsOf}
use xbottrader.Exchange.Paper.Calls.{PaperCall, update, place, IsPlaceable, IsBook, paper_run}
use xbottrader.Exchange.Paper.Ids.{IsLive, order_ids, is_listed, AreOnce}
use xbottrader.Exchange.Paper.Once.{paper_run-AreOnce}

-- a text of n letters, the id of draw n
letters : ℕ → String
letters zero = ""
letters (suc n) = str_cons "i" (letters n)

count-letters : (n : ℕ) → count (letters n) ≡ n
unfolding letters
count-letters zero = refl
count-letters (suc n) = count_cons "i" (letters n) ∙ ap (λ (k : ℕ). suc k) (count-letters n)

abbrev draws : Draws
draws = record { ids = letters; utc = λ n. n }

draws-IsFresh : IsFresh draws
draws-IsFresh = record {
  ids_injective = λ i j e. sym (count-letters i) ∙ ap count e ∙ count-letters j;
}

abbrev free : PaperConfig
free = record { slippage_bps = 0; fee_bps = 0; fee_currency = "USDT" }

abbrev exchange : Paper ℤ
exchange = paper_adapter "paper" free none

-- two limit buys, at 90 and at 110, a market sell, a mark that crosses both, and one more
abbrev calls : List (PaperCall ℤ)
calls =
    update "BTC/USDT" (pos 120)
    ∷ place (limit_intent "BTC/USDT" buy (pos 2) (pos 90) no_tag)
    ∷ place (limit_intent "BTC/USDT" buy (pos 3) (pos 110) no_tag)
    ∷ place (market_intent "BTC/USDT" sell (pos 1) no_tag)
    ∷ update "BTC/USDT" (pos 100)
    ∷ update "BTC/USDT" (pos 80)
    ∷ update "BTC/USDT" (pos 70)
    ∷ []

-- the order of a fill, its quantity and its price
abbrev tickets : List (FillEvent ℤ) → List (String × ℤ × ℤ)
tickets [] = []
tickets (f ∷ fills) = (f.exchange_order_id, f.quantity, f.price) ∷ tickets fills

three_fills :
    tickets (paper_run draws calls exchange).0
    ≡ ("ii", pos 1, pos 120) ∷ ("i", pos 3, pos 100) ∷ ("", pos 2, pos 80) ∷ []
unfolding letters update_mark match_resting match_loop build_fill place_order place_market
    apply_slippage rest_order pop_orders
three_fills = refl

exchange-IsBook : IsBook draws exchange
exchange-IsBook = record { distinct = tt; drawn_before = tt }

calls-ArePlaceable : All IsPlaceable calls
calls-ArePlaceable =
    (tt, (λ h. refl, (λ h. refl, (λ h. absurd (ground arith), (tt, (tt, (tt, tt)))))))

abbrev two_orders : Resting ℤ
two_orders =
    ("i", limit_intent "BTC/USDT" buy (pos 2) (pos 90) no_tag)
    ∷ ("ii", limit_intent "BTC/USDT" buy (pos 3) (pos 110) no_tag)
    ∷ []

abbrev resting_exchange : Paper ℤ
resting_exchange = record exchange { resting = two_orders; drawn = 3 }

update_mark-AreFillsOf_example :
    AreFillsOf free "BTC/USDT"
      (pos 100)
      (keep (is_triggered "BTC/USDT" (pos 100)) two_orders)
      (update_mark draws "BTC/USDT" (pos 100) resting_exchange).0
    × ((update_mark draws "BTC/USDT" (pos 100) resting_exchange).1.resting
        ≡ keep (is_left "BTC/USDT" (pos 100)) two_orders)
    × All
        (λ (r : String × OrderIntent ℤ). IsUnreached "BTC/USDT" (pos 100) r.1)
        (update_mark draws "BTC/USDT" (pos 100) resting_exchange).1.resting
    × (resting_exchange.drawn ≤ (update_mark draws "BTC/USDT" (pos 100) resting_exchange).1.drawn)
update_mark-AreFillsOf_example =
    update_mark-AreFillsOf ℤ-IsOrdered draws "BTC/USDT" (pos 100) resting_exchange
      (refl, (refl, tt))

paper_run-AreOnce_example :
    AreOnce (order_ids (paper_run draws calls exchange).0)
    × ((id : String)
        → is_listed id (order_ids (paper_run draws calls exchange).0) ≡ true
        → IsLive draws exchange id)
paper_run-AreOnce_example =
    paper_run-AreOnce draws calls exchange draws-IsFresh calls-ArePlaceable exchange-IsBook
