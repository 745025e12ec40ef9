-- ===== src/Exchange/CcxtLive/Increasing.antt =====
-- apps/bot-engine/app/exchanges/ccxt_live.py: no bar comes twice or out of order.
use xbottrader.Exchange.CcxtLive.{
  Fed, Feed, latest_closed, entry, is_new, to_bar, new_bar, polled, gen,
}
use xbottrader.Strategy.Base.{Bar}
use xbottrader.Prelude.{
  if◌then◌else◌, Result, raised, ok, ◌>>=◌, ok-injective, Returns, bind-Returns, Returns-ok, ℕ,
  String, ◌≡◌, refl, sym, ap, ◌∙◌, Bool, true, false, Option, none, some, List, [], ◌∷◌,
}

module _ {D X : Type 0} (read_int : X → Result ℕ) (read_decimal : X → Result D)
    (symbol : String) where
  -- a bar has the symbol of its source, and the time of its candle
  abbrev IsBarOf : List X → Bar D → Type 0
  IsBarOf candle bar =
      (t : X) × (entry 0 candle ≡ ok t) × (read_int t ≡ ok bar.ts_ms) × (bar.symbol ≡ symbol)

  to_bar-IsBarOf :
      (candle : List X) → Returns (IsBarOf candle) (to_bar read_int read_decimal symbol candle)
  unfolding to_bar
  to_bar-IsBarOf candle =
      let P = IsBarOf candle in
      bind-Returns P (entry 0 candle) _ (λ t ht. bind-Returns P (entry 1 candle) _ (λ o _.
        bind-Returns P (entry 2 candle) _ (λ h _. bind-Returns P (entry 3 candle) _ (λ l _.
          bind-Returns P (entry 4 candle) _ (λ c _. bind-Returns P (entry 5 candle) _ (λ v _.
            bind-Returns P (read_int t) _ (λ ts hts. bind-Returns P (read_decimal o) _ (λ a _.
              bind-Returns P (read_decimal h) _ (λ b _. bind-Returns P (read_decimal l) _ (λ e _.
                bind-Returns P (read_decimal c) _
                  (λ f _. bind-Returns P (read_decimal v) _ (λ g _. (t, ht, hts, refl)))))))))))))

  abbrev IsNewBar : Option ℕ → Option (Bar D) → Type 0
  IsNewBar last none = Unit
  IsNewBar last (some bar) = (is_new last bar.ts_ms ≡ true) × (bar.symbol ≡ symbol)

  same-ts :
      (candle : List X) (t : X) (ts : ℕ) (bar : Bar D)
      → entry 0 candle ≡ ok t
      → read_int t ≡ ok ts
      → IsBarOf candle bar
      → ts ≡ bar.ts_ms
  same-ts candle t ts bar ht hts of =
      let same : of.0 ≡ t = ok-injective (sym of.1 ∙ ht) in
      ok-injective (sym hts ∙ ap read_int (sym same) ∙ of.2)

  branch-IsNewBar :
      (last : Option ℕ) (candle : List X) (t : X) (ts : ℕ) (b : Bool)
      → entry 0 candle ≡ ok t
      → read_int t ≡ ok ts
      → is_new last ts ≡ b
      → Returns (IsNewBar last) (
          if b
          then (to_bar read_int read_decimal symbol candle >>= λ bar. ok (some bar))
          else ok none)
  branch-IsNewBar last candle t ts false ht hts n = tt
  branch-IsNewBar last candle t ts true ht hts n =
      bind-Returns (IsNewBar last) (to_bar read_int read_decimal symbol candle)
        (λ bar. ok (some bar))
        (λ bar hb.
          let of =
            Returns-ok (IsBarOf candle) (to_bar read_int read_decimal symbol candle) bar
              (to_bar-IsBarOf candle) hb in
          (ap (is_new last) (sym (same-ts candle t ts bar ht hts of)) ∙ n, of.3))

  new_bar-IsNewBar :
      (last : Option ℕ) (candle : Option (List X))
      → Returns (IsNewBar last) (new_bar read_int read_decimal symbol last candle)
  unfolding new_bar
  new_bar-IsNewBar last none = tt
  new_bar-IsNewBar last (some candle) = bind-Returns (IsNewBar last) (entry 0 candle) _ (λ t ht.
      bind-Returns (IsNewBar last) (read_int t) _
        (λ ts hts. branch-IsNewBar last candle t ts (is_new last ts) ht hts refl))

  module _ (has_sink : Bool) where
    -- Each bar is newer than the one before it and of the symbol of its source, and the mark sink, if
    -- there is one, has been called with its close.
    abbrev pub AreIncreasing : Option ℕ → List (Fed D) → Type 0
    AreIncreasing last [] = Unit
    AreIncreasing last (f ∷ fs) =
        (is_new last f.bar.ts_ms ≡ true)
        × (f.bar.symbol ≡ symbol)
        × (f.marked ≡ (if has_sink then some (symbol, f.bar.close) else none))
        × AreIncreasing (some f.bar.ts_ms) fs

    polled-AreIncreasing :
        (last : Option ℕ) (answer : Result (Option (Bar D))) (rest : Option ℕ → Feed D)
        → Returns (IsNewBar last) answer
        → ((now : Option ℕ) → AreIncreasing now (rest now).yielded)
        → AreIncreasing last (polled read_int read_decimal symbol has_sink last answer rest).yielded
    polled-AreIncreasing last (raised e) rest h hr = tt
    polled-AreIncreasing last (ok none) rest h hr = hr last
    polled-AreIncreasing last (ok (some bar)) rest h hr = (h.0, h.1, refl, hr (some bar.ts_ms))

    -- Whatever the market answers to the polls, the bars that the source yields are strictly
    -- increasing in time from the last one before, and of its symbol, and the mark sink has been called
    -- with the close of each.
    pub gen-AreIncreasing :
        (polls : List (Result (List (List X)))) (last : Option ℕ)
        → AreIncreasing last (gen read_int read_decimal symbol has_sink polls last).yielded
    unfolding gen
    gen-AreIncreasing [] last = tt
    gen-AreIncreasing (candles ∷ polls) last =
        polled-AreIncreasing last
          (candles >>= λ cs. new_bar read_int read_decimal symbol last (latest_closed cs))
          (gen read_int read_decimal symbol has_sink polls)
          (bind-Returns (IsNewBar last) candles _
            (λ cs h. new_bar-IsNewBar last (latest_closed cs)))
          (gen-AreIncreasing polls)
