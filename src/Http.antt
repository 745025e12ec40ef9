-- ===== src/Http.antt =====
-- The answer of an HTTP request, as far as the clients read it. The HTTP library is a parameter.
use xbottrader.Strategy.Value.{Fields}
use xbottrader.Prelude.{Result, ℕ}

pub record HttpResponse (D : Type 0) : Type 0 where
  pub status_code : ℕ
  -- `resp.json()`
  pub json : Result (Fields D)
