-- ===== src/Config/Keys.antt =====
-- packages/xbt-core/xbt_core/strategies/python_registry.py: a key stays with the factory that it was
-- registered with.
use xbottrader.Config.Registry.{Registry}
use xbottrader.Strategy.Value.{Fields}
use xbottrader.Prelude.{Result, raised, ok, String, Option, some, List}

module _ {D S : Type 0} where
  abbrev factories_or :
      List (String × (Fields D → Result S))
      → Result (Registry D S)
      → List (String × (Fields D → Result S))
  factories_or start (raised e) = start
  factories_or start (ok reg) = reg.factories

  abbrev option_of :
      (Fields D → Result S) → Result (Fields D → Result S) → Option (Fields D → Result S)
  option_of start (raised e) = some start
  option_of start (ok build) = some build
