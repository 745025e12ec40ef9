-- ===== src/Config/Registry.antt =====
-- packages/xbt-core/xbt_core/strategies/python_registry.py: the strategies written in Python, by key.
-- What an exception leaves behind of an import is not modelled.
use xbottrader.Prelude.{
  if◌then◌else◌, is_none, value_error, type_error, Result, raised, ok, raise_if, ◌>>=◌, ◌>>◌,
  String, Bool, true, not, Option, none, some, List, [], ◌∷◌, str_eq,
}
use xbottrader.Strategy.Value.{Fields}

-- The keyed factories, and whether the package has been imported.
pub record Registry (D S : Type 0) : Type 0 where
  pub factories : List (String × (Fields D → Result S))
  pub loaded : Bool

-- What `register(key)` decorates: an object with `from_params`, a callable, or neither.
pub data Decorated (D S : Type 0) : Type 0 where
  with_from_params function_of : (Fields D → Result S) → Decorated D S
  not_callable : Decorated D S

module _ {D S : Type 0} where
  abbrev pub find_factory :
      String → List (String × (Fields D → Result S)) → Option (Fields D → Result S)
  find_factory key [] = none
  find_factory key ((k, build) ∷ rest) =
      let later = find_factory key rest in if str_eq k key then some build else later

  abbrev pub factory_of : Decorated D S → Result (Fields D → Result S)
  factory_of (with_from_params build) = ok build
  factory_of (function_of build) = ok build
  factory_of not_callable = raised (type_error "cannot register")

  -- `register(key)(obj)`
  unfoldable pub register : String → Decorated D S → Registry D S → Result (Registry D S)
  register key obj reg = do
    raise_if (not (is_none (find_factory key reg.factories)))
        (value_error "python strategy_key already registered")
    build ← factory_of obj
    ok (record { factories = (key, build) ∷ reg.factories; loaded = reg.loaded })

  -- the registrations of the modules of the package, in the order of their import
  unfoldable pub import_all : List (String × Decorated D S) → Registry D S → Result (Registry D S)
  unfolding register
  import_all [] reg = ok reg
  import_all ((key, obj) ∷ rest) reg = register key obj reg >>= import_all rest

  -- `_ensure_loaded`
  unfoldable pub ensure_loaded :
      List (String × Decorated D S) → Registry D S → Result (Registry D S)
  unfolding import_all
  ensure_loaded modules reg = if reg.loaded then ok reg else (do
    after ← import_all modules reg
    ok (record { factories = after.factories; loaded = true }))

  abbrev pub call_factory : Option (Fields D → Result S) → Fields D → Result S
  call_factory none params = raised (value_error "unknown python strategy_key")
  call_factory (some build) params = build params

  -- `build_python_strategy`, with the registry that it leaves
  unfoldable pub build_python_strategy :
      List (String × Decorated D S) → Registry D S → String → Fields D → Result (Registry D S × S)
  unfolding ensure_loaded
  build_python_strategy modules reg key params = do
    after ← ensure_loaded modules reg
    strategy ← call_factory (find_factory key after.factories) params
    ok (after, strategy)
