-- ===== src/Strategy/Value.antt =====
-- The Python values of a configuration: what JSON has, with decimals. A dict is a list of its items in
-- order, and of two items with one key the first counts. Floats, bools and negative ints are left
-- out: no field of a configuration that its schema has accepted holds one.
use xbottrader.Prelude.{
  if◌then◌else◌, or_default, key_error, type_error, invalid_operation, Result, raised, ok, ℕ,
  String, Option, none, some, str_eq,
}
use xbottrader.Decimal.{Decimal}

mutual
  pub data Value (D : Type 0) : Type 0 where
    null : Value D
    text : String → Value D
    number : ℕ → Value D
    decimal : D → Value D
    list : Values D → Value D
    dict : Fields D → Value D

  pub data Values (D : Type 0) : Type 0 where
    no_items : Values D
    item : Value D → Values D → Values D

  pub data Fields (D : Type 0) : Type 0 where
    end : Fields D
    field : String → Value D → Fields D → Fields D

-- What Python makes of a value of another type: `str(x)` where `x` is no str, and `int(x)` where `x`
-- is no int.
pub record Coercions (D : Type 0) : Type 0 where
  pub show : Value D → String
  pub read_int : Value D → Result ℕ

module _ {D : Type 0} where
  abbrev pub find_key : String → Fields D → Option (Value D)
  find_key key end = none
  find_key key (field k v rest) =
      let later = find_key key rest in if str_eq k key then some v else later

  -- `_as_mapping`: `vars(x)` raises on a value that is no dict
  abbrev pub as_mapping : Value D → Result (Fields D)
  as_mapping (dict fields) = ok fields
  as_mapping null = raised (type_error "vars() argument must have __dict__ attribute")
  as_mapping (text s) = raised (type_error "vars() argument must have __dict__ attribute")
  as_mapping (number n) = raised (type_error "vars() argument must have __dict__ attribute")
  as_mapping (decimal x) = raised (type_error "vars() argument must have __dict__ attribute")
  as_mapping (list vs) = raised (type_error "vars() argument must have __dict__ attribute")

  -- `m[key]` once the key has been looked up, and `m.get(key, default)`
  abbrev pub present : Option (Value D) → Result (Value D)
  present none = raised (key_error "missing key")
  present (some v) = ok v

  abbrev pub get_item : String → Fields D → Result (Value D)
  get_item key fields = present (find_key key fields)

  abbrev pub get_default : String → Value D → Fields D → Value D
  get_default key default fields = or_default default (find_key key fields)

module _ {D : Type 0} (py : Coercions D) where
  -- `str(x)`
  abbrev pub to_str : Value D → String
  to_str (text s) = s
  to_str null = py.show null
  to_str (number n) = py.show (number n)
  to_str (decimal x) = py.show (decimal x)
  to_str (list vs) = py.show (list vs)
  to_str (dict fields) = py.show (dict fields)

  -- `int(x)`
  abbrev pub to_int : Value D → Result ℕ
  to_int (number n) = ok n
  to_int null = py.read_int null
  to_int (text s) = py.read_int (text s)
  to_int (decimal x) = py.read_int (decimal x)
  to_int (list vs) = py.read_int (list vs)
  to_int (dict fields) = py.read_int (dict fields)

  module _ ⦃d : Decimal D⦄ where
    -- `Decimal(text)`
    abbrev pub parse_decimal : String → Result D
    parse_decimal s = elim (d.parse s) [
      | none ↦ raised (invalid_operation "ConversionSyntax")
      | some x ↦ ok x
    ]

    -- `Decimal(str(x))`, which gives a decimal and an int back
    abbrev pub to_decimal : Value D → Result D
    to_decimal (decimal x) = ok x
    to_decimal (number n) = ok (d.of_ℕ n)
    to_decimal (text s) = parse_decimal s
    to_decimal null = parse_decimal (py.show null)
    to_decimal (list vs) = parse_decimal (py.show (list vs))
    to_decimal (dict fields) = parse_decimal (py.show (dict fields))
