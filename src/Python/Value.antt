-- ===== src/Python/Value.antt =====
-- Dynamic values: what `json.loads` or `yaml.safe_load` returns, and `Any` fields hold.
use io_iii_runtime.Prelude.{
  ℕ, suc, ◌+◌, ◌*◌, ◌^◌, String, Bool, true, false, not, ◌&&◌, Option, none, some, ◌==◌,
  if◌then◌else◌, str_eq,
}
use io_iii_runtime.Python.Text.{is_empty}

-- `negsuc n` is -(n + 1).
pub data ℤ : Type 0 where
  pos : ℕ → ℤ
  negsuc : ℕ → ℤ

abbrev pub is_negative : ℤ → Bool
is_negative (pos _) = false
is_negative (negsuc _) = true

-- `float m k` is the decimal m / 10^k.
mutual
  pub data Value : Type 0 where
    null : Value
    bool : Bool → Value
    int : ℤ → Value
    float : ℤ → ℕ → Value
    str : String → Value
    obj : Fields → Value
    arr : Items → Value

  pub data Items : Type 0 where
    nil : Items
    cons : Value → Items → Items

  pub data Fields : Type 0 where
    end : Fields
    field : String → Value → Fields → Fields

-- `d.get(k)`, with `none` for an absent key.
abbrev pub find : String → Fields → Option Value
find k end = none
find k (field j v d) = if str_eq j k then some v else find k d

abbrev pub or_null : Option Value → Value
or_null none = null
or_null (some v) = v

abbrev pub get : String → Fields → Value
get k d = or_null (find k d)

abbrev pub has : String → Fields → Bool
has k d = elim (find k d) [ none ↦ false | some _ ↦ true ]

abbrev pub is_zero_ℤ : ℤ → Bool
is_zero_ℤ (pos n) = n == 0
is_zero_ℤ (negsuc _) = false

-- `bool(v)`
abbrev pub truthy : Value → Bool
truthy null = false
truthy (bool b) = b
truthy (int z) = not (is_zero_ℤ z)
truthy (float m k) = not (is_zero_ℤ m)
truthy (str s) = not (is_empty s)
truthy (arr nil) = false
truthy (arr (cons _ _)) = true
truthy (obj end) = false
truthy (obj (field _ _ _)) = true

abbrev pub is_null : Value → Bool
is_null null = true
is_null _ = false

-- `isinstance(v, int)` holds of Booleans too: `True` is the integer 1.
abbrev pub as_int : Value → Option ℤ
as_int (int z) = some z
as_int (bool true) = some (pos 1)
as_int (bool false) = some (pos 0)
as_int _ = none

abbrev pub as_str : Value → Option String
as_str (str s) = some s
as_str _ = none

abbrev pub as_obj : Value → Option Fields
as_obj (obj d) = some d
as_obj _ = none

abbrev pub as_arr : Value → Option Items
as_arr (arr xs) = some xs
as_arr _ = none

-- `v == s` for a text `s`.
abbrev pub is_str : String → Value → Bool
is_str s (str t) = str_eq t s
is_str s _ = false

abbrev pub size_fields : Fields → ℕ
size_fields end = 0
size_fields (field _ _ d) = suc (size_fields d)

abbrev pos_part : ℤ → ℕ
pos_part (pos n) = n
pos_part (negsuc n) = 0

abbrev neg_part : ℤ → ℕ
neg_part (pos n) = 0
neg_part (negsuc n) = suc n

-- m / 10^i = n / 10^j
abbrev same_number : ℤ → ℕ → ℤ → ℕ → Bool
same_number m i n j =
    pos_part m * 10 ^ j + neg_part n * 10 ^ i == pos_part n * 10 ^ i + neg_part m * 10 ^ j

abbrev as_number : Value → Option (ℤ × ℕ)
as_number (int z) = some (z, 0)
as_number (float m k) = some (m, k)
as_number (bool true) = some (pos 1, 0)
as_number (bool false) = some (pos 0, 0)
as_number _ = none

abbrev eq_numbers : Option (ℤ × ℕ) → Option (ℤ × ℕ) → Bool
eq_numbers (some (m, i)) (some (n, j)) = same_number m i n j
eq_numbers _ _ = false

-- `a == b`. Dictionaries are compared without regard to order.
unfoldable mutual
  pub py_eq : Value → Value → Bool
  py_eq null w = is_null w
  py_eq (str s) w = is_str s w
  py_eq (arr xs) w = elim w [ arr ys ↦ items_eq xs ys | _ ↦ false ]
  py_eq (obj d) w = elim w [ obj e ↦ size_fields d == size_fields e && fields_in d e | _ ↦ false ]
  py_eq (int z) w = eq_numbers (some (z, 0)) (as_number w)
  py_eq (float m k) w = eq_numbers (some (m, k)) (as_number w)
  py_eq (bool b) w = eq_numbers (as_number (bool b)) (as_number w)

  pub items_eq : Items → Items → Bool
  items_eq nil ys = elim ys [ nil ↦ true | cons _ _ ↦ false ]
  items_eq (cons x xs) ys = elim ys [ nil ↦ false | cons y zs ↦ py_eq x y && items_eq xs zs ]

  pub fields_in : Fields → Fields → Bool
  fields_in end e = true
  fields_in (field k v d) e = elim (find k e) [ none ↦ false | some w ↦ py_eq v w ] && fields_in d e

-- Counts and optional values as the encoder takes them.
abbrev pub nat : ℕ → Value
nat n = int (pos n)

abbrev pub opt_nat : Option ℕ → Value
opt_nat none = null
opt_nat (some n) = nat n

abbrev pub opt_str : Option String → Value
opt_str none = null
opt_str (some s) = str s
