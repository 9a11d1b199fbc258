-- ===== src/Bridge/Json.antt =====
-- JSON values as `json.loads` returns them, and what gold_event_bridge/events.py asks of Python's
-- conversions. The JSON reader and printer, and the conversions of floats and of digit texts, are
-- parameters; the other conversions are written out.
use bot_ea.Base.{
  ℕ, Bool, true, false, Option, none, some, String, List, str_eq, if◌then◌else◌, ◌&&◌, not, ltb,
  is_empty,
}
use bot_ea.Base.Int.{ℤ, pos, negsuc, leb_ℤ}

-- An object's members and an array's items are lists of their own; `real` is a number literal
-- with a fraction or an exponent, `Infinity` or `NaN`.
mutual
  pub data Json : Type 0 where
    null : Json
    flag : Bool → Json
    integer : ℤ → Json
    real : String → Json
    text : String → Json
    array : Items → Json
    object : Members → Json

  pub data Items : Type 0 where
    nil : Items
    item : Json → Items → Items

  pub data Members : Type 0 where
    end : Members
    member : String → Json → Members → Members

-- What a conversion or a constructor of Python may raise.
pub data Raised : Type 0 where
  value_error type_error overflow_error os_error : Raised

pub data Conversion : Type 0 where
  converted : ℤ → Conversion
  failed : Raised → Conversion

pub record Python : Type 0 where
  -- `bytes.decode("utf-8")` and `json.loads`, with `none` for the exception that is caught
  pub decode : List ℕ → Option String
  pub loads : String → Option Json
  -- `json.dumps` of an object
  pub dumps : Members → String
  -- `int` of a text and of a float, `str` of an integer, a float, an array and an object
  pub int_of_text : String → Conversion
  pub int_of_real : String → Conversion
  pub show : Json → String
  -- whether a float is not zero
  pub nonzero : String → Bool

-- `value.get(key)`
unfoldable pub get : String → Members → Option Json
get k end = none
get k (member j v m) = if str_eq j k then some v else get k m

module _ ⦃py : Python⦄ where
  -- `int(value)`
  unfoldable pub to_int : Json → Conversion
  to_int null = failed type_error
  to_int (flag true) = converted (pos 1)
  to_int (flag false) = converted (pos 0)
  to_int (integer n) = converted n
  to_int (real r) = py.int_of_real r
  to_int (text s) = py.int_of_text s
  to_int (array _) = failed type_error
  to_int (object _) = failed type_error

  -- `str(value)`
  unfoldable pub to_str : Json → String
  to_str null = "None"
  to_str (flag true) = "True"
  to_str (flag false) = "False"
  to_str (text s) = s
  to_str v = py.show v

  -- The truth value of a decoded value.
  unfoldable pub truthy : Json → Bool
  truthy null = false
  truthy (flag b) = b
  truthy (integer (pos n)) = ltb 0 n
  truthy (integer (negsuc _)) = true
  truthy (real r) = py.nonzero r
  truthy (text s) = not (is_empty s)
  truthy (array nil) = false
  truthy (array (item _ _)) = true
  truthy (object end) = false
  truthy (object (member _ _ _)) = true

  unfoldable pub or_empty : Option Json → String
  unfolding to_str truthy
  or_empty none = ""
  or_empty (some v) = if truthy v then to_str v else ""

  -- `str(value.get(key) or "")`
  unfoldable pub optional_text : String → Members → String
  unfolding get or_empty
  optional_text k m = or_empty (get k m)

-- `datetime.fromtimestamp(n, tz=UTC)`, kept as the epoch second: the year must be 1 to 9999, and
-- an integer that no 64-bit `time_t` holds raises OverflowError.
unfoldable pub from_timestamp : ℤ → Conversion
from_timestamp n =
    if leb_ℤ (negsuc 62135596799) n && leb_ℤ n (pos 253402300799)
    then converted n
    else if leb_ℤ (negsuc 9223372036854775807) n && leb_ℤ n (pos 9223372036854775807)
    then failed value_error
    else failed overflow_error
