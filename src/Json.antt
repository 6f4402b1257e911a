-- ===== src/Json.antt =====
-- JSON values as Go's `encoding/json` decodes them into `any` (backend/internal/api/openai). A
-- number is `num m e`, the decimal m / 10^e; the integers that the code itself puts into a payload
-- are such numbers too.
use wcs_transfer.Base.{
  ℕ, ◌^◌, ◌≡◌, refl, Bool, Option, none, some, arith, if◌then◌else◌, ℤ, ◌/ℤ◌, Text, text_eq,
  text_eq_iff,
}

mutual
  pub data Json : Type 0 where
    null : Json
    bool : Bool → Json
    num : ℤ → ℕ → Json
    str : Text → Json
    arr : Items → Json
    obj : Fields → Json

  pub data Items : Type 0 where
    nil : Items
    cons : Json → Items → Items

  pub data Fields : Type 0 where
    end : Fields
    field : Text → Json → Fields → Fields

-- `payload[name]`
unfoldable pub get_field : Text → Fields → Option Json
get_field name end = none
get_field name (field key value rest) = if text_eq key name then some value else get_field name rest

-- `payload[name] = value`
unfoldable pub set_field : Text → Json → Fields → Fields
set_field name value end = field name value end
set_field name value (field key old rest) =
    if text_eq key name then field name value rest else field key old (set_field name value rest)

-- `delete(payload, name)`
unfoldable pub delete_field : Text → Fields → Fields
delete_field name end = end
delete_field name (field key old rest) =
    if text_eq key name then delete_field name rest else field key old (delete_field name rest)

-- A read after a write.
pub get_field-set_field :
    (name other : Text) (value : Json) (fields : Fields)
    → get_field other (set_field name value fields)
      ≡ (if text_eq name other then some value else get_field other fields)
unfolding get_field set_field
get_field-set_field name other value end = refl
get_field-set_field name other value (field key old rest) = ground (
  arith,
  text_eq_iff name other,
  text_eq_iff key name,
  text_eq_iff key other,
  get_field-set_field name other value rest,
)

-- `int(number)`: towards zero.
unfoldable pub truncate : ℤ → ℕ → ℤ
truncate m e = m /ℤ (10 ^ e)

-- `value.(map[string]any)`, of a value that may be missing
abbrev pub as_object : Option Json → Option Fields
as_object (some (obj fields)) = some fields
as_object _ = none

abbrev pub as_text : Option Json → Option Text
as_text (some (str s)) = some s
as_text _ = none
