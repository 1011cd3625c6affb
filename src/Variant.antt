-- ===== src/Variant.antt =====
-- QVariant, QVariantMap and QVariantList, as far as the program uses them, and what it takes from
-- Qt's JSON parser, printer and conversions: the record Qt, a parameter of all that uses it.
use nymea_remoteproxy.Base.{
  ℕ, Bool, Option, none, some, String, if◌then◌else◌, str_eq, Bytes, is_some,
}

-- A C++ int: `negsuc n` is -(n + 1).
pub data ℤ : Type 0 where
  pos : ℕ → ℤ
  negsuc : ℕ → ℤ

mutual
  pub data Variant : Type 0 where
    invalid : Variant
    boolean : Bool → Variant
    number : ℤ → Variant
    real : ℕ → Variant
    string : String → Variant
    list : VariantList → Variant
    map : VariantMap → Variant

  pub data VariantList : Type 0 where
    nil : VariantList
    cons : Variant → VariantList → VariantList

  pub data VariantMap : Type 0 where
    end : VariantMap
    field : String → Variant → VariantMap → VariantMap

-- QVariant::toMap and QVariant::toList: empty where the variant is none.
abbrev pub to_map : Variant → VariantMap
to_map (map m) = m
to_map _ = end

abbrev pub to_list : Variant → VariantList
to_list (list l) = l
to_list _ = nil

-- QVariantMap::find, contains, value, remove and insert.
unfoldable pub find : VariantMap → String → Option Variant
find end k = none
find (field j v m) k = if str_eq j k then some v else find m k

abbrev pub has_key : VariantMap → String → Bool
has_key m k = is_some (find m k)

abbrev or_invalid : Option Variant → Variant
or_invalid none = invalid
or_invalid (some v) = v

abbrev pub get_value : VariantMap → String → Variant
get_value m k = or_invalid (find m k)

unfoldable pub without_key : VariantMap → String → VariantMap
without_key end k = end
without_key (field j v m) k =
    let rest = without_key m k in if str_eq j k then rest else field j v rest

unfoldable pub insert_value : VariantMap → String → Variant → VariantMap
insert_value m k v = field k v (without_key m k)

-- QVariant::Type, as far as the program asks for it.
pub data Kind : Type 0 where
  uuid_kind string_kind bool_kind int_kind uint_kind double_kind : Kind

-- What the program takes from Qt: QJsonDocument, the conversions of QVariant, and QUuid's text.
pub record Qt : Type 0 where
  -- QJsonDocument::fromJson(data).toVariant(), `none` on a parse error.
  pub from_json : Bytes → Option Variant
  pub error_string : Bytes → String
  -- QJsonDocument::fromVariant(map).toJson(Compact), and the indented text of messages.
  pub to_json : VariantMap → Bytes
  pub to_json_text : VariantMap → String
  -- QVariant::toInt(&ok): `none` where ok is false.
  pub to_int : Variant → Option ℤ
  pub to_uint : Variant → ℕ
  pub to_bool : Variant → Bool
  pub to_text : Variant → String
  -- QVariant::toUuid and QUuid(text); the null uuid is 0.
  pub to_uuid : Variant → ℕ
  pub text_to_uuid : String → ℕ
  pub uuid_to_text : ℕ → String
  -- The text of a QVariant of a QUuid in a JSON document.
  pub uuid_json_text : ℕ → String
  pub can_convert : Kind → Variant → Bool
  pub converts : Kind → Variant → Bool
