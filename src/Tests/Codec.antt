-- ===== src/Tests/Codec.antt =====
-- A stand-in for Qt's JSON documents that reads back what it prints: a document is written as the
-- steps of a machine with a stack, two numbers for each step.
use Prim.Native.Nat.{Ordering, compare}
use Prim.Native.Char.{Char, char, code, nul, IsScalar, IsLt}
use nymea_remoteproxy.Base.{
  ℕ, ◌≡◌, ◌∙◌, refl, ap, true, false, Option, none, some, List, [], ◌∷◌, String, Bytes,
  if◌then◌else◌, ◌==◌,
}
use nymea_remoteproxy.Variant.{
  Variant, VariantList, VariantMap, ℤ, pos, negsuc, invalid, boolean, number, real, string, list,
  map, nil, cons, end, field, Qt,
}
use nymea_remoteproxy.Tests.{test_qt}

-- Whether a number is that of a character, from its comparisons with the bounds.
abbrev AreBoth : Ordering → Ordering → Type 0
AreBoth Ordering.lt o = IsLt o
AreBoth Ordering.eq _ = ⊥
AreBoth Ordering.gt _ = ⊥

abbrev IsInRange : Ordering → Ordering → Ordering → Type 0
IsInRange Ordering.lt _ _ = Unit
IsInRange Ordering.eq o p = AreBoth o p
IsInRange Ordering.gt o p = AreBoth o p

abbrev both_found : (o p : Ordering) → Option (AreBoth o p)
both_found Ordering.lt Ordering.lt = some tt
both_found Ordering.lt Ordering.eq = none
both_found Ordering.lt Ordering.gt = none
both_found Ordering.eq p = none
both_found Ordering.gt p = none

abbrev range_found : (n o p : Ordering) → Option (IsInRange n o p)
range_found Ordering.lt o p = some tt
range_found Ordering.eq o p = both_found o p
range_found Ordering.gt o p = both_found o p

both_lem : (o p : Ordering) (h : AreBoth o p) → both_found o p ≡ some h
both_lem Ordering.lt Ordering.lt h = refl
both_lem Ordering.lt Ordering.eq h = absurd h
both_lem Ordering.lt Ordering.gt h = absurd h
both_lem Ordering.eq p h = absurd h
both_lem Ordering.gt p h = absurd h

range_lem : (n o p : Ordering) (h : IsInRange n o p) → range_found n o p ≡ some h
range_lem Ordering.lt o p h = refl
range_lem Ordering.eq o p h = both_lem o p h
range_lem Ordering.gt o p h = both_lem o p h

abbrev char_or_nul : (n : ℕ) → Option (IsScalar n) → Char
char_or_nul n none = nul
char_or_nul n (some h) = char n h

to_char : ℕ → Char
to_char n = char_or_nul n (range_found (compare n 55296) (compare 57343 n) (compare n 1114112))

to_char-code : (c : Char) → to_char (code c) ≡ c
unfolding to_char
to_char-code (char n h) =
    ap (char_or_nul n) (range_lem (compare n 55296) (compare 57343 n) (compare n 1114112) h)

data Item : Type 0 where
  value : Variant → Item
  values : VariantList → Item
  entries : VariantMap → Item
  text : String → Item

add_char : ℕ → List Item → List Item
add_char n (text s ∷ items) = text (String.◌∷◌ (to_char n) s) ∷ items
add_char n items = items

to_string : List Item → List Item
to_string (text s ∷ items) = value (string s) ∷ items
to_string items = items

to_list_value : List Item → List Item
to_list_value (values l ∷ items) = value (list l) ∷ items
to_list_value items = items

to_map_value : List Item → List Item
to_map_value (entries m ∷ items) = value (map m) ∷ items
to_map_value items = items

add_value : List Item → List Item
add_value (values l ∷ value v ∷ items) = values (cons v l) ∷ items
add_value items = items

add_entry : List Item → List Item
add_entry (entries m ∷ value v ∷ text k ∷ items) = entries (field k v m) ∷ items
add_entry items = items

step : ℕ → ℕ → List Item → List Item
step tag n items =
    if tag == 0
    then value invalid ∷ items
    else if tag == 1
    then value (boolean (n == 1)) ∷ items
    else if tag == 2
    then value (number (pos n)) ∷ items
    else if tag == 3
    then value (number (negsuc n)) ∷ items
    else if tag == 4
    then value (real n) ∷ items
    else if tag == 5
    then text "" ∷ items
    else if tag == 6
    then add_char n items
    else if tag == 7
    then to_string items
    else if tag == 8
    then values nil ∷ items
    else if tag == 9
    then add_value items
    else if tag == 10
    then to_list_value items
    else if tag == 11
    then entries end ∷ items
    else if tag == 12
    then add_entry items
    else if tag == 13
    then to_map_value items
    else items

steps : Bytes → List Item → List Item
steps [] items = items
steps (tag ∷ []) items = items
steps (tag ∷ n ∷ rest) items = steps rest (step tag n items)

-- What is printed, before the rest.
print_text : String → Bytes → Bytes
print_text String.[] rest = 5 ∷ 0 ∷ rest
print_text (String.◌∷◌ c s) rest = print_text s (6 ∷ code c ∷ rest)

print_number : ℤ → Bytes → Bytes
print_number (pos n) rest = 2 ∷ n ∷ rest
print_number (negsuc n) rest = 3 ∷ n ∷ rest

mutual
  print_value : Variant → Bytes → Bytes
  print_value invalid rest = 0 ∷ 0 ∷ rest
  print_value (boolean b) rest = 1 ∷ (if b then 1 else 0) ∷ rest
  print_value (number n) rest = print_number n rest
  print_value (real r) rest = 4 ∷ r ∷ rest
  print_value (string s) rest = print_text s (7 ∷ 0 ∷ rest)
  print_value (list l) rest = print_values l (10 ∷ 0 ∷ rest)
  print_value (map m) rest = print_entries m (13 ∷ 0 ∷ rest)

  print_values : VariantList → Bytes → Bytes
  print_values nil rest = 8 ∷ 0 ∷ rest
  print_values (cons v l) rest = print_value v (print_values l (9 ∷ 0 ∷ rest))

  pub print_entries : VariantMap → Bytes → Bytes
  print_entries end rest = 11 ∷ 0 ∷ rest
  print_entries (field k v m) rest = print_text k (print_value v (print_entries m (12 ∷ 0 ∷ rest)))

text_read :
    (s : String) (rest : Bytes) (items : List Item)
    → steps (print_text s rest) items ≡ steps rest (text s ∷ items)
unfolding steps step print_text add_char
text_read String.[] rest items = refl
text_read (String.◌∷◌ c s) rest items =
    text_read s (6 ∷ code c ∷ rest) items
    ∙ ap (λ d. steps rest (text (String.◌∷◌ d s) ∷ items)) (to_char-code c)

mutual
  unfolding steps step print_value print_values print_entries print_number to_string to_list_value
      to_map_value add_value add_entry

  value_read :
      (v : Variant) (rest : Bytes) (items : List Item)
      → steps (print_value v rest) items ≡ steps rest (value v ∷ items)
  value_read invalid rest items = refl
  value_read (boolean true) rest items = refl
  value_read (boolean false) rest items = refl
  value_read (number (pos n)) rest items = refl
  value_read (number (negsuc n)) rest items = refl
  value_read (real r) rest items = refl
  value_read (string s) rest items = text_read s (7 ∷ 0 ∷ rest) items
  value_read (list l) rest items = values_read l (10 ∷ 0 ∷ rest) items
  value_read (map m) rest items = entries_read m (13 ∷ 0 ∷ rest) items

  values_read :
      (l : VariantList) (rest : Bytes) (items : List Item)
      → steps (print_values l rest) items ≡ steps rest (values l ∷ items)
  values_read nil rest items = refl
  values_read (cons v l) rest items =
      value_read v (print_values l (9 ∷ 0 ∷ rest)) items
      ∙ values_read l (9 ∷ 0 ∷ rest) (value v ∷ items)

  entries_read :
      (m : VariantMap) (rest : Bytes) (items : List Item)
      → steps (print_entries m rest) items ≡ steps rest (entries m ∷ items)
  entries_read end rest items = refl
  entries_read (field k v m) rest items =
      text_read k (print_value v (print_entries m (12 ∷ 0 ∷ rest))) items
      ∙ (value_read v (print_entries m (12 ∷ 0 ∷ rest)) (text k ∷ items)
          ∙ entries_read m (12 ∷ 0 ∷ rest) (value v ∷ text k ∷ items))

abbrev document_in : List Item → Option Variant
document_in (entries m ∷ []) = some (map m)
document_in _ = none

pub parse : Bytes → Option Variant
parse bytes = document_in (steps bytes [])

parse-print_entries : (m : VariantMap) → parse (print_entries m []) ≡ some (map m)
unfolding parse steps
parse-print_entries m = ap document_in (entries_read m [] [])

abbrev uint_of : Variant → ℕ
uint_of (number (pos n)) = n
uint_of _ = 0

-- A Qt whose documents are those of the machine.
abbrev pub json_qt : Qt
json_qt = record test_qt {
  from_json = parse;
  to_json = λ m. print_entries m [];
  to_uint = uint_of;
  uuid_to_text = λ _. "phone uuid";
}

pub json_qt_reads : (m : VariantMap) → json_qt.from_json (json_qt.to_json m) ≡ some (map m)
json_qt_reads m = parse-print_entries m
