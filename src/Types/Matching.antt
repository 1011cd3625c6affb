-- ===== src/Types/Matching.antt =====
-- What validation against a template means, apart from the order of the checks and the messages.
use mathlib.Core.Bool.{false≢true}
use nymea_remoteproxy.Base.{
  Bool, true, false, not, ◌&&◌, Option, none, some, String, str_append, str_eq, eq_iff, starts_with,
  ◌≢◌, inl, inr, Bool-cases, List, [], ◌∷◌, ◌≡◌, refl, ◌↔◌, ◌⊎◌, if◌then◌else◌, arith, subst,
}
use nymea_remoteproxy.Variant.{
  Kind, double_kind, Variant, VariantList, VariantMap, invalid, boolean, number, real, string, list,
  map, nil, cons, end, field, find, has_key, to_map, to_list, uuid_kind, string_kind, bool_kind,
  int_kind, uint_kind, Qt,
}
use nymea_remoteproxy.Types.{
  Report, is_optional, stripped_key, and_then, report, validate_found, validate_text,
  validate_basic_type, validate_property, validate_enum, validate_variant, validate_keys,
  validate_list, validate_entries, validate_forbidden, validate_map, tunnel_proxy_error_type,
  TunnelProxyError, tunnel_proxy_error_to_string, contains_text, to_variants, tunnel_proxy_errors,
  no_error, invalid_uuid, internal_server_error, server_not_found, forbidden_call,
  already_registered, not_registered, unknown_socket_address,
}

-- Both checks passed exactly when the report of the two together is a success.
and_then_iff :
    (a b : Report) → ((and_then a b).success ≡ true) ↔ ((a.success ≡ true) × (b.success ≡ true))
and_then_iff a b = ground arith

if_success {ℓ} :
    {C : Type ℓ} (b : Bool) (x y : Report)
    → (b ≡ true → x.success ≡ true → C)
    → (b ≡ false → y.success ≡ true → C)
    → (if b then x else y).success ≡ true
    → C
if_success true x y f g h = f refl h
if_success false x y f g h = g refl h

if_refused {ℓ} :
    {C : Type ℓ} (b : Bool) (m : String) (y : Report)
    → (b ≡ false → y.success ≡ true → C)
    → (if b then record { success = false; message = m } else y).success ≡ true
    → C
if_refused true m y g h = absurd (false≢true h)
if_refused false m y g h = g refl h

module _ (q : Qt) where
  abbrev pub Converts : Kind → Variant → Type 0
  Converts kind v = (q.can_convert kind v ≡ true) × (q.converts kind v ≡ true)

  -- A value of a basic type: what converts to a uuid is one that is not null, and all else
  -- converts to a text, a number or a Boolean.
  abbrev pub IsBasic : Variant → Type 0
  IsBasic v =
      (Converts uuid_kind v × (q.text_to_uuid (q.to_text v) ≢ 0))
      ⊎ ((¬ Converts uuid_kind v)
          × (Converts string_kind v
              ⊎ (Converts int_kind v ⊎ (Converts double_kind v ⊎ Converts bool_kind v))))

  -- A value with the text of the name of an error.
  abbrev pub IsErrorName : Variant → Type 0
  IsErrorName v =
      (e : TunnelProxyError) × (q.to_text (string (tunnel_proxy_error_to_string e)) ≡ q.to_text v)

  validate_basic_type_iff : (v : Variant) → ((validate_basic_type q v).success ≡ true) ↔ IsBasic v
  unfolding validate_basic_type
  validate_basic_type_iff v = ground arith

  name_found :
      (errors : List TunnelProxyError) (text : String)
      → contains_text q (to_variants errors) text ≡ true
      → (e : TunnelProxyError) × (q.to_text (string (tunnel_proxy_error_to_string e)) ≡ text)
  unfolding contains_text
  name_found [] text h = absurd (false≢true h)
  name_found (e ∷ errors) text h =
      elim (Bool-cases (str_eq (q.to_text (string (tunnel_proxy_error_to_string e))) text)) [
        | inl same ↦ (e, (eq_iff _ _).0 same)
        | inr other ↦ name_found errors text (ground (arith, other, h))
      ]

  error_sound :
      (v : Variant) → (validate_enum q tunnel_proxy_error_type v).success ≡ true → IsErrorName v
  unfolding validate_enum contains_text tunnel_proxy_error_type
  error_sound v h = name_found tunnel_proxy_errors (q.to_text v) h

  error_complete :
      (v : Variant) → IsErrorName v → (validate_enum q tunnel_proxy_error_type v).success ≡ true
  unfolding validate_enum contains_text tunnel_proxy_error_type
  error_complete v (no_error, h) = ground (arith, (eq_iff _ _).1 h)
  error_complete v (invalid_uuid, h) = ground (arith, (eq_iff _ _).1 h)
  error_complete v (internal_server_error, h) = ground (arith, (eq_iff _ _).1 h)
  error_complete v (server_not_found, h) = ground (arith, (eq_iff _ _).1 h)
  error_complete v (forbidden_call, h) = ground (arith, (eq_iff _ _).1 h)
  error_complete v (already_registered, h) = ground (arith, (eq_iff _ _).1 h)
  error_complete v (not_registered, h) = ground (arith, (eq_iff _ _).1 h)
  error_complete v (unknown_socket_address, h) = ground (arith, (eq_iff _ _).1 h)

  -- A value fits a type name.
  pub data TextMatches (template : String) (v : Variant) : Type 0 where
    any : template ≡ "Variant" → TextMatches template v
    object : template ≡ "Object" → TextMatches template v
    uuid : template ≡ "Uuid" → q.can_convert uuid_kind v ≡ true → TextMatches template v
    text : template ≡ "String" → q.can_convert string_kind v ≡ true → TextMatches template v
    bool : template ≡ "Bool" → q.can_convert bool_kind v ≡ true → TextMatches template v
    int : template ≡ "Int" → q.can_convert int_kind v ≡ true → TextMatches template v
    uint : template ≡ "UInt" → q.can_convert uint_kind v ≡ true → TextMatches template v
    basic : template ≡ "$ref:BasicType" → IsBasic v → TextMatches template v
    error : template ≡ "$ref:TunnelProxyError" → IsErrorName v → TextMatches template v

  validate_text_complete :
      (template : String) (v : Variant)
      → TextMatches template v
      → (validate_text q template v).success ≡ true
  unfolding validate_text validate_property
  validate_text_complete template v (any e) = rw e
  validate_text_complete template v (object e) = rw e
  validate_text_complete template v (uuid e h) = rw e (rw h)
  validate_text_complete template v (text e h) = rw e (rw h)
  validate_text_complete template v (bool e h) = rw e (rw h)
  validate_text_complete template v (int e h) = rw e (rw h)
  validate_text_complete template v (uint e h) = rw e (rw h)
  validate_text_complete template v (basic e h) = rw e (rw ((validate_basic_type_iff v).1 h))
  validate_text_complete template v (error e h) = rw e (rw (error_complete v h))

  is_text : {s t : String} → str_eq s t ≡ true → s ≡ t
  is_text {s} {t} e = (eq_iff s t).0 e

  property_sound :
      (template : String) (v : Variant)
      → (validate_property q template v).success ≡ true
      → TextMatches template v
  unfolding validate_property
  property_sound template v =
      if_success (str_eq template "Variant") _ _ (λ e _. any (is_text e))
        λ _.
          if_success (str_eq template "Object") _ _ (λ e _. object (is_text e))
            λ _.
              if_success (str_eq template "Uuid") _ _ (λ e h. uuid (is_text e) h)
                λ _.
                  if_success (str_eq template "String") _ _ (λ e h. text (is_text e) h)
                    λ _.
                      if_success (str_eq template "Bool") _ _ (λ e h. bool (is_text e) h)
                        λ _.
                          if_success (str_eq template "Int") _ _ (λ e h. int (is_text e) h)
                            λ _.
                              if_success (str_eq template "UInt") _ _ (λ e h. uint (is_text e) h)
                                λ _ h. absurd (false≢true h)

  ref_sound :
      (template : String) (v : Variant) (m : String)
      → (if str_eq template "$ref:BasicType"
          then and_then (validate_basic_type q v) (report true "")
          else if str_eq template "$ref:TunnelProxyError"
          then and_then (validate_enum q tunnel_proxy_error_type v) (report true "")
          else report false m).success
        ≡ true
      → TextMatches template v
  ref_sound template v m =
      if_success (str_eq template "$ref:BasicType") _ _
        (λ e h. basic (is_text e) ((validate_basic_type_iff v).0 ((and_then_iff _ _).0 h).0))
        λ _.
          if_success (str_eq template "$ref:TunnelProxyError") _ _
            (λ e h. error (is_text e) (error_sound v ((and_then_iff _ _).0 h).0))
            λ _ h. absurd (false≢true h)

  validate_text_sound :
      (template : String) (v : Variant)
      → (validate_text q template v).success ≡ true
      → TextMatches template v
  unfolding validate_text
  validate_text_sound template v =
      if_success (starts_with template "$ref:") _ _ (λ _. ref_sound template v _)
        λ _ h. property_sound template v ((and_then_iff _ _).0 h).0

  -- A key of the object is one of the template's, as it is or marked optional.
  abbrev pub IsAllowed : VariantMap → String → Type 0
  IsAllowed template key =
      (has_key template key ≡ true) ⊎ (has_key template (str_append "o:" key) ≡ true)

  abbrev pub AllAllowed : VariantMap → VariantMap → Type 0
  AllAllowed template end = Unit
  AllAllowed template (field key v rest) = IsAllowed template key × AllAllowed template rest

  forbidden_iff :
      (template whole m : VariantMap)
      → ((validate_forbidden q template whole m).success ≡ true) ↔ AllAllowed template m
  unfolding validate_forbidden
  forbidden_iff template whole end = (λ _. tt, λ _. refl)
  forbidden_iff template whole (field key v rest) =
      ground (arith, forbidden_iff template whole rest)

  abbrev pub AllEntries : (Variant → Type 0) → VariantList → Type 0
  AllEntries P nil = Unit
  AllEntries P (cons v vs) = P v × AllEntries P vs

  entries_iff :
      (validate : Variant → Report) (P : Variant → Type 0)
      → ((v : Variant) → ((validate v).success ≡ true) ↔ P v)
      → (l : VariantList) → ((validate_entries q validate l).success ≡ true) ↔ AllEntries P l
  unfolding validate_entries
  entries_iff validate P f nil = (λ _. tt, λ _. refl)
  entries_iff validate P f (cons v vs) =
      let both = and_then_iff (validate v) (validate_entries q validate vs) in
      let rest = entries_iff validate P f vs in
      (λ h. ((f v).0 (both.0 h).0, rest.0 (both.0 h).1), λ h. both.1 ((f v).1 h.0, rest.1 h.1))

  unfoldable mutual
    -- A value matches a template: texts name types, an object has every key that is not optional,
    -- its values match, and it has no other keys; the entries of a list match its first template.
    pub Matches : Variant → Variant → Type 0
    Matches (string template) v = TextMatches template v
    Matches (map template) v = KeysMatch template (to_map v) × AllAllowed template (to_map v)
    Matches (list template) v = ListMatches template (to_list v)
    Matches template v = ⊥

    pub KeysMatch : VariantMap → VariantMap → Type 0
    KeysMatch end m = Unit
    KeysMatch (field key template rest) m =
        (is_optional key ≡ false → has_key m (stripped_key key) ≡ true)
        × ((v : Variant) → find m (stripped_key key) ≡ some v → Matches template v)
        × KeysMatch rest m

    pub ListMatches : VariantList → VariantList → Type 0
    ListMatches nil l = ⊥
    ListMatches (cons template rest) l = AllEntries (Matches template) l

  found_iff :
      (validate : Variant → Report) (P : Variant → Type 0)
      → ((v : Variant) → ((validate v).success ≡ true) ↔ P v)
      → (o : Option Variant)
      → ((validate_found validate o).success ≡ true) ↔ ((v : Variant) → o ≡ some v → P v)
  found_iff validate P f none = (λ _ v e. cc, λ _. refl)
  found_iff validate P f (some v) =
      (λ h w e. subst P (of_some e) ((f v).0 h), λ h. (f v).1 (h v refl))
    where
      of_some : {a b : Variant} → some a ≡ some b → a ≡ b
      of_some e = cc

  -- The test for a missing key, with what follows it.
  missing_iff :
      (optional present : Bool) (m : String) (r : Report)
      → ((if not optional && not present then report false m else r).success ≡ true)
        ↔ ((optional ≡ false → present ≡ true) × (r.success ≡ true))
  missing_iff true present m r = (λ h. (λ e. cc, h), λ h. h.1)
  missing_iff false true m r = (λ h. (λ e. refl, h), λ h. h.1)
  missing_iff false false m r = (λ h. cc, λ h. cc (h.0 refl))

  mutual
    unfolding validate_variant validate_keys validate_list Matches KeysMatch ListMatches

    variant_iff :
        (template v : Variant)
        → ((validate_variant q template v).success ≡ true) ↔ Matches template v
    variant_iff (string template) v =
        (validate_text_sound template v, validate_text_complete template v)
    variant_iff (map template) v =
        let both =
          and_then_iff (validate_keys q template (to_map v))
            (validate_forbidden q template (to_map v) (to_map v)) in
        let keys = keys_iff template (to_map v) in
        let allowed = forbidden_iff template (to_map v) (to_map v) in
        (
          λ h. (keys.0 (both.0 h).0, allowed.0 (both.0 h).1),
          λ h. both.1 (keys.1 h.0, allowed.1 h.1),
        )
    variant_iff (list template) v = list_iff template (to_list v)
    variant_iff invalid v = (λ h. false≢true h, λ h. absurd h)
    variant_iff (boolean b) v = (λ h. false≢true h, λ h. absurd h)
    variant_iff (number n) v = (λ h. false≢true h, λ h. absurd h)
    variant_iff (real r) v = (λ h. false≢true h, λ h. absurd h)

    keys_iff :
        (template m : VariantMap)
        → ((validate_keys q template m).success ≡ true) ↔ KeysMatch template m
    keys_iff end m = (λ _. tt, λ _. refl)
    keys_iff (field key template rest) m =
        let found = validate_found (validate_variant q template) (find m (stripped_key key)) in
        let outer =
          missing_iff (is_optional key) (has_key m (stripped_key key)) _
            (and_then found (validate_keys q rest m)) in
        let both = and_then_iff found (validate_keys q rest m) in
        let value =
          found_iff (validate_variant q template) (Matches template) (variant_iff template)
            (find m (stripped_key key)) in
        let later = keys_iff rest m in
        (
          λ h. ((outer.0 h).0, value.0 (both.0 (outer.0 h).1).0, later.0 (both.0 (outer.0 h).1).1),
          λ h. outer.1 (h.0, both.1 (value.1 h.1, later.1 h.2)),
        )

    list_iff :
        (template l : VariantList)
        → ((validate_list q template l).success ≡ true) ↔ ListMatches template l
    list_iff nil l = (λ h. false≢true h, λ h. absurd h)
    list_iff (cons template rest) l =
        entries_iff (validate_variant q template) (Matches template) (variant_iff template) l

  -- Validation succeeds exactly on the objects that match the template.
  pub validate_map_iff :
      (template m : VariantMap)
      → ((validate_map q template m).success ≡ true)
        ↔ (KeysMatch template m × AllAllowed template m)
  unfolding validate_map
  validate_map_iff template m =
      let both = and_then_iff (validate_keys q template m) (validate_forbidden q template m m) in
      (
        λ h. ((keys_iff template m).0 (both.0 h).0, (forbidden_iff template m m).0 (both.0 h).1),
        λ h. both.1 ((keys_iff template m).1 h.0, (forbidden_iff template m m).1 h.1),
      )
