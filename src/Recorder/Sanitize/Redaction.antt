-- ===== src/Recorder/Sanitize/Redaction.antt =====
-- Redaction leaves no value of a secret key, and nothing more to redact.
use agentplug.Base.{
  ◌≡◌, refl, Bool, true, false, ◌&&◌, str_eq, if◌then◌else◌, arith, Bool-cases, inl, inr,
}
use agentplug.Verbs.Json.{
  Value, Values, Fields, null, bool, number, text, array, object, nil, cons, end, field,
}
use agentplug.Recorder.Sanitize.{redacted, is_secret, redact_value, redact_items, redact_fields}

is_redacted : Value → Bool
is_redacted (text s) = str_eq s redacted
is_redacted other = false

-- Every member of a secret key, at any depth, is the redaction mark.
mutual
  unfolding is_redacted

  pub is_clean : Value → Bool
  is_clean (object fields) = is_clean_fields fields
  is_clean (array items) = is_clean_items items
  is_clean null = true
  is_clean (bool b) = true
  is_clean (number literal n) = true
  is_clean (text s) = true

  pub is_clean_items : Values → Bool
  is_clean_items nil = true
  is_clean_items (cons v vs) = is_clean v && is_clean_items vs

  pub is_clean_fields : Fields → Bool
  is_clean_fields end = true
  is_clean_fields (field key v rest) =
      let inside = is_clean v in
      (if is_secret key then is_redacted v else inside) && is_clean_fields rest

mutual
  unfolding is_clean redact_value

  cleaned : (v : Value) → is_clean (redact_value v) ≡ true
  cleaned (object fields) = cleaned_fields fields
  cleaned (array items) = cleaned_items items
  cleaned null = refl
  cleaned (bool b) = refl
  cleaned (number literal n) = refl
  cleaned (text s) = refl

  cleaned_items : (vs : Values) → is_clean_items (redact_items vs) ≡ true
  cleaned_items nil = refl
  cleaned_items (cons v vs) = ground (arith, cleaned v, cleaned_items vs)

  cleaned_fields : (fs : Fields) → is_clean_fields (redact_fields fs) ≡ true
  cleaned_fields end = refl
  cleaned_fields (field key v rest) = elim (Bool-cases (is_secret key)) [
    | inl secret ↦ rw (secret, cleaned_fields rest) refl
    | inr plain ↦ rw (plain, cleaned v, cleaned_fields rest) refl
  ]

mutual
  unfolding redact_value

  settled : (v : Value) → redact_value (redact_value v) ≡ redact_value v
  settled (object fields) = cc (settled_fields fields)
  settled (array items) = cc (settled_items items)
  settled null = refl
  settled (bool b) = refl
  settled (number literal n) = refl
  settled (text s) = refl

  settled_items : (vs : Values) → redact_items (redact_items vs) ≡ redact_items vs
  settled_items nil = refl
  settled_items (cons v vs) = cc (settled v, settled_items vs)

  settled_fields : (fs : Fields) → redact_fields (redact_fields fs) ≡ redact_fields fs
  settled_fields end = refl
  settled_fields (field key v rest) = elim (Bool-cases (is_secret key)) [
    | inl secret ↦ rw (secret, settled_fields rest) refl
    | inr plain ↦ rw (plain, settled v, settled_fields rest) refl
  ]

-- After redaction every member whose key names a secret, at any depth of objects and arrays, is the
-- redaction mark, and a second redaction changes nothing.
pub redact_value-is_clean :
    (v : Value)
    → (is_clean (redact_value v) ≡ true) × (redact_value (redact_value v) ≡ redact_value v)
redact_value-is_clean v = (cleaned v, settled v)
