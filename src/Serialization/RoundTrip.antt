-- ===== src/Serialization/RoundTrip.antt =====
-- Values that are encoded and decoded.
use odoo_job_worker.Base.{
  ℕ, ◌≡◌, ◌∙◌, refl, sym, ap, subst, Bool, true, false, not, ◌&&◌, ◌||◌, String, List, [], ◌∷◌,
  ◌==◌, str_eq, eq_iff, if◌then◌else◌, Bool-cases, inl, inr, arith,
}
use odoo_job_worker.Serialization.{
  Value, Values, Fields, null, bool, num, text, list, dict, datetime, date, recordset, nil, cons,
  end, field, Env, Orm, is_safe, all_exist, id_items, encode, encode_values, encode_fields,
  safe_context, ok, get, num_values, in_context, restore, object_hook_at, decode, decode_items,
  decode_members,
}
use odoo_job_worker.Serialization.Stored.{
  IsLawful, is_default, lacks_defaults, has_key, add_field, keep_companies, lacks_type, or_base,
  IsStorable, AreStorable, FieldsAreStorable, SafePartIsStorable, restored, restored_values,
  restored_fields, safe_part,
}

id_values : List ℕ → Values
id_values [] = nil
id_values (id ∷ ids) = cons (num id) (id_values ids)

get-lacks_type : (fs : Fields) → lacks_type fs ≡ true → get "__type__" fs ≡ null
get-lacks_type end h = refl
get-lacks_type (field key v fs) h =
    let (other, rest) = both (str_eq key "__type__") (lacks_type fs) h in
    rw other (get-lacks_type fs rest)
  where
    both : (a b : Bool) → not a && b ≡ true → (a ≡ false) × (b ≡ true)
    both a b h = ground arith

num_values-id_values : (ids : List ℕ) → num_values (id_values ids) ≡ ok ids
unfolding id_values
num_values-id_values [] = refl
num_values-id_values (id ∷ ids) = rw (num_values-id_values ids) refl

lacks_type-restored_fields :
    (base fs : Fields) → lacks_type fs ≡ true → lacks_type (restored_fields base fs) ≡ true
lacks_type-restored_fields base end h = refl
lacks_type-restored_fields base (field key v fs) h =
    ground (arith, lacks_type-restored_fields base fs)

is_safe-else :
    (f : String → Bool) (key safe : String)
    → str_eq key safe ≡ true
    → f safe ≡ false
    → f key ≡ false
is_safe-else f key safe e d = rw ((eq_iff key safe).0 e) d

-- What is so of each safe key is so of any.
is_safe-each :
    (f : String → Bool)
    → f "lang" ≡ false
    → f "tz" ≡ false
    → f "active_test" ≡ false
    → f "allowed_company_ids" ≡ false
    → f "company_id" ≡ false
    → f "force_company" ≡ false
    → (key : String) → is_safe key ≡ true
    → f key ≡ false
is_safe-each f l t v c i p key h = elim (Bool-cases (str_eq key "lang")) [
  | inl e ↦ is_safe-else f key "lang" e l
  | inr n1 ↦ elim (Bool-cases (str_eq key "tz")) [
    | inl e ↦ is_safe-else f key "tz" e t
    | inr n2 ↦ elim (Bool-cases (str_eq key "active_test")) [
      | inl e ↦ is_safe-else f key "active_test" e v
      | inr n3 ↦ elim (Bool-cases (str_eq key "allowed_company_ids")) [
        | inl e ↦ is_safe-else f key "allowed_company_ids" e c
        | inr n4 ↦ elim (Bool-cases (str_eq key "company_id")) [
          | inl e ↦ is_safe-else f key "company_id" e i
          | inr n5 ↦ is_safe-else f key "force_company" (rw (n1, n2, n3, n4, n5) at h) p
        ]
      ]
    ]
  ]
]

-- The mark of an encoded object is no safe key.
is_safe-other : (key : String) → is_safe key ≡ true → str_eq key "__type__" ≡ false
is_safe-other = is_safe-each (λ k. str_eq k "__type__") refl refl refl refl refl refl

-- No safe key gives a default.
is_safe-no_default : (key : String) → is_safe key ≡ true → is_default key ≡ false
is_safe-no_default = is_safe-each is_default refl refl refl refl refl refl

lacks_defaults-safe_part : (base fs : Fields) → lacks_defaults (safe_part base fs) ≡ true
lacks_defaults-safe_part base end = refl
lacks_defaults-safe_part base (field key v fs) = elim (Bool-cases (is_safe key)) [
  | inl safe ↦ rw (safe, is_safe-no_default key safe) (lacks_defaults-safe_part base fs)
  | inr other ↦ rw other (lacks_defaults-safe_part base fs)
]

lacks_defaults-add_field :
    (key : String) (v : Value) (fs : Fields)
    → is_default key ≡ false
    → lacks_defaults fs ≡ true
    → lacks_defaults (add_field key v fs) ≡ true
lacks_defaults-add_field key v end d h = rw d refl
lacks_defaults-add_field key v (field k w fs) d h = elim (Bool-cases (is_default k)) [
  | inl default ↦ let never : false ≡ true = rw default at h in cc
  | inr plain ↦ rw plain (lacks_defaults-add_field key v fs d (rw plain at h))
]

lacks_defaults-if :
    (c : Bool) (fs gs : Fields)
    → lacks_defaults fs ≡ true
    → lacks_defaults gs ≡ true
    → lacks_defaults (if c then fs else gs) ≡ true
lacks_defaults-if true fs gs h k = h
lacks_defaults-if false fs gs h k = k

lacks_defaults-or_base :
    (base fs : Fields)
    → lacks_defaults base ≡ true
    → lacks_defaults fs ≡ true
    → lacks_defaults (or_base base fs) ≡ true
lacks_defaults-or_base base end b h = b
lacks_defaults-or_base base (field key v fs) b h =
    lacks_defaults-if
      (has_key "allowed_company_ids" (field key v fs) || not (has_key "allowed_company_ids" base))
      (field key v fs)
      (add_field "allowed_company_ids" (get "allowed_company_ids" base) (field key v fs)) h
      (lacks_defaults-add_field "allowed_company_ids" (get "allowed_company_ids" base)
        (field key v fs) refl h)

lacks_type-safe_part : (base fs : Fields) → lacks_type (safe_part base fs) ≡ true
lacks_type-safe_part base end = refl
lacks_type-safe_part base (field key v fs) = elim (Bool-cases (is_safe key)) [
  | inl safe ↦ rw (safe, is_safe-other key safe) (lacks_type-safe_part base fs)
  | inr other ↦ rw other (lacks_type-safe_part base fs)
]

module _ (o : Orm) (lawful : IsLawful o) (base : Env)
    (no_defaults : lacks_defaults base.context ≡ true) where
  decode_items-id_items : (ids : List ℕ) → decode_items o base (id_items ids) ≡ ok (id_values ids)
  unfolding decode id_values
  decode_items-id_items [] = refl
  decode_items-id_items (id ∷ ids) = rw (decode_items-id_items ids) refl

  -- The environment that a recordset is restored in.
  entered : ℕ → Bool → Fields → Env
  entered uid su fs =
      let env = in_context o base (dict fs) (o.with_user uid base) in if su then o.sudo env else env

  in_context_lem :
      (fs : Fields) (uid : ℕ)
      → ((in_context o base (dict fs) (o.with_user uid base)).uid ≡ uid)
        × (uid == 1 ≡ false → (in_context o base (dict fs) (o.with_user uid base)).su ≡ false)
        × ((in_context o base (dict fs) (o.with_user uid base)).context ≡ or_base base.context fs)
  in_context_lem end uid =
      (lawful.user_uid uid base, lawful.user_su uid base, lawful.user_context uid base)
  in_context_lem (field key v fs) uid =
      let env = o.with_user uid base in
      (
        lawful.context_uid (field key v fs) env ∙ lawful.user_uid uid base,
        (λ h. lawful.context_su (field key v fs) env ∙ lawful.user_su uid base h),
        lawful.context_context (field key v fs) env
            ∙ ap (λ c. keep_companies c (field key v fs)) (lawful.user_context uid base),
      )

  entered_lem :
      (uid : ℕ) (su : Bool) (fs : Fields)
      → lacks_defaults fs ≡ true
      → (su ≡ false → uid == 1 ≡ false)
      → ((entered uid su fs).uid ≡ uid)
        × ((entered uid su fs).su ≡ su)
        × ((entered uid su fs).context ≡ or_base base.context fs)
  unfolding entered
  entered_lem uid true fs d h =
      let (u, s, c) = in_context_lem fs uid in
      let plain =
        subst (λ k. lacks_defaults k ≡ true) (sym c)
          (lacks_defaults-or_base base.context fs no_defaults d) in
      (lawful.sudo_uid _ ∙ u, lawful.sudo_su _, lawful.sudo_context _ plain ∙ c)
  entered_lem uid false fs d h = let (u, s, c) = in_context_lem fs uid in (u, s (h refl), c)

  restore_lem :
      (model : String) (ids : List ℕ) (uid : ℕ) (su : Bool) (fs : Fields)
      → o.has_model model ≡ true
      → all_exist (o.has_record model) ids ≡ true
      → (su ≡ false → uid == 1 ≡ false)
      → lacks_defaults fs ≡ true
      → restore o base (text model) (list (id_values ids)) (num uid) (bool su) (dict fs)
        ≡ ok (recordset model ids uid su (or_base base.context fs))
  unfolding restore entered
  restore_lem model ids uid su fs m e h d =
      let (u, s, c) = entered_lem uid su fs d h in rw (m, num_values-id_values ids, e, u, s, c) refl

  mutual
    unfolding encode decode object_hook_at

    decode-encode_at :
        (v : Value) → IsStorable o v → decode o base (encode o v) ≡ ok (restored base.context v)
    decode-encode_at null h = refl
    decode-encode_at (bool b) h = refl
    decode-encode_at (num n) h = refl
    decode-encode_at (text s) h = refl
    decode-encode_at (list vs) h = rw (decode-encode_values vs h) refl
    decode-encode_at (dict fs) h =
        rw
          (
            decode-encode_fields fs h.1,
            get-lacks_type (restored_fields base.context fs)
                (lacks_type-restored_fields base.context fs h.0),
          )
          refl
    decode-encode_at (datetime t) h = rw (lawful.datetimes t) refl
    decode-encode_at (date t) h = rw (lawful.dates t) refl
    decode-encode_at (recordset model ids uid su context) h =
        rw
          (
            decode_items-id_items ids,
            decode-safe_context context h.3,
            get-lacks_type (safe_part base.context context)
                (lacks_type-safe_part base.context context),
          )
          (restore_lem model ids uid su (safe_part base.context context) h.0 h.1 h.2
            (lacks_defaults-safe_part base.context context))

    decode-encode_values :
        (vs : Values)
        → AreStorable o vs
        → decode_items o base (encode_values o vs) ≡ ok (restored_values base.context vs)
    decode-encode_values nil h = refl
    decode-encode_values (cons v vs) h =
        rw (decode-encode_at v h.0, decode-encode_values vs h.1) refl

    decode-encode_fields :
        (fs : Fields)
        → FieldsAreStorable o fs
        → decode_members o base (encode_fields o fs) ≡ ok (restored_fields base.context fs)
    decode-encode_fields end h = refl
    decode-encode_fields (field key v fs) h =
        rw (decode-encode_at v h.0, decode-encode_fields fs h.1) refl

    decode-safe_context :
        (fs : Fields)
        → SafePartIsStorable o fs
        → decode_members o base (safe_context o fs) ≡ ok (safe_part base.context fs)
    decode-safe_context end h = refl
    decode-safe_context (field key v fs) h = elim (Bool-cases (is_safe key)) [
      | inl safe ↦ rw (safe, decode-encode_at v (h.0 safe), decode-safe_context fs h.1) refl
      | inr other ↦ rw other (decode-safe_context fs h.1)
    ]

-- What is encoded is decoded by a reader whose context has no defaults of fields: arguments without
-- dictionaries that have the key of an encoded object, whose recordsets exist and are the superuser's
-- only in superuser mode, come back as they were, but for contexts. Of a context the safe keys are
-- left, together with the reader's allowed companies where it names none; one of which no safe key is
-- left comes back as the reader's.
pub decode-encode :
    (o : Orm) (base : Env) (v : Value)
    → IsLawful o
    → lacks_defaults base.context ≡ true
    → IsStorable o v
    → decode o base (encode o v) ≡ ok (restored base.context v)
decode-encode o base v lawful no_defaults h = decode-encode_at o lawful base no_defaults v h
