-- ===== src/Serialization/Stored.antt =====
-- What the ORM is relied on for, the arguments that survive storage, and what they come back as.
use odoo_job_worker.Base.{
  ℕ, ◌≡◌, Bool, true, false, not, ◌&&◌, ◌||◌, some, String, List, [], ◌∷◌, ◌==◌, str_eq, codes,
  if◌then◌else◌,
}
use odoo_job_worker.Serialization.{
  Value, Values, Fields, null, bool, num, text, list, dict, datetime, date, recordset, nil, cons,
  end, field, get, Env, Orm, is_safe, all_exist,
}

abbrev begins_with : List ℕ → List ℕ → Bool
begins_with [] s = true
begins_with (x ∷ xs) [] = false
begins_with (x ∷ xs) (y ∷ ys) = (x == y) && begins_with xs ys

-- A key that gives the default of a field.
abbrev pub is_default : String → Bool
is_default key = begins_with (codes "default_") (codes key)

abbrev pub lacks_defaults : Fields → Bool
lacks_defaults end = true
lacks_defaults (field key v fs) = not (is_default key) && lacks_defaults fs

abbrev pub has_key : String → Fields → Bool
has_key key end = false
has_key key (field k v fs) = str_eq k key || has_key key fs

abbrev pub add_field : String → Value → Fields → Fields
add_field key v end = field key v end
add_field key v (field k w fs) = field k w (add_field key v fs)

-- A context that is set, where the companies allowed before stay if it does not name any.
abbrev pub keep_companies : Fields → Fields → Fields
keep_companies base fs =
    if has_key "allowed_company_ids" fs || not (has_key "allowed_company_ids" base)
    then fs
    else add_field "allowed_company_ids" (get "allowed_company_ids" base) fs

-- The user and the superuser flag are set apart from each other and from the context. The user with
-- the id 1 is the superuser. A context that is set keeps the allowed companies of the one before
-- where it names none. The switch to superuser mode takes defaults of fields out of the context, and
-- leaves a context without them as it is. Texts of times are read back.
pub record IsLawful (o : Orm) : Type 0 where
  pub user_uid : (uid : ℕ) (env : Env) → (o.with_user uid env).uid ≡ uid
  pub user_su : (uid : ℕ) (env : Env) → uid == 1 ≡ false → (o.with_user uid env).su ≡ false
  pub user_context : (uid : ℕ) (env : Env) → (o.with_user uid env).context ≡ env.context
  pub context_uid : (fs : Fields) (env : Env) → (o.with_context fs env).uid ≡ env.uid
  pub context_su : (fs : Fields) (env : Env) → (o.with_context fs env).su ≡ env.su
  pub context_context :
      (fs : Fields) (env : Env) → (o.with_context fs env).context ≡ keep_companies env.context fs
  pub sudo_uid : (env : Env) → (o.sudo env).uid ≡ env.uid
  pub sudo_su : (env : Env) → (o.sudo env).su ≡ true
  pub sudo_context :
      (env : Env) → lacks_defaults env.context ≡ true → (o.sudo env).context ≡ env.context
  pub datetimes : (t : ℕ) → o.datetime_fromisoformat (o.datetime_isoformat t) ≡ some t
  pub dates : (t : ℕ) → o.date_fromisoformat (o.date_isoformat t) ≡ some t

abbrev pub lacks_type : Fields → Bool
lacks_type end = true
lacks_type (field key v fs) = not (str_eq key "__type__") && lacks_type fs

-- The context of the reader where a context that is stored is empty, which is not set.
abbrev pub or_base : Fields → Fields → Fields
or_base base end = base
or_base base (field key v fs) = keep_companies base (field key v fs)

module _ (o : Orm) where
  -- The models and the records exist, the superuser's recordsets are in superuser mode, and no
  -- dictionary has the key that marks an encoded object.
  abbrev mutual
    pub IsStorable : Value → Type 0
    IsStorable null = Unit
    IsStorable (bool b) = Unit
    IsStorable (num n) = Unit
    IsStorable (text s) = Unit
    IsStorable (list vs) = AreStorable vs
    IsStorable (dict fs) = (lacks_type fs ≡ true) × FieldsAreStorable fs
    IsStorable (datetime t) = Unit
    IsStorable (date t) = Unit
    IsStorable (recordset model ids uid su context) =
        (o.has_model model ≡ true)
        × (all_exist (o.has_record model) ids ≡ true)
        × (su ≡ false → uid == 1 ≡ false)
        × SafePartIsStorable context

    pub AreStorable : Values → Type 0
    AreStorable nil = Unit
    AreStorable (cons v vs) = IsStorable v × AreStorable vs

    pub FieldsAreStorable : Fields → Type 0
    FieldsAreStorable end = Unit
    FieldsAreStorable (field key v fs) = IsStorable v × FieldsAreStorable fs

    pub SafePartIsStorable : Fields → Type 0
    SafePartIsStorable end = Unit
    SafePartIsStorable (field key v fs) =
        (is_safe key ≡ true → IsStorable v) × SafePartIsStorable fs

-- What a value comes back as: itself, but for contexts, of which the safe keys are left, with the
-- reader's allowed companies where they name none.
module _ (base : Fields) where
  abbrev mutual
    pub restored : Value → Value
    restored null = null
    restored (bool b) = bool b
    restored (num n) = num n
    restored (text s) = text s
    restored (list vs) = list (restored_values vs)
    restored (dict fs) = dict (restored_fields fs)
    restored (datetime t) = datetime t
    restored (date t) = date t
    restored (recordset model ids uid su context) =
        recordset model ids uid su (or_base base (safe_part context))

    pub restored_values : Values → Values
    restored_values nil = nil
    restored_values (cons v vs) = cons (restored v) (restored_values vs)

    pub restored_fields : Fields → Fields
    restored_fields end = end
    restored_fields (field key v fs) = field key (restored v) (restored_fields fs)

    pub safe_part : Fields → Fields
    safe_part end = end
    safe_part (field key v fs) =
        let rest = safe_part fs in
        let value = restored v in if is_safe key then field key value rest else rest
