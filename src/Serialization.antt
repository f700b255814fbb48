-- ===== src/Serialization.antt =====
-- job_worker/models/job_serialization.py: what the encoder and the decoder do to the arguments of a
-- job. The text of a JSON document is left to the `json` package: a document is a tree here. Numbers
-- are natural, and a tuple is the list that JSON makes of it.
pub mod Stored
pub mod RoundTrip
use odoo_job_worker.Base.{
  ℕ, Bool, true, false, Option, none, some, String, List, [], ◌∷◌, ◌||◌, ◌&&◌, not, str_eq,
  if◌then◌else◌,
}

mutual
  -- What a job may be called with. A recordset carries the user, the superuser flag and the context
  -- of its environment.
  pub data Value : Type 0 where
    null : Value
    bool : Bool → Value
    num : ℕ → Value
    text : String → Value
    list : Values → Value
    dict : Fields → Value
    datetime : ℕ → Value
    date : ℕ → Value
    recordset : (model : String) (ids : List ℕ) (uid : ℕ) (su : Bool) (context : Fields) → Value

  pub data Values : Type 0 where
    nil : Values
    cons : Value → Values → Values

  pub data Fields : Type 0 where
    end : Fields
    field : String → Value → Fields → Fields

-- A JSON document.
mutual
  pub data Json : Type 0 where
    null : Json
    bool : Bool → Json
    num : ℕ → Json
    text : String → Json
    arr : Items → Json
    obj : Members → Json

  pub data Items : Type 0 where
    nil : Items
    cons : Json → Items → Items

  pub data Members : Type 0 where
    end : Members
    pair : String → Json → Members → Members

pub record Env : Type 0 where
  pub uid : ℕ
  pub su : Bool
  pub context : Fields

-- What the ORM and the `datetime` package give.
pub record Orm : Type 0 where
  pub has_model : String → Bool
  pub has_record : String → ℕ → Bool
  pub with_user : ℕ → Env → Env
  pub with_context : Fields → Env → Env
  pub sudo : Env → Env
  pub datetime_isoformat : ℕ → String
  pub datetime_fromisoformat : String → Option ℕ
  pub date_isoformat : ℕ → String
  pub date_fromisoformat : String → Option ℕ

-- `_SAFE_CONTEXT_KEYS`
abbrev pub is_safe : String → Bool
is_safe key =
    str_eq key "lang"
    || (str_eq key "tz"
        || (str_eq key "active_test"
            || (str_eq key "allowed_company_ids"
                || (str_eq key "company_id" || str_eq key "force_company"))))

abbrev pub id_items : List ℕ → Items
id_items [] = nil
id_items (id ∷ ids) = cons (num id) (id_items ids)

-- `{"__type__": type, "value": value}`
abbrev pub tagged : String → String → Json
tagged type value = obj (pair "__type__" (text type) (pair "value" (text value) end))

module _ (o : Orm) where
  -- `JobEncoder`: `default` is called on what `json` cannot encode.
  unfoldable mutual
    pub encode : Value → Json
    encode null = null
    encode (bool b) = bool b
    encode (num n) = num n
    encode (text s) = text s
    encode (list vs) = arr (encode_values vs)
    encode (dict fs) = obj (encode_fields fs)
    encode (datetime t) = tagged "datetime_isoformat" (o.datetime_isoformat t)
    encode (date t) = tagged "date_isoformat" (o.date_isoformat t)
    encode (recordset model ids uid su context) = obj (
        pair "__type__" (text "odoo_recordset") (
          pair "model" (text model) (
            pair "ids" (arr (id_items ids)) (
              pair "uid" (num uid)
                (pair "su" (bool su) (pair "context" (obj (safe_context context)) end))))))

    pub encode_values : Values → Items
    encode_values nil = nil
    encode_values (cons v vs) = cons (encode v) (encode_values vs)

    pub encode_fields : Fields → Members
    encode_fields end = end
    encode_fields (field key v fs) = pair key (encode v) (encode_fields fs)

    -- `safe_context`, encoded. The source lists it in the order of a set, which nothing reads.
    pub safe_context : Fields → Members
    safe_context end = end
    safe_context (field key v fs) =
        let rest = safe_context fs in
        let value = encode v in if is_safe key then pair key value rest else rest

-- `malformed` stands for what Python makes of members of another type.
pub data DecodeError : Type 0 where
  unknown_model missing_records malformed : DecodeError

pub data Decoded {ℓ} (A : Type ℓ) : Type ℓ where
  ok : A → Decoded A
  err : DecodeError → Decoded A

infixl 5 ◌>>=◌
abbrev pub ◌>>=◌ {ℓ κ} : {A : Type ℓ} {B : Type κ} → Decoded A → (A → Decoded B) → Decoded B
ok a >>= f = f a
err e >>= f = err e

-- `obj.get(key)`
abbrev pub get : String → Fields → Value
get key end = null
get key (field k v fs) = let rest = get key fs in if str_eq k key then v else rest

abbrev pub num_values : Values → Decoded (List ℕ)
num_values nil = ok []
num_values (cons (num n) vs) = num_values vs >>= (λ ns. ok (n ∷ ns))
num_values (cons _ vs) = err malformed

-- `list(obj.get("ids") or [])`
abbrev pub get_ids : Value → Decoded (List ℕ)
get_ids null = ok []
get_ids (list vs) = num_values vs
get_ids _ = err malformed

abbrev pub truth : Value → Bool
truth (bool b) = b
truth _ = false

abbrev pub all_exist : (ℕ → Bool) → List ℕ → Bool
all_exist exists [] = true
all_exist exists (id ∷ ids) = exists id && all_exist exists ids

module _ (o : Orm) (base : Env) where
  abbrev pub as_user : Value → Decoded Env
  as_user null = ok base
  as_user (num uid) = ok (o.with_user uid base)
  as_user _ = err malformed

  abbrev pub in_context : Value → Env → Env
  in_context (dict end) env = env
  in_context (dict (field key v fs)) env = o.with_context (field key v fs) env
  in_context _ env = env

  -- The branch of `object_hook` for recordsets.
  unfoldable pub restore : Value → Value → Value → Value → Value → Decoded Value
  restore (text model) ids uid su context =
      if not (o.has_model model)
      then err unknown_model
      else (get_ids ids >>= (λ ids. as_user uid >>= (λ env.
          let env = in_context context env in
          let env = if truth su then o.sudo env else env in
          if all_exist (o.has_record model) ids
          then ok (recordset model ids env.uid env.su env.context)
          else err missing_records)))
  restore _ ids uid su context = err unknown_model

  abbrev pub parsed : (ℕ → Value) → Option ℕ → Decoded Value
  parsed f none = err malformed
  parsed f (some t) = ok (f t)

  abbrev pub parse_value : (String → Option ℕ) → (ℕ → Value) → Value → Decoded Value
  parse_value from f (text s) = parsed f (from s)
  parse_value from f _ = err malformed

  -- `object_hook` on an object whose members are decoded.
  unfoldable pub object_hook_at : Value → Fields → Decoded Value
  unfolding restore
  object_hook_at (text type) fs =
      if str_eq type "odoo_recordset"
      then restore (get "model" fs) (get "ids" fs) (get "uid" fs) (get "su" fs) (get "context" fs)
      else if str_eq type "datetime_isoformat"
      then parse_value o.datetime_fromisoformat datetime (get "value" fs)
      else if str_eq type "date_isoformat"
      then parse_value o.date_fromisoformat date (get "value" fs)
      else ok (dict fs)
  object_hook_at _ fs = ok (dict fs)

  -- `JobDecoder`: the members of an object are decoded before the hook sees it.
  unfoldable mutual
    unfolding object_hook_at

    pub decode : Json → Decoded Value
    decode null = ok null
    decode (bool b) = ok (bool b)
    decode (num n) = ok (num n)
    decode (text s) = ok (text s)
    decode (arr js) = decode_items js >>= (λ vs. ok (list vs))
    decode (obj ms) = decode_members ms >>= (λ fs. object_hook_at (get "__type__" fs) fs)

    pub decode_items : Items → Decoded Values
    decode_items nil = ok nil
    decode_items (cons j js) = decode j >>= (λ v. decode_items js >>= (λ vs. ok (cons v vs)))

    pub decode_members : Members → Decoded Fields
    decode_members end = ok end
    decode_members (pair key j ms) =
        decode j >>= (λ v. decode_members ms >>= (λ fs. ok (field key v fs)))
