-- ===== src/Examples/Serialization.antt =====
-- Arguments of a job, stored and read back.

use odoo_job_worker.Base.{
  ℕ, zero, suc, ◌≡◌, refl, true, false, some, String, [], ◌∷◌, ◌==◌, ltb, arith, if◌then◌else◌,
  Bool-cases, inl, inr,
}
use odoo_job_worker.Serialization.{
  Value, Fields, text, num, list, dict, datetime, recordset, nil, cons, end, field, Env, Orm,
  encode, decode, ok,
}
use odoo_job_worker.Serialization.Stored.{
  IsLawful, is_default, lacks_defaults, keep_companies, restored,
}
use odoo_job_worker.Serialization.RoundTrip.{decode-encode}

-- An ORM with one model and the records up to 9, which writes times as strokes.
abbrev strokes : ℕ → String
strokes zero = String.[]
strokes (suc n) = String.◌∷◌ "|" (strokes n)

abbrev count : String → ℕ
count String.[] = zero
count (String.◌∷◌ c s) = suc (count s)

count-strokes : (n : ℕ) → some (count (strokes n)) ≡ some n
count-strokes zero = refl
count-strokes (suc n) = ground (arith, count-strokes n)

abbrev without_defaults : Fields → Fields
without_defaults end = end
without_defaults (field key v fs) =
    let rest = without_defaults fs in if is_default key then rest else field key v rest

without_defaults_lem : (fs : Fields) → lacks_defaults fs ≡ true → without_defaults fs ≡ fs
without_defaults_lem end h = refl
without_defaults_lem (field key v fs) h = elim (Bool-cases (is_default key)) [
  | inl default ↦ let never : false ≡ true = rw default at h in cc
  | inr plain ↦ rw (plain, without_defaults_lem fs (rw plain at h)) refl
]

abbrev orm : Orm
orm = record {
  has_model = λ m. true;
  has_record = λ m i. ltb i 10;
  with_user = λ uid env. record env { uid = uid; su = uid == 1 };
  with_context = λ fs env. record env { context = keep_companies env.context fs };
  sudo = λ env. record env { su = true; context = without_defaults env.context };
  datetime_isoformat = strokes;
  datetime_fromisoformat = λ s. some (count s);
  date_isoformat = strokes;
  date_fromisoformat = λ s. some (count s);
}

orm-IsLawful : IsLawful orm
orm-IsLawful = record {
  user_uid = λ uid env. refl;
  user_su = λ uid env h. h;
  user_context = λ uid env. refl;
  context_uid = λ fs env. refl;
  context_su = λ fs env. refl;
  context_context = λ fs env. refl;
  sudo_uid = λ env. refl;
  sudo_su = λ env. refl;
  sudo_context = λ env h. without_defaults_lem env.context h;
  datetimes = count-strokes;
  dates = count-strokes;
}

abbrev reader : Env
reader = record {
  uid = 1;
  su = true;
  context = field "allowed_company_ids" (list (cons (num 2) nil)) end;
}

-- Two records as user 5 sees them in French, with a key that is not stored, and a due date.
abbrev partners : Value
partners =
    recordset "res.partner" (3 ∷ 4 ∷ []) 5 false
      (field "lang" (text "fr_FR") (field "params" (num 7) end))

abbrev arguments : Value
arguments = list (cons partners (cons (dict (field "due" (datetime 6) end)) nil))

decode-encode_example :
    decode orm reader (encode orm arguments) ≡ ok (restored reader.context arguments)
decode-encode_example =
    decode-encode orm reader arguments orm-IsLawful refl
      ((refl, refl, (λ h. refl), ((λ h. tt), ((λ h. tt), tt))), ((refl, (tt, tt)), tt))
