-- ===== src/Gate/Probe.antt =====
-- `probe`: what the module table says of the gate.
use odoo_job_worker.Base.{
  ◌≡◌, ◌↔◌, refl, Bool, true, false, not, ◌&&◌, ◌||◌, Option, none, some, List, [], ◌∷◌, String,
  All, str_eq, same_text, if◌then◌else◌, Bool-cases, inl, inr, arith,
}

-- `ir_module_module.state`
pub data ModuleState : Type 0 where
  installed uninstalled uninstallable to_install to_upgrade to_remove : ModuleState

pub record Module : Type 0 where
  pub name : String
  pub state : ModuleState
  pub latest_version : Option String

pub data Reason : Type 0 where
  modules_in_transition partial_update version_skew probe_blocked : Reason

-- `details` and `missing` hold the names of the modules; the words around them are left out.
pub record GateState : Type 0 where
  pub open_now : Bool
  pub reason : Option Reason
  pub details : List String
  pub missing : List String

abbrev pub open_state : GateState
open_state = record { open_now = true; reason = none; details = []; missing = [] }

-- `state IN ('to install', 'to upgrade', 'to remove')`
abbrev pub is_transient : ModuleState → Bool
is_transient to_install = true
is_transient to_upgrade = true
is_transient to_remove = true
is_transient _ = false

abbrev pub is_installed : ModuleState → Bool
is_installed installed = true
is_installed _ = false

-- The version of a module in the code, from `code_versions`.
unfoldable pub version_of : String → List (String × String) → Option String
version_of name [] = none
version_of name ((n, v) ∷ versions) =
    let rest = version_of name versions in if str_eq n name then some v else rest

-- `latest_version IS DISTINCT FROM version`, for a module that the code has.
abbrev pub skewed_from : Option String → Option String → Bool
skewed_from none latest = false
skewed_from (some v) latest = not (same_text (some v) latest)

abbrev pub is_skewed : List (String × String) → Module → Bool
is_skewed versions m =
    is_installed m.state && skewed_from (version_of m.name versions) m.latest_version

abbrev pub lacks_code : Option String → Bool
lacks_code none = true
lacks_code (some v) = false

abbrev pub is_missing : List (String × String) → Module → Bool
is_missing versions m = is_installed m.state && lacks_code (version_of m.name versions)

unfoldable pub names_of : (Module → Bool) → List Module → List String
names_of p [] = []
names_of p (m ∷ modules) = let rest = names_of p modules in if p m then m.name ∷ rest else rest

abbrev pub decide_state : List String → Bool → List String → List String → GateState
decide_state (t ∷ ts) partial skew missing = record {
  open_now = false;
  reason = some modules_in_transition;
  details = t ∷ ts;
  missing = missing;
}
decide_state [] true skew missing = record {
  open_now = false;
  reason = some partial_update;
  details = [];
  missing = missing;
}
decide_state [] false (s ∷ ss) missing = record {
  open_now = false;
  reason = some version_skew;
  details = s ∷ ss;
  missing = missing;
}
decide_state [] false [] missing = record {
  open_now = true;
  reason = none;
  details = [];
  missing = missing;
}

-- `code_versions` is `none` where the version check is off. `partial` says whether
-- `base.partially_updated_database` is set.
unfoldable pub probe : Option (List (String × String)) → List Module → Bool → GateState
probe none modules partial =
    decide_state (names_of (λ m. is_transient m.state) modules) partial
      (names_of (is_skewed []) modules) []
probe (some versions) modules partial =
    decide_state (names_of (λ m. is_transient m.state) modules) partial
      (names_of (is_skewed versions) modules) (names_of (is_missing versions) modules)

-- A module that closes the gate.
abbrev pub blocks : Option (List (String × String)) → Module → Bool
blocks none m = is_transient m.state
blocks (some versions) m = is_transient m.state || is_skewed versions m

names_of-nil :
    (p : Module → Bool) (modules : List Module)
    → (names_of p modules ≡ []) ↔ All (λ m. p m ≡ false) modules
unfolding names_of
names_of-nil p [] = ((λ _. tt), (λ _. refl))
names_of-nil p (m ∷ modules) = elim (Bool-cases (p m)) [
  | inl hit ↦ ((λ e. absurd (ground arith)), (λ a. absurd (ground arith)))
  | inr miss ↦ (
    (λ e. (miss, (names_of-nil p modules).0 (rw miss at e))),
    (λ a. rw miss ((names_of-nil p modules).1 a.1)),
  )
]

decide_state-open :
    (ts : List String) (partial : Bool) (ss ms : List String)
    → ((decide_state ts partial ss ms).open_now ≡ true)
      ↔ ((ts ≡ []) × (partial ≡ false) × (ss ≡ []))
decide_state-open (t ∷ ts) partial ss ms = ((λ e. cc), (λ e. let f = e.0 in cc))
decide_state-open [] true ss ms = ((λ e. cc), (λ e. let f = e.1 in cc))
decide_state-open [] false (s ∷ ss) ms = ((λ e. cc), (λ e. let f = e.2 in cc))
decide_state-open [] false [] ms = ((λ _. (refl, refl, refl)), (λ _. refl))

both_quiet :
    (p q : Module → Bool) (modules : List Module)
    → ((All (λ m. p m ≡ false) modules × All (λ m. q m ≡ false) modules)
        ↔ All (λ m. p m || q m ≡ false) modules)
both_quiet p q [] = ((λ _. tt), (λ _. (tt, tt)))
both_quiet p q (m ∷ modules) = (
  (λ h. (ground (arith, h.0.0, h.1.0), (both_quiet p q modules).0 (h.0.1, h.1.1))),
  (λ h.
      let (a, b) = (both_quiet p q modules).1 h.1 in
      ((ground (arith, h.0), a), (ground (arith, h.0), b))),
)

no_code_no_skew : (modules : List Module) → All (λ m. is_skewed [] m ≡ false) modules
unfolding version_of
no_code_no_skew [] = tt
no_code_no_skew (m ∷ modules) = (ground arith, no_code_no_skew modules)

-- The gate is open exactly when the flag of a partial update is not set, no module is being
-- installed, upgraded or removed, and, where versions are checked, no installed module that the
-- code has is recorded with another version than the code's.
pub probe_open :
    (versions : Option (List (String × String))) (modules : List Module) (partial : Bool)
    → ((probe versions modules partial).open_now ≡ true)
      ↔ ((partial ≡ false) × All (λ m. blocks versions m ≡ false) modules)
unfolding probe
probe_open none modules partial =
    let opens =
      decide_state-open (names_of (λ m. is_transient m.state) modules) partial
        (names_of (is_skewed []) modules) [] in
    let calm = names_of-nil (λ m. is_transient m.state) modules in
    (
      (λ e. let (t, f, s) = opens.0 e in (f, calm.0 t)),
      (λ h.
          opens.1
            (calm.1 h.1, h.0, (names_of-nil (is_skewed []) modules).1 (no_code_no_skew modules))),
    )
probe_open (some versions) modules partial =
    let opens =
      decide_state-open (names_of (λ m. is_transient m.state) modules) partial
        (names_of (is_skewed versions) modules) (names_of (is_missing versions) modules) in
    let calm = names_of-nil (λ m. is_transient m.state) modules in
    let even = names_of-nil (is_skewed versions) modules in
    let both = both_quiet (λ m. is_transient m.state) (is_skewed versions) modules in
    (
      (λ e. let (t, f, s) = opens.0 e in (f, both.0 (calm.0 t, even.0 s))),
      (λ h. let (a, b) = both.1 h.1 in opens.1 (calm.1 a, h.0, even.1 b)),
    )
