-- ===== src/Base/Text.antt =====
-- Texts as Python tests them.
use Prim.Native.Char.{code}
use Prim.Native.String.{String}
use text.Mathlib.Text.{◌==◌ as str_eq}
use text.Mathlib.TextEquality.{eq_iff}
use mathlib.Core.Path.{◌≡◌, refl}
use mathlib.Core.Bool.{Bool, true, false, not, ◌&&◌}
use mathlib.Core.Option.{Option, none, some}
use mathlib.Core.List.{List, [], ◌∷◌, reverse}
use native.Mathlib.Omega.{arith}
use Prim.Native.Nat.{ℕ}
use odoo_job_worker.Base.Tests.{◌==◌}

abbrev pub codes : String → List ℕ
codes String.[] = []
codes (String.◌∷◌ c s) = code c ∷ codes s

abbrev begins_with_two : ℕ → List ℕ → Bool
begins_with_two k (x ∷ y ∷ rest) = (x == k) && (y == k)
begins_with_two k _ = false

-- `s.startswith("__") and s.endswith("__")`
unfoldable pub is_dunder : String → Bool
is_dunder s = begins_with_two b'_' (codes s) && begins_with_two b'_' (reverse (codes s))

-- The truth value of a nullable text.
abbrev pub truthy : Option String → Bool
truthy none = false
truthy (some s) = not (str_eq s "")

-- `s or None`
abbrev pub or_none : Option String → Option String
or_none none = none
or_none (some s) = elim (str_eq s "") [ true ↦ none | false ↦ some s ]

-- Equality of nullable texts in SQL: NULL equals nothing.
abbrev pub same_text : Option String → Option String → Bool
same_text (some s) (some t) = str_eq s t
same_text _ _ = false

pub same_text_eq : (a b : Option String) → same_text a b ≡ true → a ≡ b
same_text_eq none none h = refl
same_text_eq none (some t) h = ground arith
same_text_eq (some s) none h = ground arith
same_text_eq (some s) (some t) h = ground (arith, eq_iff s t)

pub same_text_sym : (a b : Option String) → same_text a b ≡ same_text b a
same_text_sym none none = refl
same_text_sym none (some t) = refl
same_text_sym (some s) none = refl
same_text_sym (some s) (some t) = ground (arith, eq_iff s t, eq_iff t s)
