-- ===== src/Queue/Sound.antt =====
-- Tables with unique ids and unique identity keys, and changes of rows that leave them so.
pub mod Revive
pub mod Rows
use odoo_job_worker.Base.{
  ℕ, ◌≡◌, ◌<◌, refl, ◌∙◌, subst, sym, Bool, true, false, ◌&&◌, ◌==◌, List, [], ◌∷◌, All, Zip,
  Bool-cases, inl, inr, or_none, same_text, update_if, arith,
}
use odoo_job_worker.Job.{Job, Settings, HasUniqueIds, with_id, is_active}
use odoo_job_worker.Queue.Defs.{clash, HasUniqueKeys}

-- The keys of the rows are stored as `enqueue` stores them: never the empty text.
abbrev pub HasStoredKeys : List Job → Type 0
HasStoredKeys rows = All (λ r. or_none r.identity_key ≡ r.identity_key) rows

abbrev pub IsSound : List Job → Type 0
IsSound rows = HasUniqueIds rows × HasStoredKeys rows × HasUniqueKeys rows

-- The id and the settings of a row stay, and it is active only if it was.
pub record IsQuiet (before after : Job) : Type 0 where
  pub named : after.id ≡ before.id
  pub same : after.settings ≡ before.settings
  pub calms : is_active after.state ≡ true → is_active before.state ≡ true

pub IsQuiet-refl : (r : Job) → IsQuiet r r
IsQuiet-refl r = record { named = refl; same = refl; calms = λ a. a }

pub IsQuiet-trans : (r s t : Job) → IsQuiet r s → IsQuiet s t → IsQuiet r t
IsQuiet-trans r s t p q = record {
  named = q.named ∙ p.named;
  same = q.same ∙ p.same;
  calms = λ a. p.calms (q.calms a);
}

pub Zip-IsQuiet-refl : (rows : List Job) → Zip IsQuiet rows rows
Zip-IsQuiet-refl [] = tt
Zip-IsQuiet-refl (r ∷ rows) = (IsQuiet-refl r, Zip-IsQuiet-refl rows)

pub Zip-IsQuiet-trans :
    (rows mid after : List Job)
    → Zip IsQuiet rows mid
    → Zip IsQuiet mid after
    → Zip IsQuiet rows after
Zip-IsQuiet-trans [] [] [] y z = tt
Zip-IsQuiet-trans [] [] (a ∷ after) y z = z
Zip-IsQuiet-trans [] (m ∷ mid) after y z = elim y [ ]
Zip-IsQuiet-trans (b ∷ rows) [] after y z = elim y [ ]
Zip-IsQuiet-trans (b ∷ rows) (m ∷ mid) [] y z = z
Zip-IsQuiet-trans (b ∷ rows) (m ∷ mid) (a ∷ after) y z =
    (IsQuiet-trans b m a y.0 z.0, Zip-IsQuiet-trans rows mid after y.1 z.1)

-- A row that the call changes is quiet, the others are untouched.
pub update-IsQuiet :
    (p : Job → Bool) (f : Job → Job)
    → ((r : Job) → p r ≡ true → IsQuiet r (f r))
    → (rows : List Job) → Zip IsQuiet rows (update_if p f rows)
update-IsQuiet p f h [] = tt
update-IsQuiet p f h (r ∷ rows) = (
  elim (Bool-cases (p r)) [ inl hit ↦ rw hit (h r hit) | inr miss ↦ rw miss (IsQuiet-refl r) ],
  update-IsQuiet p f h rows,
)

weaken :
    (a a' b b' c : Bool)
    → (a' ≡ true → a ≡ true)
    → (b' ≡ true → b ≡ true)
    → a && (b && c) ≡ false
    → a' && (b' && c) ≡ false
weaken a a' b b' c f g h = ground arith

clash-IsQuiet : (r n s t : Job) → IsQuiet r n → IsQuiet s t → clash r s ≡ false → clash n t ≡ false
clash-IsQuiet r n s t p q h =
    rw (p.same, q.same)
      (weaken (is_active r.state) (is_active n.state) (is_active s.state) (is_active t.state)
        (same_text r.identity_key s.identity_key) p.calms q.calms h)

clashes-All-IsQuiet :
    (r n : Job) (rows after : List Job)
    → IsQuiet r n
    → Zip IsQuiet rows after
    → All (λ s. clash r s ≡ false) rows
    → All (λ t. clash n t ≡ false) after
clashes-All-IsQuiet r n [] [] p z h = tt
clashes-All-IsQuiet r n [] (t ∷ after) p z h = elim z [ ]
clashes-All-IsQuiet r n (s ∷ rows) [] p z h = tt
clashes-All-IsQuiet r n (s ∷ rows) (t ∷ after) p z h =
    (clash-IsQuiet r n s t p z.0 h.0, clashes-All-IsQuiet r n rows after p z.1 h.1)

pub HasUniqueKeys-IsQuiet :
    (rows after : List Job) → Zip IsQuiet rows after → HasUniqueKeys rows → HasUniqueKeys after
HasUniqueKeys-IsQuiet [] [] z u = tt
HasUniqueKeys-IsQuiet [] (n ∷ after) z u = elim z [ ]
HasUniqueKeys-IsQuiet (r ∷ rows) [] z u = tt
HasUniqueKeys-IsQuiet (r ∷ rows) (n ∷ after) z u =
    (clashes-All-IsQuiet r n rows after z.0 z.1 u.0, HasUniqueKeys-IsQuiet rows after z.1 u.1)

-- What is said of the id and the settings of every row stays true.
pub All-IsQuiet :
    (P : ℕ → Settings → Type 0) (rows after : List Job)
    → Zip IsQuiet rows after
    → All (λ r. P r.id r.settings) rows
    → All (λ r. P r.id r.settings) after
All-IsQuiet P [] [] z h = tt
All-IsQuiet P [] (n ∷ after) z h = elim z [ ]
All-IsQuiet P (r ∷ rows) [] z h = tt
All-IsQuiet P (r ∷ rows) (n ∷ after) z h = (
  subst (λ i. P i n.settings) (sym z.0.named)
      (subst (λ (s : Settings). P r.id s) (sym z.0.same) h.0),
  All-IsQuiet P rows after z.1 h.1,
)

HasUniqueIds-IsQuiet :
    (rows after : List Job) → Zip IsQuiet rows after → HasUniqueIds rows → HasUniqueIds after
HasUniqueIds-IsQuiet [] [] z u = tt
HasUniqueIds-IsQuiet [] (n ∷ after) z u = elim z [ ]
HasUniqueIds-IsQuiet (r ∷ rows) [] z u = tt
HasUniqueIds-IsQuiet (r ∷ rows) (n ∷ after) z u = (
  subst (λ k. All (λ s. with_id k s ≡ false) after) (sym z.0.named)
      (All-IsQuiet (λ i _. i == r.id ≡ false) rows after z.1 u.0),
  HasUniqueIds-IsQuiet rows after z.1 u.1,
)

pub IsSound-IsQuiet :
    (rows after : List Job) → Zip IsQuiet rows after → IsSound rows → IsSound after
IsSound-IsQuiet rows after z (u, s, k) = (
  HasUniqueIds-IsQuiet rows after z u,
  All-IsQuiet (λ _ t. or_none t.identity_key ≡ t.identity_key) rows after z s,
  HasUniqueKeys-IsQuiet rows after z k,
)
