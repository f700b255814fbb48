-- ===== src/Queue/Sound/Revive.antt =====
-- A write that makes a row active again, where the constraint on identity keys lets it.
use mathlib.Core.List.{Memᴰ}
use mathlib.Core.Option.{some-injective}
use odoo_job_worker.Base.{
  ℕ, ◌≡◌, refl, sym, subst, Bool, true, false, not, ◌&&◌, Option, none, some, String, List, [], ◌∷◌,
  All, everywhere, Bool-cases, Option-cases, inl, inr, find_if, ◌==◌, truthy, or_none, same_text,
  same_text_sym, arith,
}
use odoo_job_worker.Job.{
  Job, Settings, is_active, browse, write, with_id, HasUniqueIds, HasUniqueIds-update_if, only_one,
  All-Memᴰ, write_absent,
}
use odoo_job_worker.Queue.Defs.{holds_key, find_other_active, key_is_taken, clash, HasUniqueKeys}
use odoo_job_worker.Queue.Sound.{IsSound}

find_if-none :
    (p : Job → Bool) (rows : List Job) → find_if p rows ≡ none → All (λ s. p s ≡ false) rows
find_if-none p [] h = tt
find_if-none p (r ∷ rows) h = elim (Bool-cases (p r)) [
  | inl hit ↦ let found : some r ≡ none = rw hit at h in cc
  | inr miss ↦ (miss, find_if-none p rows (rw miss at h))
]

find_if-some :
    (p : Job → Bool) (rows : List Job) (r : Job)
    → find_if p rows ≡ some r
    → Memᴰ r rows × (p r ≡ true)
find_if-some p [] r h = cc
find_if-some p (x ∷ rows) r h = elim (Bool-cases (p x)) [
  | inl hit ↦
      let e : x ≡ r = some-injective x r (rw hit at h) in
      (Memᴰ.head (sym e), subst (λ y. p y ≡ true) e hit)
  | inr miss ↦ let (m, holds) = find_if-some p rows r (rw miss at h) in (Memᴰ.tail m, holds)
]

-- No other active row holds the key.
abbrev IsFree : Job → List Job → Type 0
IsFree r rows = All (λ s. not (s.id == r.id) && holds_key r.identity_key s ≡ false) rows

null_is_free :
    (k : Option String) → k ≡ none → (b : Bool) (t : Option String) → b && same_text t k ≡ false
null_is_free k e b none = ground arith
null_is_free k e b (some t) = rw e (ground arith)

stored_null : (k : Option String) → or_none k ≡ k → truthy k ≡ false → k ≡ none
stored_null none h f = refl
stored_null (some t) h f = ground arith

key_is_taken-IsFree :
    (r : Job) (rows : List Job)
    → or_none r.identity_key ≡ r.identity_key
    → key_is_taken r rows ≡ false
    → IsFree r rows
key_is_taken-IsFree r rows stored h = elim (Bool-cases (truthy r.identity_key)) [
  | inl keyed ↦ elim (Option-cases (find_other_active r.id r.identity_key rows)) [
    | inl lacks ↦ find_if-none _ rows lacks
    | inr (other, found) ↦ let missed : true ≡ false = rw (keyed, found) at h in cc
  ]
  | inr plain ↦
      everywhere (λ s. not (s.id == r.id) && holds_key r.identity_key s ≡ false)
        (λ s.
          let idle =
            null_is_free r.identity_key (stored_null r.identity_key stored plain)
              (is_active s.state) s.identity_key in
          rw idle (ground arith))
        rows
]

free_then : (a b : Bool) → a ≡ false → not a && b ≡ false → b ≡ false
free_then a b h k = ground arith

and_false : (a b : Bool) → b ≡ false → a && b ≡ false
and_false a b h = ground arith

-- With `c` the new state of one row, the other being idle or of another key.
idle_clash : (a b c : Bool) → a && b ≡ false → a && (c && b) ≡ false
idle_clash a b c h = ground arith

-- A write that keeps the id and the settings.
module _ (f : Job → Job)
    (keeps : (r : Job) → ((f r).id ≡ r.id) × ((f r).settings ≡ r.settings)) where
  -- What is said of the id and the settings of every row stays true.
  pub All-write :
      (P : ℕ → Settings → Type 0) (job : ℕ) (rows : List Job)
      → All (λ r. P r.id r.settings) rows
      → All (λ r. P r.id r.settings) (write job f rows)
  All-write P job [] h = tt
  All-write P job (r ∷ rows) h = elim (Bool-cases (with_id job r)) [
    | inl hit ↦ rw (hit, (keeps r).0, (keeps r).1) (h.0, All-write P job rows h.1)
    | inr miss ↦ rw miss (h.0, All-write P job rows h.1)
  ]

  -- The row `r` may become active beside rows that are not it.
  written-clash :
      (x r s : Job)
      → x ≡ r
      → s.id == r.id ≡ false
      → not (s.id == r.id) && holds_key r.identity_key s ≡ false
      → clash (f x) s ≡ false
  written-clash x r s e apart free =
      let quiet : holds_key r.identity_key s ≡ false = free_then _ _ apart free in
      rw ((keeps x).1, e, same_text_sym r.identity_key s.identity_key) (and_false _ _ quiet)

  clash-written :
      (x s r : Job)
      → s ≡ r
      → x.id == r.id ≡ false
      → not (x.id == r.id) && holds_key r.identity_key x ≡ false
      → clash x (f s) ≡ false
  clash-written x s r e apart free =
      let quiet : holds_key r.identity_key x ≡ false = free_then _ _ apart free in
      rw ((keeps s).1, e) (idle_clash (is_active x.state) _ _ quiet)

  -- A row beside all the others, one of which is written.
  beside_written :
      (x r : Job) (rows : List Job)
      → x.id == r.id ≡ false
      → not (x.id == r.id) && holds_key r.identity_key x ≡ false
      → All (λ s. with_id r.id s ≡ true → s ≡ r) rows
      → All (λ s. clash x s ≡ false) rows
      → All (λ s. clash x s ≡ false) (write r.id f rows)
  beside_written x r [] apart free only h = tt
  beside_written x r (s ∷ rows) apart free only h = (
    elim (Bool-cases (with_id r.id s)) [
      | inl hit ↦ rw hit (clash-written x s r (only.0 hit) apart free)
      | inr miss ↦ rw miss h.0
    ],
    beside_written x r rows apart free only.1 h.1,
  )

  written_beside :
      (x r : Job) (rows : List Job)
      → x ≡ r
      → All (λ s. with_id r.id s ≡ false) rows
      → IsFree r rows
      → All (λ s. clash (f x) s ≡ false) rows
  written_beside x r [] e a free = tt
  written_beside x r (s ∷ rows) e a free =
      (written-clash x r s e a.0 free.0, written_beside x r rows e a.1 free.1)

  write-HasUniqueKeys :
      (r : Job) (rows : List Job)
      → HasUniqueIds rows
      → All (λ s. with_id r.id s ≡ true → s ≡ r) rows
      → IsFree r rows
      → HasUniqueKeys rows
      → HasUniqueKeys (write r.id f rows)
  write-HasUniqueKeys r [] u only free h = tt
  write-HasUniqueKeys r (x ∷ rows) u only free h = elim (Bool-cases (with_id r.id x)) [
    | inl hit ↦
        let absent : All (λ s. with_id r.id s ≡ false) rows =
          subst (λ (y : Job). All (λ s. with_id y.id s ≡ false) rows) (only.0 hit) u.0 in
        rw (hit, write_absent r.id f rows absent)
          (written_beside x r rows (only.0 hit) absent free.1, h.1)
    | inr miss ↦ rw miss (
      beside_written x r rows miss free.0 only.1 h.0,
      write-HasUniqueKeys r rows u.1 only.1 free.1 h.1,
    )
  ]

  -- A row whose key no other active row holds may get any state.
  pub write-IsSound :
      (job : ℕ) (r : Job) (rows : List Job)
      → browse job rows ≡ some r
      → key_is_taken r rows ≡ false
      → IsSound rows
      → IsSound (write job f rows)
  write-IsSound job r rows e free (u, s, k) =
      let (m, named) = find_if-some (with_id job) rows r e in
      let stored : or_none r.identity_key ≡ r.identity_key =
        All-Memᴰ (λ x. or_none x.identity_key ≡ x.identity_key) r rows s m in
      let same : r.id ≡ job = ground arith in
      (
        HasUniqueIds-update_if (with_id job) f (λ r. (keeps r).0) rows u,
        All-write (λ _ t. or_none t.identity_key ≡ t.identity_key) job rows s,
        subst (λ n. HasUniqueKeys (write n f rows)) same
            (write-HasUniqueKeys r rows u (only_one r rows u m)
              (key_is_taken-IsFree r rows stored free) k),
      )
