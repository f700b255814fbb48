-- ===== src/Queue/Defs.antt =====
-- The state of the queue, and the uniqueness of `identity_key` among active rows.
use odoo_job_worker.Base.{
  ℕ, ◌≡◌, Bool, true, false, not, ◌&&◌, Option, List, [], ◌∷◌, All, String, ◌==◌, if◌then◌else◌,
  find_if, is_some, truthy, same_text,
}
use odoo_job_worker.Job.{Job, is_active}

-- The rows in the order of their creation, the next value of the id sequence, and how often
-- `NOTIFY queue_job_wake_up` was sent.
pub record Queue : Type 0 where
  pub jobs : List Job
  pub next_id : ℕ
  pub notifications : ℕ

-- `search([("identity_key", "=", key), ("state", "in", ["waiting", "pending", "started"])])`
abbrev pub holds_key : Option String → Job → Bool
holds_key key r = is_active r.state && same_text r.identity_key key

abbrev pub find_active : Option String → List Job → Option Job
find_active key rows = find_if (holds_key key) rows

-- The same search, with `("id", "!=", id)`.
abbrev pub find_other_active : ℕ → Option String → List Job → Option Job
find_other_active id key rows = find_if (λ r. not (r.id == id) && holds_key key r) rows

-- `_check_identity_key_state_unique` for one row.
abbrev pub key_is_taken : Job → List Job → Bool
key_is_taken r rows = truthy r.identity_key && is_some (find_other_active r.id r.identity_key rows)

-- Two rows that the unique index `queue_job_identity_key_active_uniq` does not let stand together.
abbrev pub clash : Job → Job → Bool
clash r s = is_active r.state && (is_active s.state && same_text r.identity_key s.identity_key)

-- Whether the index refuses a new row.
unfoldable pub index_refuses : Job → List Job → Bool
index_refuses r [] = false
index_refuses r (s ∷ rows) = if clash r s then true else index_refuses r rows

abbrev pub HasUniqueKeys : List Job → Type 0
HasUniqueKeys [] = Unit
HasUniqueKeys (r ∷ rows) = All (λ s. clash r s ≡ false) rows × HasUniqueKeys rows
