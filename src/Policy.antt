-- ===== src/Policy.antt =====
-- integrations/compact_policy.py: when the ANN structure is rebuilt. The clock
-- (`time.monotonic`) is an argument, in ticks; the lock makes each method one step.
pub mod History
mod Tests
use unlearning.Prelude.{
  ℕ, zero, ◌+◌, ◌-◌, Bool, true, false, ◌&&◌, ◌||◌, Option, none, some, [], ◌∷◌, ltb, leb, ◌==◌,
  if◌then◌else◌, Str, Result, ok, raise, value_error, ℤ, pos, negsuc,
}
use unlearning.Prelude.Eq.{str_eq, elem}
use unlearning.Prelude.Text.{codes, strip, lower}

pub data PolicyMode : Type 0 where
  always never coalesce : PolicyMode

pub record Policy : Type 0 where
  pub mode : PolicyMode
  pub every_n : ℕ
  pub max_age : ℕ
  pub pending : ℕ
  pub first_pending : Option ℕ

abbrev pub new_policy : PolicyMode → ℕ → ℕ → Policy
new_policy mode n age = record {
  mode = mode;
  every_n = n;
  max_age = age;
  pending = 0;
  first_pending = none;
}

-- `__init__`
unfoldable pub init : PolicyMode → ℤ → ℤ → Result Policy
init mode (negsuc n) age = raise (value_error (codes "every_n must be >= 1"))
init mode (pos zero) age = raise (value_error (codes "every_n must be >= 1"))
init mode (pos n) (negsuc age) = raise (value_error (codes "max_age_s must be >= 0"))
init mode (pos n) (pos age) = ok (new_policy mode n age)

-- `policy_from_env`, given HEALER_COMPACT_POLICY and the numbers of the two other variables, which
-- default to 32 and a minute
unfoldable pub policy_from_env : Str → ℤ → ℤ → Result Policy
unfolding init
policy_from_env raw every_n max_age =
    let name = lower (strip raw) in
    if elem name (codes "never" ∷ codes "off" ∷ codes "0" ∷ [])
    then init never (pos 32) (pos 60)
    else if elem name (codes "coalesce" ∷ codes "batch" ∷ codes "deferred" ∷ [])
    then init coalesce every_n max_age
    else init always (pos 32) (pos 60)

unfoldable pub note_deletes : ℕ → ℕ → Policy → Policy
note_deletes n now p = if n == 0 then p else record p {
  first_pending = if p.pending == 0 then some now else p.first_pending;
  pending = p.pending + n;
}

pub data Why : Type 0 where
  by_always by_force by_never no_pending by_every_n by_max_age waiting : Why

pub record Decision : Type 0 where
  pub should_compact : Bool
  pub reason : Why
  pub pending_deletes : ℕ

abbrev pub decision : Bool → Why → ℕ → Decision
decision b why n = record { should_compact = b; reason = why; pending_deletes = n }

abbrev pub age_of : Option ℕ → ℕ → ℕ
age_of none now = 0
age_of (some first) now = now - first

-- The `coalesce` part of `decide`.
unfoldable pub decide_coalesce : ℕ → Policy → Decision
decide_coalesce now p =
    if p.pending == 0
    then decision false no_pending 0
    else if leb p.every_n p.pending
    then decision true by_every_n p.pending
    else if ltb 0 p.max_age && leb p.max_age (age_of p.first_pending now)
    then decision true by_max_age p.pending
    else decision false waiting p.pending

-- The reasons are as the source words them: a forced decision says "force".
unfoldable pub decide_mode : PolicyMode → ℕ → Policy → Decision
unfolding decide_coalesce
decide_mode always now p = decision true by_always p.pending
decide_mode never now p = decision false by_never p.pending
decide_mode coalesce now p = decide_coalesce now p

unfoldable pub decide : Bool → ℕ → Policy → Decision
unfolding decide_mode
decide force now p = if force then decision true by_force p.pending else decide_mode p.mode now p

unfoldable pub mark_compacted : Policy → Policy
mark_compacted p = record p { pending = 0; first_pending = none }

unfoldable pub pending_count : Policy → ℕ
pending_count p = p.pending
