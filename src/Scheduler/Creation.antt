-- ===== src/Scheduler/Creation.antt =====
-- A new scheduler.
use rebuild.Base.{ℕ, ◌≡◌, refl, arith, List, [], Option, none, some, false}
use rebuild.Base.{Bytes}
use rebuild.Map
use rebuild.Map.{Map}
use rebuild.Map.Writes.{blank-IsEmpty}
use rebuild.Scheduler.Completion.{Nothing}
use rebuild.Scheduler.Invariant.{IsScheduler}
use rebuild.Scheduler.State.{Scheduler, scheduler_create}
use rebuild.Storage.{Storage}
use rebuild.Tool.{tool_manager_create}

pub no_value : {A : Type 0} {o : Option A} {x : A} → o ≡ none → o ≡ some x → ⊥
no_value e f = cc

-- `scheduler_create` never faults, and the new scheduler keeps the invariant: there is nothing
-- in the queue, no failure and no context.
pub scheduler_create-IsScheduler :
    {Umka Disk : Type 0} (names : List Bytes) (path_env : Option Bytes) (disk : Disk)
    (storage : Storage)
    → (s : Scheduler Umka Disk) × (scheduler_create path_env disk storage ≡ some s)
      × IsScheduler Nothing names s
      × (s.ready_queue ≡ [])
      × (s.failed ≡ false)
      × (s.context ≡ none)
unfolding scheduler_create tool_manager_create Map.create
scheduler_create-IsScheduler names path_env disk storage = (
  _,
  refl,
  record {
    recipes_ok = record {
      recipes_valid = (blank-IsEmpty {V = ℕ} 64 (omega arith)).valid;
      completed_valid = (blank-IsEmpty {V = Bytes} 64 (omega arith)).valid;
      listed = λ p a h. absurd (no_value ((blank-IsEmpty {V = ℕ} 64 (omega arith)).reads p) h);
      named = λ a r h. cc;
      sets = λ a r h. absurd (cc);
      recorded = λ a r h. cc;
      known =
          λ p path h. absurd (no_value ((blank-IsEmpty {V = Bytes} 64 (omega arith)).reads p) h);
    };
    waiting_ok = record {
      valid = (blank-IsEmpty {V = ℕ} 64 (omega arith)).valid;
      found = λ p w h. absurd (no_value ((blank-IsEmpty {V = ℕ} 64 (omega arith)).reads p) h);
      live = λ w l h. absurd (cc);
    };
    queued = λ a mem. elim mem [ ];
    settled = λ a r h. absurd (cc);
    registry_ok = record { targets_valid = λ g h. absurd (cc); within = λ g p t h. absurd (cc) };
  },
  refl,
  refl,
  refl,
)
