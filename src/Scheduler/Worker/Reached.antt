-- ===== src/Scheduler/Worker/Reached.antt =====
-- scheduler/worker.go over push/store: an attempt and the devices of its recipient.
use push_dispatch.Base.{◌≡◌, String, true, List, lookup, has, Time, ◌∙◌}
use push_dispatch.Push.Errors.{ok}
use push_dispatch.Push.Types.{Target, TargetResult}
use push_dispatch.Push.Store.Documents.{Snapshot, Config, Database}
use push_dispatch.Push.Store.Operations.{active_targets}
use push_dispatch.Push.Store.Laws.{IsFirestore}
use push_dispatch.Push.Store.Ownership.{IsOwned, installations_in}
use push_dispatch.Push.Store.Active.{is_active, active_targets_exact}
use push_dispatch.Scheduler.Job.{Job}
use push_dispatch.Scheduler.Worker.{pending_targets, note_acks, initial_acks}
use push_dispatch.Scheduler.Worker.Acknowledged.{note_acks_complete}

module _ {W : Type 0} (database : Database W) (config : Config) (stored : W → Snapshot)
    (laws : IsFirestore database stored) where
  -- For a Firestore that does what it documents: an attempt for the targets that `ActiveTargets` lists of a store with right owners, after whose
  -- results nothing is unresolved, has completed every installation of the recipient that was active.
  pub active_targets_reached :
      (job : Job) (now : Time) (w : W) (ts : List Target) (rs : List TargetResult) (k : String)
      → IsOwned (stored w)
      → (active_targets database config job.recipient_id now w).0 ≡ ok ts
      → (note_acks rs (initial_acks job (pending_targets job.completed ts))).unresolved ≡ 0
      → is_active now (lookup k (installations_in ((stored w).users job.recipient_id))) ≡ true
      → has (note_acks rs (initial_acks job (pending_targets job.completed ts))).completed k ≡ true
  active_targets_reached job now w ts rs k o listed resolved active =
      let l =
        active_targets_exact database config stored laws job.recipient_id now w
          (o.distinct job.recipient_id) listed in
      note_acks_complete job ts rs k l.distinct resolved (l.exact k ∙ active)
