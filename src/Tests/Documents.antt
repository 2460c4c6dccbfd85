-- ===== src/Tests/Documents.antt =====
-- The schedules in a map that answers as Firestore does; a query returns the first keys of the map.
use push_dispatch.Base.{
  ℕ, ◌≤◌, ◌≡◌, ◌≢◌, ◌⊎◌, inl, inr, refl, ◌∙◌, ap, true, Option, none, some, String, List, [], ◌∷◌,
  take, length-take, length, Map, lookup, insert, lookup-insert, keys, pos, str_eq, arith,
}
use push_dispatch.Push.Errors.{Result, ok, err}
use push_dispatch.Scheduler.Job.{Job, canceled, Texts, job_key}
use push_dispatch.Scheduler.Store.{
  Read, found, not_found, Step, abort, commit, Update, UpdateAnswer, updated, missing, Documents,
  finish, cancel, finish_body,
}
use push_dispatch.Scheduler.Store.Laws.{IsFirestore, Same, written, apply_updates}
use push_dispatch.Scheduler.Store.Leases.{HasLease, finish_done, finish_stale, finish_once}
use push_dispatch.Scheduler.Store.Canceled.{is_canceled, Op, claim_op, finish_op, run_ops}
use push_dispatch.Scheduler.Store.Cancel.{run_ops-canceled, cancel_done}
use push_dispatch.Tests.Data.{reminder, at_dusk}

abbrev read_of : Option Job → Read
read_of none = not_found
read_of (some job) = found job

abbrev stored : Map Job → String → Read
stored m k = read_of (lookup k m)

abbrev update_found : String → List Update → Map Job → Option Job → UpdateAnswer × Map Job
update_found k us m none = (missing, m)
update_found k us m (some job) = (updated, insert k (apply_updates us job) m)

abbrev run_step : String → Step → Map Job → Result (Option Job) × Map Job
run_step k (abort e) m = (err e, m)
run_step k (commit none) m = (ok none, m)
run_step k (commit (some job)) m = (ok (some job), insert k job m)

abbrev documents : Documents (Map Job)
documents = record {
  set = λ k job m. (none, insert k job m);
  get = λ k m. (stored m k, m);
  update = λ k us m. update_found k us m (lookup k m);
  query = λ s shard t limit m. (ok (take limit (keys m)), m);
  transact = λ k body m. run_step k (body (stored m k)) m;
  new_token = λ m. ("token", m);
}

stored-insert :
    (k : String) (job : Job) (m : Map Job)
    → Same (stored (insert k job m)) (written k (some job) (stored m))
stored-insert k job m j = ground (arith, lookup-insert k j job m)

update_found-effect :
    (k : String) (us : List Update) (m : Map Job) (o : Option Job)
    → Same (stored (update_found k us m o).1) (stored m)
      ⊎ (job : Job) × (read_of o ≡ found job)
        × Same
            (stored (update_found k us m o).1)
            (written k (some (apply_updates us job)) (stored m))
update_found-effect k us m none = inl (λ j. refl)
update_found-effect k us m (some job) = inr (job, refl, stored-insert k (apply_updates us job) m)

update_found-done :
    (k : String) (us : List Update) (m : Map Job) (o : Option Job)
    → (update_found k us m o).0 ≡ updated
    → (job : Job) × (read_of o ≡ found job)
      × Same (stored (update_found k us m o).1) (written k (some (apply_updates us job)) (stored m))
update_found-done k us m none h = absurd (ground arith)
update_found-done k us m (some job) h = (job, refl, stored-insert k (apply_updates us job) m)

update_found-missing :
    (k : String) (us : List Update) (m : Map Job) (o : Option Job)
    → (update_found k us m o).0 ≡ missing
    → lookup k m ≡ o
    → stored (update_found k us m o).1 k ≡ not_found
update_found-missing k us m none h e = rw e
update_found-missing k us m (some job) h e = absurd (ground arith)

run_step-effect :
    (k : String) (s : Step) (m : Map Job)
    → Same (stored (run_step k s m).1) (stored m)
      ⊎ (job : Job) × (s ≡ commit (some job))
        × Same (stored (run_step k s m).1) (written k (some job) (stored m))
run_step-effect k (abort e) m = inl (λ j. refl)
run_step-effect k (commit none) m = inl (λ j. refl)
run_step-effect k (commit (some job)) m = inr (job, refl, stored-insert k job m)

run_step-done :
    (k : String) (s : Step) (m : Map Job) (write : Option Job)
    → (run_step k s m).0 ≡ ok write
    → (s ≡ commit write) × Same (stored (run_step k s m).1) (written k write (stored m))
run_step-done k (abort e) m write h = absurd (ground arith)
run_step-done k (commit none) m none h = (refl, λ j. refl)
run_step-done k (commit none) m (some x) h = absurd (ground arith)
run_step-done k (commit (some job)) m none h = absurd (ground arith)
run_step-done k (commit (some job)) m (some x) h =
    let same : job ≡ x = ground arith in
    (
      ap (λ z. commit (some z)) same,
      λ j. stored-insert k job m j ∙ ap (λ z. written k (some z) (stored m) j) same,
    )

query_limit_lem :
    (limit : ℕ) (m : Map Job) (ks : List String)
    → ok (take limit (keys m)) ≡ ok ks
    → length ks ≤ limit
query_limit_lem limit m ks h =
    let same : take limit (keys m) ≡ ks = ground arith in
    omega (arith, ap length same, length-take limit (keys m))

documents-IsFirestore : IsFirestore documents stored
documents-IsFirestore = record {
  set_effect = λ k job m. inr (stored-insert k job m);
  get_effect = λ k m j. refl;
  update_effect = λ k us m. update_found-effect k us m (lookup k m);
  update_done = λ k us m h. update_found-done k us m (lookup k m) h;
  update_missing = λ k us m h. update_found-missing k us m (lookup k m) h refl;
  query_effect = λ s shard t limit m j. refl;
  query_limit = λ s shard t limit m ks h. query_limit_lem limit m ks h;
  transact_effect = λ k body m. run_step-effect k (body (stored m k)) m;
  transact_done = λ k body m write h. run_step-done k (body (stored m k)) m write h;
  token_effect = λ m j. refl;
}

abbrev texts : Texts
texts = record { sha256_hex = λ s. s; format_time = λ t. "now" }

-- The reminder as it is leased, as it is delivered, and as it is canceled.
abbrev finished : Job
finished = record reminder { lease_token = "" }

abbrev called_off : Job
called_off = record reminder { state = canceled; lease_token = "" }

abbrev leased_map : Map Job
leased_map = (job_key texts "ada" "r1", reminder) ∷ []

abbrev canceled_map : Map Job
canceled_map = (job_key texts "ada" "r1", called_off) ∷ []

reminder_taken : (finish texts documents reminder finished leased_map).0 ≡ none
unfolding finish finish_body lookup str_eq job_key
reminder_taken = refl

finish_done_example :
    (current : Job) × (stored leased_map (job_key texts "ada" "r1") ≡ found current)
    × HasLease reminder finished current
    × Same
        (stored (finish texts documents reminder finished leased_map).1)
        (written (job_key texts "ada" "r1") (some finished) (stored leased_map))
finish_done_example =
    finish_done texts documents stored documents-IsFirestore reminder finished leased_map
      reminder_taken

finish_stale_example :
    ((finish texts documents reminder finished canceled_map).0 ≢ none)
    × Same (stored (finish texts documents reminder finished canceled_map).1) (stored canceled_map)
unfolding job_key lookup str_eq
finish_stale_example =
    finish_stale texts documents stored documents-IsFirestore reminder finished canceled_map refl

finish_once_example :
    let m = (finish texts documents reminder finished leased_map).1 in
    ((finish texts documents reminder finished m).0 ≢ none)
    × Same (stored (finish texts documents reminder finished m).1) (stored m)
finish_once_example =
    finish_once texts documents stored documents-IsFirestore reminder finished finished leased_map
      reminder_taken refl

abbrev calls : List Op
calls = claim_op at_dusk (pos 3) (pos 5) (pos 60) ∷ finish_op reminder finished ∷ []

run_ops-canceled_example :
    let m = run_ops texts documents calls canceled_map in
    (is_canceled (stored m (job_key texts "ada" "r1")) ≡ true)
    × ((finish texts documents reminder finished m).0 ≢ none)
unfolding job_key lookup str_eq
run_ops-canceled_example =
    run_ops-canceled texts documents stored documents-IsFirestore calls reminder finished
      canceled_map refl (tt, (tt, tt))

reminder_canceled : (cancel texts documents "ada" "r1" at_dusk leased_map).0 ≡ none
unfolding cancel lookup str_eq job_key
reminder_canceled = refl

cancel_done_example :
    let read =
      stored (cancel texts documents "ada" "r1" at_dusk leased_map).1 (job_key texts "ada" "r1") in
    (read ≡ not_found)
    ⊎ (job : Job) × (read ≡ found job) × (job.state ≡ canceled) × (job.lease_token ≡ "")
cancel_done_example =
    cancel_done texts documents stored documents-IsFirestore "ada" "r1" at_dusk leased_map
      reminder_canceled
