-- ===== src/Api/Refused.antt =====
-- api/devices.go and api/schedules.go: whose requests reach a store, and for whom.
use push_dispatch.Base.{
  ℕ, ◌≡◌, ◌≢◌, ◌⊎◌, sym, ◌∙◌, inl, inr, refl, ap, String, Bool, false, Option, none, some, subst,
  Bool-cases, arith,
}
use push_dispatch.Push.Errors.{Error, Result, ok, err, Result-cases}
use push_dispatch.Scheduler.Job.{Job}
use push_dispatch.Scheduler.Schedule.{Environment, new_job}
use push_dispatch.Api.{Response, refused, answered, Request, bad_uid, wrap}
use push_dispatch.Api.Schedules.{
  ScheduleStore, ScheduleInput, PutView, put_answer, put_checked, put_body, schedule_for,
  put_schedule,
}

pub refused_of_answered :
    {A : Type 0} {a : A} (status : ℕ) (text : String) → refused status text ≢ answered a
refused_of_answered status text h = ground arith

-- A request that a handler serves: of a user whom `Authenticate` names, with a valid id.
pub record IsServed {A B W : Type 0} (contains_separator : String → Bool) (request : Request A)
    (next : String → W → Response B × W) (w : W) (answer : Response B × W) : Type 0 where
  pub uid : String
  pub is_user : request.authenticated ≡ ok uid
  pub valid_user : bad_uid contains_separator uid ≡ false
  pub served : answer ≡ next uid w

-- A request is refused with the status 503 or 401 and changes nothing, or it is served for the user
-- whom `Authenticate` names, whose id is valid.
pub wrap_guards :
    {A B W : Type 0} (contains_separator : String → Bool) (next : String → W → Response B × W)
    (request : Request A) (w : W)
    → (wrap contains_separator next request w ≡ (refused 503 "service unavailable", w))
      ⊎ (wrap contains_separator next request w ≡ (refused 401 "unauthorized", w))
      ⊎ IsServed contains_separator request next w (wrap contains_separator next request w)
unfolding wrap
wrap_guards contains_separator next request w = elim (Bool-cases request.configured) [
  | inr missing ↦ inl (rw missing refl)
  | inl there ↦ elim (Result-cases request.authenticated) [
    | inr (e, denied) ↦ inr (inl (rw (there, denied) refl))
    | inl (uid, user) ↦ elim (Bool-cases (bad_uid contains_separator uid)) [
      | inl bad ↦ inr (inl (rw (there, user, bad) refl))
      | inr good ↦ inr (
          inr (record {
            uid = uid;
            is_user = user;
            valid_user = good;
            served = rw (there, user, good) refl;
          }))
    ]
  ]
]

-- A schedule that is stored for a user: the clock is read in the world `w`, and putting the job
-- leads to the world `after`.
pub record IsStored {W : Type 0} (environment : Environment) (store : ScheduleStore W)
    (request : Request ScheduleInput) (w after : W) (view : PutView) : Type 0 where
  pub uid : String
  pub is_user : request.authenticated ≡ ok uid
  pub valid_user : bad_uid environment.contains_separator uid ≡ false
  pub input : ScheduleInput
  pub is_input : request.body ≡ some input
  pub job : Job
  pub made :
      new_job environment
        (record {
          id = request.id;
          recipient_id = uid;
          at_time = input.at_time;
          daily = input.daily;
          message = input.message;
        })
        (store.now w).0
      ≡ ok job
  pub stored : store.put job (store.now w).1 ≡ (none, after)
  pub shown : view ≡ record { id = job.id; due_at = job.due_at }

module _ {W : Type 0} (environment : Environment) (store : ScheduleStore W) where
  put_body-IsStored :
      (request : Request ScheduleInput) (uid : String) (w : W) {view : PutView}
      → request.authenticated ≡ ok uid
      → bad_uid environment.contains_separator uid ≡ false
      → (put_body environment store request.body request.id uid w).0 ≡ answered view
      → IsStored environment store request w
          (put_body environment store request.body request.id uid w).1
          view
  put_body-IsStored request uid w {view} user valid h = by_input request.body refl h
    where
      by_put :
          (input : ScheduleInput) (job : Job) (answer : Option Error × W)
          → request.body ≡ some input
          → new_job environment (schedule_for request.id uid input) (store.now w).0 ≡ ok job
          → store.put job (store.now w).1 ≡ answer
          → (put_answer job answer).0 ≡ answered view
          → IsStored environment store request w (put_answer job answer).1 view
      by_put input job (some e, after) body made put h = absurd (refused_of_answered _ _ h)
      by_put input job (none, after) body made put h = record {
        uid = uid;
        is_user = user;
        valid_user = valid;
        input = input;
        is_input = body;
        job = job;
        made = made;
        stored = put;
        shown = ground arith;
      }

      by_job :
          (input : ScheduleInput) (r : Result Job)
          → request.body ≡ some input
          → new_job environment (schedule_for request.id uid input) (store.now w).0 ≡ r
          → (put_checked environment store r (store.now w).1).0 ≡ answered view
          → IsStored environment store request w
              (put_checked environment store r (store.now w).1).1
              view
      by_job input (err e) body made h = absurd (refused_of_answered _ _ h)
      by_job input (ok job) body made h =
          by_put input job (store.put job (store.now w).1) body made refl h

      by_input :
          (body : Option ScheduleInput)
          → request.body ≡ body
          → (put_body environment store body request.id uid w).0 ≡ answered view
          → IsStored environment store request w
              (put_body environment store body request.id uid w).1
              view
      by_input none body h = absurd (refused_of_answered _ _ h)
      by_input (some input) body h =
          by_job input (new_job environment (schedule_for request.id uid input) (store.now w).0)
            body refl h

  -- Where `PUT` of a schedule answers with a schedule, the request was of a user whom
  -- `Authenticate` names and whose id is valid. `NewJob`, at what the clock shows, makes a job of
  -- the id of the path, that user as the recipient, and the time, the daily time and the message of
  -- the body. This job was put in the store right after the clock was read, without an error, and
  -- nothing happened after that. The answer shows the job's id and when it is due.
  pub put_schedule_own :
      (request : Request ScheduleInput) (w : W) {view : PutView}
      → (put_schedule environment store request w).0 ≡ answered view
      → IsStored environment store request w (put_schedule environment store request w).1 view
  unfolding put_schedule
  put_schedule_own request w {view} h =
      elim (wrap_guards environment.contains_separator
        (put_body environment store request.body request.id) request w) [
          | inl refusal ↦ absurd (refused_of_answered _ _ (sym (ap (λ a. a.0) refusal) ∙ h))
          | inr (inl refusal) ↦ absurd (refused_of_answered _ _ (sym (ap (λ a. a.0) refusal) ∙ h))
          | inr (inr s) ↦
              subst (λ after. IsStored environment store request w after view)
                (sym (ap (λ a. a.1) s.served))
                (put_body-IsStored request s.uid w s.is_user s.valid_user
                  (sym (ap (λ a. a.0) s.served) ∙ h))
        ]
