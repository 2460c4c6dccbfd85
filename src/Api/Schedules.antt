-- ===== src/Api/Schedules.antt =====
-- api/schedules.go: the handlers of schedules.
use push_dispatch.Base.{String, Option, none, some, Time, if◌then◌else◌}
use push_dispatch.Push.Errors.{Error, Result, ok, err}
use push_dispatch.Push.Types.{Message}
use push_dispatch.Scheduler.Daily.{Daily}
use push_dispatch.Scheduler.Job.{State, Job}
use push_dispatch.Scheduler.Schedule.{Environment, Schedule, new_job}
use push_dispatch.Api.{Response, refused, answered, no_content, Request, is_error, wrap}

-- What the handlers use of the interface `Store` of the scheduler, and the clock.
pub record ScheduleStore (W : Type 0) : Type 0 where
  pub now : W → Time × W
  pub put : Job → W → Option Error × W
  pub get_job : String → String → W → Result Job × W
  pub cancel : String → String → Time → W → Option Error × W

-- The body of a request to put a schedule.
pub record ScheduleInput : Type 0 where
  pub at_time : Time
  pub daily : Option Daily
  pub message : Message

-- What the answers show of a job.
pub record ScheduleView : Type 0 where
  pub id : String
  pub daily : Option Daily
  pub due_at : Time
  pub state : State
  pub message : Message

pub record PutView : Type 0 where
  pub id : String
  pub due_at : Time

abbrev pub view_of : Job → ScheduleView
view_of job = record {
  id = job.id;
  daily = job.daily;
  due_at = job.due_at;
  state = job.state;
  message = job.message;
}

abbrev pub get_answer : {W : Type 0} → Result Job × W → Response ScheduleView × W
get_answer (ok job, w) = (answered (view_of job), w)
get_answer (err e, w) =
    if is_error "schedule not found" e
    then (refused 404 "not found", w)
    else (refused 503 "storage unavailable", w)

abbrev pub put_answer : {W : Type 0} → Job → Option Error × W → Response PutView × W
put_answer job (none, w) = (answered (record { id = job.id; due_at = job.due_at }), w)
put_answer job (some e, w) = (refused 503 "storage unavailable", w)

abbrev pub cancel_answer : {W : Type 0} → Option Error × W → Response (Unit {0}) × W
cancel_answer (none, w) = (no_content, w)
cancel_answer (some e, w) = (refused 503 "storage unavailable", w)

abbrev pub schedule_for : String → String → ScheduleInput → Schedule
schedule_for id uid input = record {
  id = id;
  recipient_id = uid;
  at_time = input.at_time;
  daily = input.daily;
  message = input.message;
}

module _ {W : Type 0} (environment : Environment) (store : ScheduleStore W) where
  -- `GET /v1/schedules/{id}`.
  abbrev pub get_body : String → String → W → Response ScheduleView × W
  get_body id uid w = get_answer (store.get_job uid id w)

  unfoldable pub get_schedule : Request (Unit {0}) → W → Response ScheduleView × W
  get_schedule request w = wrap environment.contains_separator (get_body request.id) request w

  -- `PUT /v1/schedules/{id}`.
  abbrev pub put_checked : Result Job → W → Response PutView × W
  put_checked (err e) w = (refused 400 "invalid schedule", w)
  put_checked (ok job) w = put_answer job (store.put job w)

  abbrev pub put_body : Option ScheduleInput → String → String → W → Response PutView × W
  put_body none id uid w = (refused 400 "invalid JSON", w)
  put_body (some input) id uid w =
      let (t, w₁) = store.now w in
      put_checked (new_job environment (schedule_for id uid input) t) w₁

  unfoldable pub put_schedule : Request ScheduleInput → W → Response PutView × W
  put_schedule request w =
      wrap environment.contains_separator (put_body request.body request.id) request w

  -- `DELETE /v1/schedules/{id}`.
  abbrev pub cancel_body : String → String → W → Response (Unit {0}) × W
  cancel_body id uid w = let (t, w₁) = store.now w in cancel_answer (store.cancel uid id t w₁)

  unfoldable pub cancel_schedule : Request (Unit {0}) → W → Response (Unit {0}) × W
  cancel_schedule request w = wrap environment.contains_separator (cancel_body request.id) request w
