-- ===== src/Command.antt =====
-- cmd/push-dispatch/main.go: the commands that tick, schedule, cancel and send. Flags, clients of
-- Google's services, JSON and the HTTP server belong to libraries: they are the parameter `Host`, and
-- the arguments of a command are the ones after their parsing.
pub mod Partition
pub mod Sent
use push_dispatch.Base.{
  ℕ, zero, suc, ◌+◌, ◌-◌, ◌*◌, ◌^◌, String, len, Bool, true, false, ◌&&◌, ◌||◌, not, Option, none,
  some, is_some, List, [], ◌∷◌, ℤ, pos, negsuc, is_negative, exceeds, Time, str_eq, ltb, leb, ◌==◌,
  if◌then◌else◌,
}
use push_dispatch.Push.Errors.{Error, plain, wrapped, Result, ok, err}
use push_dispatch.Push.Types.{Target, Message, BatchResult}
use push_dispatch.Push.Payload.{validate_message}
use push_dispatch.Push.Store.Operations.{unregistered_installation_refs}
use push_dispatch.Scheduler.Job.{Job, shard_count}
use push_dispatch.Scheduler.Schedule.{Schedule, Environment, new_job}
use push_dispatch.Scheduler.Worker.{Services}
use push_dispatch.Scheduler.Tick.{JobStore, Report, tick}

-- What `encode` prints.
pub data Output : Type 0 where
  scheduled : String → Time → ℕ → Output
  counts : ℕ → ℕ → Output
  ticked : ℕ → Report → Output

-- The flags of a command, and the number of its other arguments.
pub record Flags : Type 0 where
  pub project : String
  pub app_id : String
  pub shard : ℤ
  pub limit : ℤ
  pub user : String
  pub id : String
  pub arguments : ℕ

-- What the parsing of flags answers.
pub data Parsed : Type 0 where
  parsed : Flags → Parsed
  help_shown : Parsed
  rejected : Error → Parsed

-- The parsing of flags, `readJSON` and `encode`, the connections to Google's services, the store of schedules, the server,
-- the variables of Cloud Run and `strconv.Atoi`.
pub record Host (W : Type 0) : Type 0 where
  pub parse : String → List String → Parsed
  pub print_help : W → Option Error × W
  pub connect : String → W → Option Error × W
  pub connect_sender : String → W → Option Error × W
  pub serve : W → Option Error × W
  pub encode : Output → W → Option Error × W
  pub read_schedule : W → Result Schedule × W
  pub read_send : W → Result (String × Message) × W
  pub put : Job → W → Option Error × W
  pub cancel : String → String → Time → W → Option Error × W
  pub task_index : String
  pub task_count : String
  pub atoi : String → Option ℤ

-- `pathID`.
abbrev pub path_id : Environment → String → Bool
path_id environment v =
    not (str_eq v "")
    && leb (len v) 128
    && not (str_eq v ".")
    && not (str_eq v "..")
    && str_eq (environment.library.trim_space v) v
    && not (environment.contains_separator v)

-- `shardRange`: the first and the last shard, and the step between shards.
abbrev pub task_range : Option ℤ → Option ℤ → Result (ℕ × ℕ × ℕ)
task_range (some (pos i)) (some (pos n)) =
    if ltb n 1 || ltb shard_count n || leb n i
    then err (plain "invalid Cloud Run task partition")
    else ok (i, shard_count - 1, n)
task_range _ _ = err (plain "invalid Cloud Run task partition")

unfoldable pub shard_range : (String → Option ℤ) → ℤ → String → String → Result (ℕ × ℕ × ℕ)
shard_range atoi (pos explicit) index count = ok (explicit, explicit, 1)
shard_range atoi (negsuc m) index count =
    if str_eq index "" && str_eq count ""
    then ok (0, shard_count - 1, 1)
    else task_range (atoi index) (atoi count)

-- The loop over the shards, `n := first; n <= last; n += stride`, which ends at the first error; the
-- fuel bounds its rounds.
unfoldable pub for_shards :
    {W : Type 0} → (ℕ → W → Option Error × W) → ℕ → ℕ → ℕ → ℕ → W → Option Error × W
for_shards visit zero n last stride w = (none, w)
for_shards visit (suc fuel) n last stride w =
    let (e, w₁) = visit n w in
    let rest = for_shards visit fuel (n + stride) last stride w₁ in
    if ltb last n then (none, w) else elim e [ some e ↦ (some e, w₁) | none ↦ rest ]

-- The checks of `run` on the command and its flags.
abbrev pub is_command : String → Bool
is_command c =
    str_eq c "serve"
    || str_eq c "tick"
    || str_eq c "schedule"
    || str_eq c "cancel"
    || str_eq c "send"

abbrev pub bad_options : ℤ → ℤ → Bool
bad_options (negsuc m) (pos limit) = ltb 0 m || ltb limit 1 || ltb 1000 limit
bad_options (pos shard) (pos limit) = leb shard_count shard || ltb limit 1 || ltb 1000 limit
bad_options shard (negsuc m) = true

unfoldable pub check_flags : Environment → Flags → Option Error
check_flags environment flags =
    if not (flags.arguments == 0)
    then some (plain "unexpected arguments")
    else if str_eq flags.project "" || not (path_id environment flags.app_id)
    then some (plain "--project and a path-safe --app are required")
    else if bad_options flags.shard flags.limit
    then some (plain "invalid shard or limit")
    else none

abbrev pub unfinished : BatchResult → Option Error → Option Error → Bool
unfinished result sent cleaned = is_some sent || is_some cleaned || ltb 0 result.failure_count

module _ {W : Type 0} (host : Host W) (environment : Environment) (services : Services W)
    (store : JobStore W) where
  -- The command `schedule`.
  abbrev pub put_job : Job → W → Option Error × W
  put_job job w =
      let (e, w₁) = host.put job w in
      let printed = host.encode (scheduled job.id job.due_at job.shard) w₁ in
      elim e [ some e ↦ (some e, w₁) | none ↦ printed ]

  abbrev pub schedule_input : Result Schedule → W → Option Error × W
  schedule_input (err e) w = (some e, w)
  schedule_input (ok input) w =
      let (t, w₁) = services.now w in
      elim (new_job environment input t) [ err e ↦ (some e, w₁) | ok job ↦ put_job job w₁ ]

  unfoldable pub run_schedule : W → Option Error × W
  run_schedule w = let (input, w₁) = host.read_schedule w in schedule_input input w₁

  -- The command `cancel`.
  unfoldable pub run_cancel : Flags → W → Option Error × W
  run_cancel flags w =
      let (t, w₁) = services.now w in
      let canceled = host.cancel flags.user flags.id t w₁ in
      if not (path_id environment flags.user) || not (path_id environment flags.id)
      then (some (plain "--user and --id are required"), w)
      else canceled

  -- The end of the command `send`, after its output.
  abbrev pub send_status :
      Option Error × W → BatchResult → Option Error → Option Error → Option Error × W
  send_status (some e, w) result sent cleaned = (some e, w)
  send_status (none, w) result sent cleaned =
      if unfinished result sent cleaned
      then (some (plain "delivery incomplete; inspect counts"), w)
      else (none, w)

  -- The command `send`, from the end of its input on.
  unfoldable pub send_targets : Message → List Target → W → Option Error × W
  send_targets message targets w =
      let ((result, sent), w₁) = services.send message targets w in
      let (t, w₂) = services.now w₁ in
      let (cleaned, w₃) =
        services.disable_installations (unregistered_installation_refs result) t w₂ in
      let printed = host.encode (counts result.success_count result.failure_count) w₃ in
      send_status printed result sent cleaned

  abbrev pub send_found : Message → Result (List Target) × W → Option Error × W
  send_found message (err e, w) = (some e, w)
  send_found message (ok targets, w) = send_targets message targets w

  unfoldable pub send_message : String → Message → W → Option Error × W
  send_message recipient message w =
      let (t, w₁) = services.now w in
      let sent = send_found message (services.active_targets recipient t w₁) in
      if not (path_id environment recipient)
      then (some (plain "recipientId is required"), w)
      else elim (validate_message environment.library message) [
        | some e ↦ (some e, w)
        | none ↦ sent
      ]

  abbrev pub send_input : Result (String × Message) × W → Option Error × W
  send_input (err e, w) = (some e, w)
  send_input (ok (recipient, message), w) = send_message recipient message w

  unfoldable pub run_send : W → Option Error × W
  run_send w = send_input (host.read_send w)

  -- The command `tick`: one shard, and the loop.
  unfoldable pub tick_shard : ℤ → ℕ → W → Option Error × W
  tick_shard limit n w =
      let ((report, failed), w₁) = tick services store true (pos 0) (pos 0) (pos n) limit w in
      let (e, w₂) = host.encode (ticked n report) w₁ in
      elim e [ some e ↦ (some e, w₂) | none ↦ (failed, w₂) ]

  abbrev pub tick_range : ℤ → Result (ℕ × ℕ × ℕ) → W → Option Error × W
  tick_range limit (err e) w = (some e, w)
  tick_range limit (ok (first, last, stride)) w =
      for_shards (tick_shard limit) shard_count first last stride w

  unfoldable pub run_tick : Flags → W → Option Error × W
  run_tick flags w =
      tick_range flags.limit (shard_range host.atoi flags.shard host.task_index host.task_count) w

  -- `run` from its checks of the flags on. The services stand for the dispatcher and the store of
  -- devices; `NewDispatcher` does not fail for a sender.
  unfoldable pub run_sender : String → Flags → W → Option Error × W
  run_sender command flags w =
      let (e, w₁) = host.connect_sender flags.project w in
      let sent = run_send w₁ in
      let done = run_tick flags w₁ in
      elim e [ some e ↦ (some e, w₁) | none ↦ if str_eq command "send" then sent else done ]

  unfoldable pub run_connected : String → Flags → W → Option Error × W
  run_connected command flags w =
      let scheduled = run_schedule w in
      let canceled = run_cancel flags w in
      let served = host.serve w in
      let sent = run_sender command flags w in
      if str_eq command "schedule"
      then scheduled
      else if str_eq command "cancel"
      then canceled
      else if str_eq command "serve"
      then served
      else sent

  unfoldable pub run_flags : String → Flags → W → Option Error × W
  run_flags command flags w =
      let (e, w₁) = host.connect flags.project w in
      let done = run_connected command flags w₁ in
      elim (check_flags environment flags) [
        | some e ↦ (some e, w)
        | none ↦ elim e [ some e ↦ (some e, w₁) | none ↦ done ]
      ]

  abbrev pub run_parsed : String → Parsed → W → Option Error × W
  run_parsed command (parsed flags) w = run_flags command flags w
  run_parsed command help_shown w = (none, w)
  run_parsed command (rejected e) w = (some e, w)

  -- `run`.
  unfoldable pub run : List String → W → Option Error × W
  run [] w = host.print_help w
  run (command ∷ arguments) w =
      let done = run_parsed command (host.parse command arguments) w in
      if str_eq command "help" || str_eq command "--help" || str_eq command "-h"
      then host.print_help w
      else if not (is_command command)
      then (some (plain "unknown command; use --help"), w)
      else done
