-- ===== src/Supervisor/Actor/Invariant.antt =====
-- The invariant of the actor: nothing is tracked, or one core runs for one request.
use voya_vpn.Base.{ℕ, ◌≡◌, inl, inr, Option, none, some, Bool-cases, Text, ◌==◌, ◌∙◌}
use voya_vpn.Supervisor.State.{
  SupervisorStartRequest, SupervisorSnapshot, RunningCore, RunningNativeTun, empty, disconnected,
  contains_pid,
}
use voya_vpn.Supervisor.Monad.{
  Result, ok, err, SupervisorDeps, Actor, ◌>>=◌, return, attempt, ask, put_running, get_running,
  continue,
}
use voya_vpn.Supervisor.Monad.After.{After, Same}
use voya_vpn.Supervisor.Forms.{RunsFor, Started, IsValid}
use voya_vpn.Supervisor.Stop.{stop}
use voya_vpn.Supervisor.Stop.Laws.{stop_running-Keeps, stop-cases}
use voya_vpn.Supervisor.Start.{start}
use voya_vpn.Supervisor.Start.Laws.{Failed, start_lem}
use voya_vpn.Supervisor.Actor.Laws.{restart-start}
use voya_vpn.Supervisor.Actor.{
  on_crash, start_again, tracked_exited, process_exited, native_tun_ended, native_tun_matched,
  native_tun_exited, SupervisorCommand, start_command, restart_command, stop_command,
  status_command, process_exited_command, native_tun_exited_command, handle,
}

RunsFor-Same :
    (request : SupervisorStartRequest) (s t : Actor)
    → Same s t
    → RunsFor request s
    → RunsFor request t
RunsFor-Same request s t (e, g) r = record {
  last = rw e r.last;
  profile = rw e r.profile;
  core_type = rw e r.core_type;
  form = rw (e, g) r.form;
}

IsValid-Same : (s t : Actor) → Same s t → IsValid s → IsValid t
IsValid-Same s t (e, g) (inl idle) = inl (e ∙ idle)
IsValid-Same s t same (inr (request, r)) = inr (request, RunsFor-Same request s t same r)

module _ (deps : SupervisorDeps) where
  stop-IsValid : (actor : Actor) → IsValid actor → IsValid (stop deps actor).1
  stop-IsValid actor v = elim (stop-cases deps actor).0 [
    | inl (done, idle) ↦ inl idle
    | inr (e, failed, same) ↦ IsValid-Same actor _ (same, (stop-cases deps actor).1) v
  ]

  start-IsValid :
      (request : SupervisorStartRequest) (actor : Actor)
      → IsValid actor
      → IsValid (start deps request actor).1
  start-IsValid request actor v =
      by_result (start deps request actor).0 (start deps request actor).1
        (start_lem deps request actor)
    where
      by_result :
          (r : Result SupervisorSnapshot) (t : Actor)
          → After
              (λ s t. ((stop deps actor).0 ≡ ok disconnected) × Started request s t)
              (Failed deps request actor)
              r
              t
          → IsValid t
      by_result (ok s) t (done, (shown, runs)) = inr (request, runs)
      by_result (err e) t (inl (done, idle)) = inl idle
      by_result (err e) t (inr (failed, same)) = IsValid-Same actor t same v

  start_again-IsValid :
      (last : Option SupervisorStartRequest) (actor : Actor)
      → IsValid actor
      → IsValid (start_again deps last actor).1
  unfolding start_again
  start_again-IsValid none actor v = unfold return in v
  start_again-IsValid (some request) actor v = start-IsValid request actor v

  tracked_exited-IsValid :
      (running : RunningCore) (actor : Actor)
      → IsValid actor
      → IsValid (tracked_exited deps running actor).1
  unfolding tracked_exited ◌>>=◌
  tracked_exited-IsValid running actor v = elim (stop-cases deps actor).0 [
    | inl (done, idle) ↦
        rw done (start_again-IsValid (on_crash deps running.last_request) _ (inl idle))
    | inr (e, failed, same) ↦ rw failed (IsValid-Same actor _ (same, (stop-cases deps actor).1) v)
  ]

  process_exited-IsValid :
      (process_id : ℕ) (actor : Actor)
      → IsValid actor
      → IsValid (process_exited deps process_id actor).1
  unfolding process_exited ◌>>=◌ get_running
  process_exited-IsValid process_id actor v =
      elim (Bool-cases (contains_pid actor.running process_id)) [
        | inl tracked ↦ rw tracked (tracked_exited-IsValid actor.running actor v)
        | inr other ↦ rw other (unfold return in v)
      ]

  native_tun_matched-IsValid :
      (tun : Option RunningNativeTun) (generation : ℕ) (message : Text) (actor : Actor)
      → IsValid actor
      → IsValid (native_tun_matched deps actor.running tun generation message actor).1
  unfolding native_tun_matched
  native_tun_matched-IsValid none generation message actor v = unfold return in v
  native_tun_matched-IsValid (some tun) generation message actor v =
      elim (Bool-cases (tun.generation == generation)) [
        | inl current ↦ rw current (
            unfold native_tun_ended ◌>>=◌ put_running attempt ask in
            (inl ((stop_running-Keeps deps actor.running).at (record actor { running = empty })).0))
        | inr stale ↦ rw stale (unfold return in v)
      ]

  native_tun_exited-IsValid :
      (generation : ℕ) (message : Text) (actor : Actor)
      → IsValid actor
      → IsValid (native_tun_exited deps generation message actor).1
  unfolding native_tun_exited ◌>>=◌ get_running
  native_tun_exited-IsValid generation message actor v =
      native_tun_matched-IsValid actor.running.native_tun generation message actor v

  -- Every command keeps the invariant, whatever the platform answers: nothing is tracked, or one core
  -- is, for one request. A tracked core is either a main process, with a process in front only where
  -- the request asks for one, no native tunnel, and no elevated process but these two; or a native
  -- tunnel of the present generation, and no process.
  pub handle-IsValid :
      (command : SupervisorCommand) (actor : Actor)
      → IsValid actor
      → IsValid (handle deps command actor).1
  unfolding handle ◌>>=◌ attempt return
  handle-IsValid (start_command request) actor v = start-IsValid request actor v
  handle-IsValid (restart_command request) actor v =
      rw (restart-start deps request actor) (start-IsValid request actor v)
  handle-IsValid stop_command actor v = stop-IsValid actor v
  handle-IsValid status_command actor v = v
  handle-IsValid (process_exited_command process_id) actor v =
      process_exited-IsValid process_id actor v
  handle-IsValid (native_tun_exited_command generation message) actor v =
      by_result (native_tun_exited deps generation message actor).0
        (native_tun_exited deps generation message actor).1
        (native_tun_exited-IsValid generation message actor v)
    where
      by_result :
          (r : Result (Unit {0})) (t : Actor)
          → IsValid t
          → IsValid (continue {B = Option (Result SupervisorSnapshot)} r t (λ _. return none)).1
      by_result (ok a) t w = unfold return in w
      by_result (err e) t w = w
