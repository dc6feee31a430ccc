-- ===== src/Supervisor/Actor/Laws.antt =====
-- The commands of the actor: the invariant, and what each command does.
use voya_vpn.Base.{
  ℕ, ◌≡◌, refl, ◌≢◌, ◌⊎◌, inl, inr, false, List, ◌∷◌, Option, none, some, ◌∙◌, sym, ap, subst, Text,
  ==_iff,
}
use voya_vpn.Supervisor.State.{
  SupervisorStartRequest, SupervisorSnapshot, RunningCore, RunningNativeTun, empty, snapshot,
  contains_pid, supervisor_tun_backend,
}
use voya_vpn.Supervisor.Monad.{
  Result, ok, SupervisorDeps, Actor, M, ◌>>=◌, return, attempt, ask, put_running, get_running,
  continue, emitted, Action,
}
use voya_vpn.Supervisor.Stop.{stop_running, stop}
use voya_vpn.Supervisor.Stop.Laws.{stop_running-Keeps, stop-cases, stop_idle}
use voya_vpn.Supervisor.Start.{start, start_with}
use voya_vpn.Supervisor.Actor.{
  restart, process_exited, native_tun_ended, native_tun_matched, native_tun_exited,
}

-- No tunnel is tracked, or one of another generation.
abbrev pub IsStale : ℕ → RunningCore → Type 0
IsStale generation running =
    (running.native_tun ≡ none)
    ⊎ ((tun : RunningNativeTun) × (running.native_tun ≡ some tun) × (tun.generation ≢ generation))

-- Nothing is tracked any more, and the last action is one event, with the profile and the backend that
-- ran.
abbrev pub Ended : RunningCore → RunningNativeTun → Text → Result (Unit {0}) × Actor → Type 0
Ended running tun message after =
    (after.0 ≡ ok tt)
    × (after.1.running ≡ empty)
    × ((earlier : List Action) × (after.1.log
          ≡ emitted (record {
            active_profile_id = running.active_profile_id;
            backend = tun.backend;
            message = message;
          })
            ∷ earlier))

module _ (deps : SupervisorDeps) where
  -- A restart is a start: the second of its two stops finds nothing to do, so the same actions are
  -- asked of the platform, and the results and the states are equal.
  pub restart-start :
      (request : SupervisorStartRequest) (actor : Actor)
      → restart deps request actor ≡ start deps request actor
  restart-start request actor = elim (stop-cases deps actor).0 [
    | inl (done, idle) ↦ rw (again actor) (
        ap (λ r. continue r (stop deps actor).1 (λ _. start deps request)) done
        ∙ (rw (first (stop deps actor).1, stop_idle deps (stop deps actor).1 idle)
            (sym (rw (first actor, done)))))
    | inr (e, failed, same) ↦ rw (again actor, first actor, failed)
  ]
    where
      after : SupervisorSnapshot → M SupervisorSnapshot
      after _ = start_with deps request (supervisor_tun_backend deps.target_os request.tun_enabled)

      first : (s : Actor) → start deps request s ≡ continue (stop deps s).0 (stop deps s).1 after
      first s = unfold start ◌>>=◌ in refl

      again :
          (s : Actor)
          → restart deps request s
            ≡ continue (stop deps s).0 (stop deps s).1 (λ _. start deps request)
      again s = unfold restart ◌>>=◌ in refl

  native_tun_ended_lem :
      (running : RunningCore) (tun : RunningNativeTun) (message : Text) (actor : Actor)
      → Ended running tun message (native_tun_ended deps running tun message actor)
  unfolding native_tun_ended ◌>>=◌ put_running attempt ask
  native_tun_ended_lem running tun message actor = (
    refl,
    ((stop_running-Keeps deps running).at (record actor { running = empty })).0,
    ((stop_running deps running (record actor { running = empty })).1.log, refl),
  )

  -- A report of the tracked tunnel's end, whether or not stopping it succeeds: nothing is tracked any
  -- more, and the last action is one event, with the profile and the backend that ran.
  pub native_tun_exited_current :
      (message : Text) (actor : Actor) (tun : RunningNativeTun)
      → actor.running.native_tun ≡ some tun
      → Ended actor.running tun message (native_tun_exited deps tun.generation message actor)
  native_tun_exited_current message actor tun e =
      subst (λ r. Ended actor.running tun message r)
        (sym (exited_lem actor ∙ ap (λ o. matched o) e ∙ ended))
        (native_tun_ended_lem actor.running tun message actor)
    where
      matched : Option RunningNativeTun → Result (Unit {0}) × Actor
      matched o = native_tun_matched deps actor.running o tun.generation message actor

      exited_lem :
          (a : Actor)
          → native_tun_exited deps tun.generation message a
            ≡ native_tun_matched deps a.running a.running.native_tun tun.generation message a
      exited_lem a = unfold native_tun_exited ◌>>=◌ get_running in refl

      ended : matched (some tun) ≡ native_tun_ended deps actor.running tun message actor
      ended = unfold native_tun_matched in (rw ((==_iff tun.generation tun.generation).1 refl))

  -- A report of a process that is not tracked changes nothing.
  pub process_exited_untracked :
      (process_id : ℕ) (actor : Actor)
      → contains_pid actor.running process_id ≡ false
      → process_exited deps process_id actor ≡ (ok (snapshot actor.running), actor)
  unfolding process_exited ◌>>=◌ get_running
  process_exited_untracked process_id actor e = rw e (unfold return in refl)
