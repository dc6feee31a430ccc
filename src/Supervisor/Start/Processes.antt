-- ===== src/Supervisor/Start/Processes.antt =====
-- Starting a core as processes: what is tracked afterwards.
use voya_vpn.Base.{
  ◌≡◌, refl, inl, inr, Bool, true, false, List, [], ◌∷◌, ◌++◌, Option, none, some, Bool-cases, ◌∙◌,
}
use voya_vpn.Platform.Process.{ProcessHandle, ProcessRole}
use voya_vpn.Supervisor.State.{
  CoreProcessSpec, SupervisorStartRequest, SupervisorSnapshot, RunningCore, SupervisorError,
  process_uses_unix_sudo,
}
use voya_vpn.Supervisor.Monad.{
  Result, ok, err, SupervisorDeps, Actor, M, ◌>>=◌, return, fail, attempt, put_running, get_running,
}
use voya_vpn.Supervisor.Monad.After.{After, >>=-After, Keeps, attempt-Keeps, keeps_rules}
use voya_vpn.Supervisor.Forms.{IsIdle, Owned, IsProcesses, Started}
use voya_vpn.Supervisor.Stop.{spawn_process, stop_running}
use voya_vpn.Supervisor.Stop.Laws.{spawn_process-Keeps, stop_running-Keeps}
use voya_vpn.Supervisor.Start.{
  cleanup_partial_start, assign_job, with_pre, commit, pre_assigned, pre_spawned, start_pre,
  main_assigned, cleanup_before_start, create_job, main_only, start_processes,
}

-- A partial start, before it is committed.
record IsPartial (request : SupervisorStartRequest) (r : RunningCore) : Type 0 where
  last : r.last_request ≡ some request
  profile : r.active_profile_id ≡ request.active_profile_id
  form : IsProcesses request r

-- A step that keeps the state, where nothing is tracked.
pub IsIdle-step {ℓ} :
    {A : Type ℓ} (m : M A) (actor : Actor)
    → Keeps m
    → IsIdle actor
    → After (λ a s. IsIdle s) (λ e s. IsIdle s) (m actor).0 (m actor).1
IsIdle-step {A} m actor k h = by_result (m actor).0 (m actor).1 ((k.at actor).0 ∙ h)
  where
    by_result :
        (r : Result A) (s : Actor) → IsIdle s → After (λ a t. IsIdle t) (λ e t. IsIdle t) r s
    by_result (ok a) s i = i
    by_result (err e) s i = i

-- A start ends with the core running for the request, or with an error and nothing tracked.
abbrev pub Ends : SupervisorStartRequest → Result SupervisorSnapshot × Actor → Type 0
Ends request (r, s) = After (Started request) (λ e t. IsIdle t) r s

module _ (deps : SupervisorDeps) (request : SupervisorStartRequest) where
  cleanup-Ends :
      (running : RunningCore) (e : SupervisorError) (actor : Actor)
      → IsIdle actor
      → Ends request (cleanup_partial_start deps running e actor)
  unfolding cleanup_partial_start
  cleanup-Ends running e actor h =
      >>=-After (λ u s. IsIdle s) (Started request) (λ e t. IsIdle t) (stop_running deps running) _
        actor (IsIdle-step (stop_running deps running) actor (stop_running-Keeps deps running) h)
        λ u s i. (unfold fail in i)

  assign_job-Keeps : (job : Bool) (handle : ProcessHandle) → Keeps (assign_job deps job handle)
  unfolding assign_job
  assign_job-Keeps false handle = search keeps_rules
  assign_job-Keeps true handle = search keeps_rules

  commit-Ends :
      (partial : RunningCore) (actor : Actor)
      → IsPartial request partial
      → Ends request (commit deps request partial actor)
  unfolding commit ◌>>=◌ put_running get_running return
  commit-Ends partial actor p = (
    refl,
    record {
      last = p.last;
      profile = p.profile;
      core_type = refl;
      form = inl (record {
        main = p.form.main;
        has_main = p.form.has_main;
        no_tun = p.form.no_tun;
        owned = p.form.owned;
        asked = p.form.asked;
      });
    },
  )

  pre_assigned-Ends :
      (partial : RunningCore) (r : Result (Unit {0})) (actor : Actor)
      → IsPartial request partial
      → IsIdle actor
      → Ends request (pre_assigned deps request partial r actor)
  unfolding pre_assigned
  pre_assigned-Ends partial (ok u) actor p h = commit-Ends partial actor p
  pre_assigned-Ends partial (err e) actor p h = cleanup-Ends partial e actor h

  Owned-append :
      (main pre : ProcessHandle) (handles : List ProcessHandle)
      → Owned main none handles
      → Owned main (some pre) (handles ++ (pre ∷ []))
  Owned-append main pre [] o = (inr refl, tt)
  Owned-append main pre (handle ∷ handles) (inl e, o) = (inl e, Owned-append main pre handles o)
  Owned-append main pre (handle ∷ handles) (inr e, o) = cc

  Owned-more :
      (main pre : ProcessHandle) (handles : List ProcessHandle)
      → Owned main none handles
      → Owned main (some pre) handles
  Owned-more main pre [] o = tt
  Owned-more main pre (handle ∷ handles) (inl e, o) = (inl e, Owned-more main pre handles o)
  Owned-more main pre (handle ∷ handles) (inr e, o) = cc

  -- The partial start before a process in front is there.
  record IsMainOnly (partial : RunningCore) : Type 0 where
    last : partial.last_request ≡ some request
    profile : partial.active_profile_id ≡ request.active_profile_id
    main : ProcessHandle
    has_main : partial.main ≡ some main
    no_tun : partial.native_tun ≡ none
    no_pre : partial.pre ≡ none
    owned : Owned main none partial.elevated

  with_pre-IsPartial :
      (spec : CoreProcessSpec) (partial : RunningCore) (pre : ProcessHandle)
      → request.pre ≡ some spec
      → IsMainOnly partial
      → IsPartial request (with_pre deps request spec partial pre)
  with_pre-IsPartial spec partial pre e p = record {
    last = p.last;
    profile = p.profile;
    form = record {
      main = p.main;
      has_main = p.has_main;
      no_tun = p.no_tun;
      owned = elim (Bool-cases (process_uses_unix_sudo deps.target_os spec request.tun_enabled)) [
        | inl sudo ↦ rw sudo (Owned-append p.main pre partial.elevated p.owned)
        | inr plain ↦ rw plain (Owned-more p.main pre partial.elevated p.owned)
      ];
      asked = λ handle h. (spec, e);
    };
  }

  pre_spawned-Ends :
      (spec : CoreProcessSpec) (partial : RunningCore) (r : Result ProcessHandle) (actor : Actor)
      → request.pre ≡ some spec
      → IsMainOnly partial
      → IsIdle actor
      → Ends request (pre_spawned deps request spec partial r actor)
  unfolding pre_spawned
  pre_spawned-Ends spec partial (err x) actor e p h = cleanup-Ends partial x actor h
  pre_spawned-Ends spec partial (ok pre) actor e p h =
      >>=-After (λ u s. IsIdle s) (Started request) (λ e t. IsIdle t)
        (assign_job deps partial.job pre) _ actor
        (IsIdle-step (assign_job deps partial.job pre) actor (assign_job-Keeps partial.job pre) h)
        λ r s i.
          pre_assigned-Ends (with_pre deps request spec partial pre) r s
            (with_pre-IsPartial spec partial pre e p) i

  start_pre-Ends :
      (pre : Option CoreProcessSpec) (partial : RunningCore) (actor : Actor)
      → request.pre ≡ pre
      → IsMainOnly partial
      → IsIdle actor
      → Ends request (start_pre deps request pre partial actor)
  unfolding start_pre
  start_pre-Ends none partial actor e p h = commit-Ends partial actor (record {
    last = p.last;
    profile = p.profile;
    form = record {
      main = p.main;
      has_main = p.has_main;
      no_tun = p.no_tun;
      owned = rw p.no_pre p.owned;
      asked = λ handle x. absurd (cc (p.no_pre, x));
    };
  })
  start_pre-Ends (some spec) partial actor e p h =
      >>=-After (λ u s. IsIdle s) (Started request) (λ e t. IsIdle t)
        (attempt (spawn_process deps ProcessRole.pre spec request)) _ actor
        (IsIdle-step (attempt (spawn_process deps ProcessRole.pre spec request)) actor
          (attempt-Keeps _ (spawn_process-Keeps deps ProcessRole.pre spec request)) h)
        λ r s i. pre_spawned-Ends spec partial r s e p i

  main_assigned-Ends :
      (partial : RunningCore) (r : Result (Unit {0})) (actor : Actor)
      → IsMainOnly partial
      → IsIdle actor
      → Ends request (main_assigned deps request partial r actor)
  unfolding main_assigned
  main_assigned-Ends partial (ok u) actor p h = start_pre-Ends request.pre partial actor refl p h
  main_assigned-Ends partial (err e) actor p h = cleanup-Ends partial e actor h

  -- One step that keeps the state, on the way to the end of a start.
  pub idle_bind {ℓ} :
      {A : Type ℓ} (m : M A) (f : A → M SupervisorSnapshot) (actor : Actor)
      → Keeps m
      → IsIdle actor
      → ((a : A) (s : Actor) → IsIdle s → Ends request (f a s))
      → Ends request ((m >>= f) actor)
  idle_bind m f actor k h next =
      >>=-After (λ a s. IsIdle s) (Started request) (λ e t. IsIdle t) m f actor
        (IsIdle-step m actor k h) next

  main_only-IsMainOnly :
      (job : Bool) (main : ProcessHandle) → IsMainOnly (main_only deps request job main)
  main_only-IsMainOnly job main = record {
    last = refl;
    profile = refl;
    main = main;
    has_main = refl;
    no_tun = refl;
    no_pre = refl;
    owned =
        elim (Bool-cases (process_uses_unix_sudo deps.target_os request.main request.tun_enabled)) [
          | inl sudo ↦ rw sudo (inl refl, tt)
          | inr plain ↦ rw plain tt
        ];
  }

  cleanup_before_start-Keeps : Keeps (cleanup_before_start deps request.tun_enabled)
  unfolding cleanup_before_start
  cleanup_before_start-Keeps = search keeps_rules

  create_job-Keeps : Keeps (create_job deps)
  unfolding create_job
  create_job-Keeps = search keeps_rules

  pub start_processes-Ends :
      (actor : Actor) → IsIdle actor → Ends request (start_processes deps request actor)
  unfolding start_processes
  start_processes-Ends actor h =
      idle_bind (cleanup_before_start deps request.tun_enabled) _ actor cleanup_before_start-Keeps h
        λ u s i. idle_bind (create_job deps) _ s create_job-Keeps i λ job s' i'.
          idle_bind (spawn_process deps ProcessRole.main request.main request) _ s'
            (spawn_process-Keeps deps ProcessRole.main request.main request) i'
            λ main t j.
              idle_bind (assign_job deps job main) _ t (assign_job-Keeps job main) j λ result t' j'.
                main_assigned-Ends (main_only deps request job main) result t'
                  (main_only-IsMainOnly job main) j'
