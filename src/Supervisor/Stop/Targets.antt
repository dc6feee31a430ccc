-- ===== src/Supervisor/Stop/Targets.antt =====
-- Stopping a tracked core never meets an elevated process that it does not know.
use voya_vpn.Base.{
  ℕ, zero, suc, ◌≡◌, ◌≢◌, Bool, true, false, List, [], ◌∷◌, Option, none, some, subst, inl, inr,
  Bool-cases,
}
use voya_vpn.Platform.Process.{ProcessHandle, ProcessSpawn, ProcessOutput}
use voya_vpn.Platform.Elevation.{Named, elevate_launcher_path}
use voya_vpn.Supervisor.State.{
  SupervisorStartRequest, SupervisorError, unknown_sudo_kill_target, elevation_not_granted,
  CoreProcessSpec, RunningCore, RunningNativeTun, CoreType, empty, sudo_kill_target,
}
use voya_vpn.Supervisor.Monad.{
  Result, ok, err, SupervisorDeps, Actor, M, ◌>>=◌, return, fail, of_option, ask, Action,
  get_running, put_running, attempt,
}
use voya_vpn.Supervisor.Monad.After.{After, >>=-After}
use voya_vpn.Supervisor.Forms.{Owned, IsProcesses, IsValid, RunsFor-target}
use voya_vpn.Supervisor.Stop.{
  ensure_sudo_kill_success, of_named, elevation_launcher, sudo_kill_request, sudo_kill,
  stop_native_tun, stop_handle, kill_all, stop_running, after_stop, stop, finish, or_first,
}

abbrev IsKnown : SupervisorError → Type 0
IsKnown (unknown_sudo_kill_target pid) = ⊥
IsKnown _ = Unit

abbrev AreKnown : Option SupervisorError → Type 0
AreKnown none = Unit
AreKnown (some e) = IsKnown e

abbrev Any {ℓ} : {A : Type ℓ} → A → Type 0
Any a = Unit

-- The computation does not fail for an unknown process, and its results satisfy `Q`.
record Knows {ℓ} {A : Type ℓ} (Q : A → Type 0) (m : M A) : Type 0 where
  at : (actor : Actor) → After (λ a s. Q a) (λ e s. IsKnown e) (m actor).0 (m actor).1

>>=-Knows {ℓ κ} :
    {A : Type ℓ} {B : Type κ} (Q : A → Type 0) (Q' : B → Type 0) (m : M A) (f : A → M B)
    → Knows Q m
    → ((a : A) → Q a → Knows Q' (f a))
    → Knows Q' (m >>= f)
>>=-Knows Q Q' m f h k = record {
  at = λ actor.
      >>=-After (λ a s. Q a) (λ b s. Q' b) (λ e s. IsKnown e) m f actor (h.at actor)
        λ a s q. (k a q).at s;
}

return-Knows {ℓ} : {A : Type ℓ} (Q : A → Type 0) (a : A) → Q a → Knows Q (return a)
unfolding return
return-Knows Q a q = record { at = λ actor. q }

fail-Knows {ℓ} : {A : Type ℓ} (Q : A → Type 0) (e : SupervisorError) → IsKnown e → Knows Q (fail e)
unfolding fail
fail-Knows Q e known = record { at = λ actor. known }

ask-Knows {ℓ} :
    {A : Type ℓ} (answer : List Action → A) (action : Action) → Knows Any (ask answer action)
unfolding ask
ask-Knows answer action = record { at = λ actor. tt }

of_option-Knows {ℓ} :
    {A : Type ℓ} (o : Option A) (e : SupervisorError) → IsKnown e → Knows Any (of_option o e)
unfolding of_option
of_option-Knows none e known = record { at = λ actor. known }
of_option-Knows (some a) e known = record { at = λ actor. tt }

ensure_sudo_kill_success-Knows :
    (pid : ℕ) (output : ProcessOutput) (code : Option ℕ)
    → Knows Any (ensure_sudo_kill_success pid output code)
unfolding ensure_sudo_kill_success
ensure_sudo_kill_success-Knows pid output (some zero) = return-Knows Any tt tt
ensure_sudo_kill_success-Knows pid output (some (suc n)) = fail-Knows Any _ tt
ensure_sudo_kill_success-Knows pid output none = fail-Knows Any _ tt

of_named-Knows : (n : Named ProcessSpawn) → Knows Any (of_named n)
unfolding of_named
of_named-Knows (Named.ok spawn) = return-Knows Any spawn tt
of_named-Knows (Named.err e) = fail-Knows Any _ tt

finish-Knows : (o : Option SupervisorError) → AreKnown o → Knows Any (finish o)
finish-Knows none h = return-Knows Any tt tt
finish-Knows (some e) h = fail-Knows Any e h

or_first-known :
    (o : Option SupervisorError) (answer : Bool) (e : SupervisorError)
    → AreKnown o
    → IsKnown e
    → AreKnown (or_first o answer e)
or_first-known (some e') answer e h k = h
or_first-known none true e h k = tt
or_first-known none false e h k = k

module _ (deps : SupervisorDeps) where
  elevation_launcher-Knows : (core_type : CoreType) → Knows Any (elevation_launcher deps core_type)
  unfolding elevation_launcher
  elevation_launcher-Knows core_type = record {
    at = λ actor. elim (Bool-cases (deps.is_granted actor.log)) [
      | inl granted ↦ rw granted (
          (of_option-Knows (elevate_launcher_path deps.target_os) (elevation_not_granted core_type)
              tt).at
            actor)
      | inr refused ↦ rw refused ((fail-Knows Any (elevation_not_granted core_type) tt).at actor)
    ];
  }

  found-Knows :
      (o : Option CoreProcessSpec) (spec : CoreProcessSpec) (e : SupervisorError)
      → o ≡ some spec
      → Knows Any (of_option o e)
  unfolding of_option
  found-Knows o spec e found = record { at = λ actor. rw found tt }

  sudo_kill_request-Knows :
      (handle : ProcessHandle) (running : RunningCore) (request : SupervisorStartRequest)
      (spec : CoreProcessSpec)
      → sudo_kill_target running handle ≡ some spec
      → Knows Any (sudo_kill_request deps handle running request)
  unfolding sudo_kill_request
  sudo_kill_request-Knows handle running request spec found =
      >>=-Knows Any Any _ _ (found-Knows (sudo_kill_target running handle) spec _ found) λ target _.
        >>=-Knows Any Any _ _ (elevation_launcher-Knows target.core_type) λ launcher _.
          >>=-Knows Any Any _ _ (of_named-Knows _) λ spawn _.
            >>=-Knows Any Any _ _ (ask-Knows _ _) λ answer _.
              >>=-Knows Any Any _ _ (of_option-Knows answer _ tt)
                λ output _. ensure_sudo_kill_success-Knows handle.id output output.status_code

  module _ (request : SupervisorStartRequest) (running : RunningCore)
      (last : running.last_request ≡ some request) where
    kill_all-Knows :
        (p : IsProcesses request running) (handles : List ProcessHandle)
        → Owned p.main running.pre handles
        → Knows Any (kill_all deps running handles)
    unfolding kill_all sudo_kill
    kill_all-Knows p [] own = return-Knows Any tt tt
    kill_all-Knows p (handle ∷ handles) own =
        let (spec, found) = RunsFor-target request running p handle last own.0 in
        >>=-Knows Any Any _ _
          (rw (last, sudo_kill) (sudo_kill_request-Knows handle running request spec found))
          λ u _. kill_all-Knows p handles own.1

  stop_native_tun-Knows :
      (tun : Option RunningNativeTun) → Knows AreKnown (stop_native_tun deps tun)
  unfolding stop_native_tun
  stop_native_tun-Knows none = return-Knows AreKnown none tt
  stop_native_tun-Knows (some tun) =
      >>=-Knows Any AreKnown _ _ (ask-Knows _ _)
        λ answer _. return-Knows AreKnown _ (or_first-known none answer _ tt tt)

  stop_handle-Knows :
      (handle : Option ProcessHandle) (first : Option SupervisorError)
      → AreKnown first
      → Knows AreKnown (stop_handle deps handle first)
  unfolding stop_handle
  stop_handle-Knows none first h = return-Knows AreKnown first h
  stop_handle-Knows (some handle) first h =
      >>=-Knows Any AreKnown _ _ (ask-Knows _ _)
        λ answer _. return-Knows AreKnown _ (or_first-known first answer _ h tt)

  stop_running-Knows :
      (running : RunningCore)
      → Knows Any (kill_all deps running running.elevated)
      → Knows Any (stop_running deps running)
  unfolding stop_running
  stop_running-Knows running kills =
      >>=-Knows AreKnown Any _ _ (stop_native_tun-Knows running.native_tun) λ native_error known.
        >>=-Knows Any Any _ _ kills λ u _.
          >>=-Knows AreKnown Any _ _ (stop_handle-Knows running.main native_error known)
            λ main_error known'.
              >>=-Knows AreKnown Any _ _ (stop_handle-Knows running.pre main_error known')
                λ pre_error known''. finish-Knows pre_error known''

  no_kill-Knows :
      (running : RunningCore) (handles : List ProcessHandle)
      → handles ≡ []
      → Knows Any (kill_all deps running handles)
  unfolding kill_all
  no_kill-Knows running handles e = rw (e, kill_all) (return-Knows Any tt tt)

  kills-Knows :
      (actor : Actor)
      → IsValid actor
      → Knows Any (kill_all deps actor.running actor.running.elevated)
  kills-Knows actor (inl idle) = no_kill-Knows actor.running actor.running.elevated (rw idle)
  kills-Knows actor (inr (request, r)) = elim r.form [
    | inl p ↦ kill_all-Knows request actor.running r.last p actor.running.elevated p.owned
    | inr n ↦ no_kill-Knows actor.running actor.running.elevated n.none_elevated
  ]

  after_stop-Knows :
      (running : RunningCore) (r : Result (Unit {0})) (t : Actor)
      → After (λ u s. Any u) (λ e s. IsKnown e) r t
      → After
          (λ u s. Any u)
          (λ e s. IsKnown e)
          (after_stop deps running r t).0
          (after_stop deps running r t).1
  unfolding after_stop ◌>>=◌ put_running fail return
  after_stop-Knows running (ok u) t h = tt
  after_stop-Knows running (err e) t h = h

  stop-After :
      (actor : Actor)
      → IsValid actor
      → After (λ u s. Any u) (λ e s. IsKnown e) (stop deps actor).0 (stop deps actor).1
  unfolding stop ◌>>=◌ get_running put_running attempt
  stop-After actor v =
      let start = record actor { running = empty } in
      after_stop-Knows actor.running (stop_running deps actor.running start).0
        (stop_running deps actor.running start).1
        ((stop_running-Knows actor.running (kills-Knows actor v)).at start)

  -- A stop of an actor in a valid state never fails because an elevated process is not one of the
  -- tracked ones: every elevated process has a specification to be killed by.
  pub stop-known_target :
      (actor : Actor) (process_id : ℕ)
      → IsValid actor
      → (stop deps actor).0 ≢ err (unknown_sudo_kill_target process_id)
  stop-known_target actor process_id v e =
      subst (λ r. After (λ u s. Any u) (λ e s. IsKnown e) r (stop deps actor).1) e
        (stop-After actor v)
