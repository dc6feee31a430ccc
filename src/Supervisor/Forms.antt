-- ===== src/Supervisor/Forms.antt =====
-- What the actor tracks: nothing, a core as processes, or a core as a native tunnel.
use voya_vpn.Base.{
  ℕ, ◌≡◌, ◌⊎◌, List, [], ◌∷◌, Option, none, some, inl, inr, refl, ==_iff, Bool-cases,
}
use voya_vpn.Platform.Process.{ProcessHandle}
use voya_vpn.Supervisor.State.{
  CoreProcessSpec, SupervisorStartRequest, SupervisorSnapshot, RunningCore, RunningNativeTun, empty,
  snapshot, connected_state, request_core_type, sudo_kill_target, has_id,
}
use voya_vpn.Supervisor.Monad.{Actor}

-- Nothing is tracked.
abbrev pub IsIdle : Actor → Type 0
IsIdle actor = actor.running ≡ empty

-- An elevated process is the main one or the one in front.
abbrev pub Own : ProcessHandle → Option ProcessHandle → ProcessHandle → Type 0
Own main pre handle = (handle ≡ main) ⊎ (pre ≡ some handle)

abbrev pub Owned : ProcessHandle → Option ProcessHandle → List ProcessHandle → Type 0
Owned main pre [] = Unit
Owned main pre (handle ∷ handles) = Own main pre handle × Owned main pre handles

-- The core runs as processes: the main one, and one in front only if the request asks for it.
pub record IsProcesses (request : SupervisorStartRequest) (r : RunningCore) : Type 0 where
  pub main : ProcessHandle
  pub has_main : r.main ≡ some main
  pub no_tun : r.native_tun ≡ none
  pub owned : Owned main r.pre r.elevated
  pub asked :
      (handle : ProcessHandle)
      → r.pre ≡ some handle
      → (spec : CoreProcessSpec) × (request.pre ≡ some spec)

-- The core runs as a native tunnel, of the present generation.
pub record IsNative (generation : ℕ) (r : RunningCore) : Type 0 where
  pub tun : RunningNativeTun
  pub has_tun : r.native_tun ≡ some tun
  pub present : tun.generation ≡ generation
  pub no_main : r.main ≡ none
  pub no_pre : r.pre ≡ none
  pub none_elevated : r.elevated ≡ []

-- A core runs for the request.
pub record RunsFor (request : SupervisorStartRequest) (actor : Actor) : Type 0 where
  pub last : actor.running.last_request ≡ some request
  pub profile : actor.running.active_profile_id ≡ request.active_profile_id
  pub core_type : actor.running.running_core_type ≡ some (request_core_type request)
  pub form : IsProcesses request actor.running ⊎ IsNative actor.native_tun_generation actor.running

-- What a start leaves.
abbrev pub Started : SupervisorStartRequest → SupervisorSnapshot → Actor → Type 0
Started request s actor = (s ≡ snapshot actor.running) × RunsFor request actor

-- The invariant of the actor.
abbrev pub IsValid : Actor → Type 0
IsValid actor = IsIdle actor ⊎ ((request : SupervisorStartRequest) × RunsFor request actor)

-- The snapshot says connected exactly where a core is tracked.
pub RunsFor-connected :
    (request : SupervisorStartRequest) (actor : Actor)
    → RunsFor request actor
    → (snapshot actor.running).state ≡ connected_state
unfolding snapshot
RunsFor-connected request actor r = elim r.form [
  | inl p ↦ rw p.has_main
  | inr n ↦ rw (n.has_tun, n.no_main)
]

-- A kill finds the process that it should kill.
pub RunsFor-target :
    (request : SupervisorStartRequest) (r : RunningCore) (p : IsProcesses request r)
    (handle : ProcessHandle)
    → r.last_request ≡ some request
    → Own p.main r.pre handle
    → (spec : CoreProcessSpec) × (sudo_kill_target r handle ≡ some spec)
unfolding sudo_kill_target
RunsFor-target request r p handle last (inl e) =
    (request.main, rw (last, sudo_kill_target, p.has_main, e, (==_iff p.main.id p.main.id).1 refl))
RunsFor-target request r p handle last (inr e) = elim (Bool-cases (has_id r.main handle.id)) [
  | inl main ↦ (request.main, rw (last, sudo_kill_target, main))
  | inr other ↦
      let (spec, asked) = p.asked handle e in
      (spec, rw (last, sudo_kill_target, other, e, (==_iff handle.id handle.id).1 refl) asked)
]
