-- ===== src/Supervisor/Monad.antt =====
-- The actor's computations: they may fail, and what they did until then stays done. The platform is
-- an argument, `Deps`: each of its answers may depend on all that was done before.
pub mod After
use voya_vpn.Base.{ℕ, Bool, true, false, List, ◌∷◌, Option, none, some}
use voya_vpn.Platform.Tun.{TargetOs, TunBackend}
use voya_vpn.Platform.Process.{ProcessHandle, ProcessSpawn, ProcessOutput}
use voya_vpn.Supervisor.State.{
  SupervisorError, NativeTunStartRequest, NativeTunExitEvent, RunningCore,
}

pub data Result {ℓ} (A : Type ℓ) : Type ℓ where
  ok : A → Result A
  err : SupervisorError → Result A

-- What the actor asks of the platform.
pub data Action : Type 0 where
  cleaned_tun created_job : Action
  spawned : ProcessSpawn → Action
  assigned : ProcessHandle → Action
  ran_oneshot : ProcessSpawn → Action
  stopped : ProcessHandle → Action
  started_native : NativeTunStartRequest → Action
  stopped_native : TunBackend → Action
  -- The watcher of the native tunnel, for a generation.
  watched : ℕ → TunBackend → Action
  emitted : NativeTunExitEvent → Action

-- The answers, given the actions so far, the latest first. `create_job` answers whether there is a
-- job.
pub record SupervisorDeps : Type 0 where
  pub target_os : TargetOs
  pub is_granted : List Action → Bool
  pub cleanup_before_start : List Action → Bool
  pub create_job : List Action → Option Bool
  pub spawn : List Action → ProcessSpawn → Option ProcessHandle
  pub assign : List Action → ProcessHandle → Bool
  pub run_oneshot : List Action → ProcessSpawn → Option ProcessOutput
  pub stop : List Action → ProcessHandle → Bool
  pub start_native : List Action → NativeTunStartRequest → Bool
  pub stop_native : List Action → TunBackend → Bool

pub record Actor : Type 0 where
  pub running : RunningCore
  pub native_tun_generation : ℕ
  pub log : List Action

abbrev pub M {ℓ} : Type ℓ → Type ℓ
M A = Actor → Result A × Actor

abbrev pub continue {ℓ κ} :
    {A : Type ℓ} {B : Type κ} → Result A → Actor → (A → M B) → Result B × Actor
continue (ok a) actor f = f a actor
continue (err e) actor f = (err e, actor)

infixl 5 ◌>>=◌ ◌>>◌
unfoldable pub ◌>>=◌ {ℓ κ} : {A : Type ℓ} {B : Type κ} → M A → (A → M B) → M B
◌>>=◌ m f actor = continue (m actor).0 (m actor).1 f

abbrev pub ◌>>◌ {ℓ} : {B : Type ℓ} → M (Unit {0}) → M B → M B
m >> k = m >>= λ _. k

unfoldable pub return {ℓ} : {A : Type ℓ} → A → M A
return a actor = (ok a, actor)

unfoldable pub fail {ℓ} : {A : Type ℓ} → SupervisorError → M A
fail e actor = (err e, actor)

-- The result as a value.
unfoldable pub attempt {ℓ} : {A : Type ℓ} → M A → M (Result A)
attempt m actor = (ok (m actor).0, (m actor).1)

unfoldable pub of_option {ℓ} : {A : Type ℓ} → Option A → SupervisorError → M A
of_option none e actor = (err e, actor)
of_option (some a) e actor = (ok a, actor)

unfoldable pub check : Bool → SupervisorError → M (Unit {0})
check true e actor = (ok tt, actor)
check false e actor = (err e, actor)

unfoldable pub when : Bool → M (Unit {0}) → M (Unit {0})
when true m actor = m actor
when false m actor = (ok tt, actor)

unfoldable pub get_running : M RunningCore
get_running actor = (ok actor.running, actor)

unfoldable pub put_running : RunningCore → M (Unit {0})
put_running running actor = (ok tt, record actor { running = running })

-- Records the action and hands on what the platform answers to it.
unfoldable pub ask {ℓ} : {A : Type ℓ} → (List Action → A) → Action → M A
ask answer action actor = (ok (answer actor.log), record actor { log = action ∷ actor.log })
