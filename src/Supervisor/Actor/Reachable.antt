-- ===== src/Supervisor/Actor/Reachable.antt =====
-- The states that the actor reaches from its creation.
use voya_vpn.Base.{refl, inl}
use voya_vpn.Supervisor.Monad.{SupervisorDeps, Actor}
use voya_vpn.Supervisor.Forms.{IsValid}
use voya_vpn.Supervisor.Actor.{SupervisorCommand, handle, new_actor}
use voya_vpn.Supervisor.Actor.Invariant.{handle-IsValid}

-- A step takes one command from the channel; meanwhile the platform may do anything that shows only
-- in its answers.
pub data Reachable (deps : SupervisorDeps) : Actor → Type 0 where
  created : Reachable deps new_actor
  handled :
      (command : SupervisorCommand) (actor : Actor)
      → Reachable deps actor
      → Reachable deps (handle deps command actor).1

-- Whatever commands arrive, and whatever the platform answers, a reachable actor tracks nothing, or
-- tracks one core for one request: as processes, or as a native tunnel of the present generation.
pub Reachable-IsValid :
    (deps : SupervisorDeps) (actor : Actor) → Reachable deps actor → IsValid actor
Reachable-IsValid deps _ created = inl refl
Reachable-IsValid deps _ (handled command actor r) =
    handle-IsValid deps command actor (Reachable-IsValid deps actor r)
