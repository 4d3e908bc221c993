-- ===== src/Daemon/Serving/Routing.antt =====
-- What the server of daemon/src/main.rs answers to the requests that its routes are for.
use brewmble.Prelude.{All, Text, ok, refl, some, ◌≡◌}
use brewmble.Rest.{UpgradeRequest, RebootRequest, path_reboot, path_status, path_upgrade}
use brewmble.Daemon.Manager.{PackageManager}
use brewmble.Daemon.Handlers.{AppState, Node, status_handler, full_upgrade_handler, reboot_handler}
use brewmble.Daemon.Serving.{
  Codec, Route, Router, get_method, post_method, replied, respond, routes,
}

module _ (P : PackageManager) (codec : Codec) (app : AppState) (router : Router P codec app) where
  -- Each route is found by its method and its path.
  abbrev pub IsRouter : Type 0
  IsRouter =
      All (λ (r : Route P). router.find_route (routes P codec app) r.method r.path ≡ some r.handler)
        (routes P codec app)

  pub respond_status :
      (body : Text) (n : Node P)
      → IsRouter
      → respond P codec app router get_method path_status body n
        ≡ replied P codec app codec.write_status (status_handler P app n)
  unfolding respond routes
  respond_status body n h = rw (h.1.0) refl

  pub respond_upgrade :
      (body : Text) (payload : UpgradeRequest) (n : Node P)
      → IsRouter
      → codec.read_upgrade body ≡ ok payload
      → respond P codec app router post_method path_upgrade body n
        ≡ replied P codec app codec.write_upgrade (full_upgrade_handler P app payload n)
  unfolding respond routes
  respond_upgrade body payload n r h = rw (r.1.1.0, h) refl

  pub respond_reboot :
      (body : Text) (payload : RebootRequest) (n : Node P)
      → IsRouter
      → codec.read_reboot body ≡ ok payload
      → respond P codec app router post_method path_reboot body n
        ≡ replied P codec app codec.write_reboot (reboot_handler P app payload n)
  unfolding respond routes
  respond_reboot body payload n r h = rw (r.1.1.1.0, h) refl
