-- ===== src/Contacted.antt =====
-- A command of the CLI and the daemons that it is sent to: `run_node` of cli/src/main.rs, and the
-- router and the handlers of daemon/src/main.rs. The network carries what is sent, and JSON that
-- was written is read again.
pub mod Outdated
use brewmble.Prelude.{
  List, Text, [], ok, some, ℕ, ◌++◌, ◌∷◌, ◌≡◌, none, eq_text, if◌then◌else◌, suc,
}
use brewmble.Rest.{RebootRequest, RebootResponse, UpgradeRequest, UpgradeResponse}
use brewmble.Daemon.Manager.{PackageManager}
use brewmble.Daemon.Handlers.{AppState, Node, full_upgrade_handler, reboot_handler}
use brewmble.Daemon.Serving.{Codec, Reply, Router, code_number, post_method, respond}
use brewmble.Cli.Config.{Config, NodeConfig}
use brewmble.Cli.Session.{Session}
use brewmble.Cli.Node.{Answer, Request, answer_rows, reboot, upgrade}
use brewmble.Cli.Node.Sending.{HttpClient, Response, reboot_answer, upgrade_answer}

-- What was written on one side is read on the other.
pub record IsWire (codec : Codec) (client : HttpClient) : Type 0 where
  pub upgrade_request : (r : UpgradeRequest) → codec.read_upgrade (client.write_upgrade r) ≡ ok r
  pub reboot_request : (r : RebootRequest) → codec.read_reboot (client.write_reboot r) ≡ ok r
  pub upgrade_response :
      (r : UpgradeResponse) → client.read_upgrade (codec.write_upgrade r) ≡ some r
  pub reboot_response : (r : RebootResponse) → client.read_reboot (codec.write_reboot r) ≡ some r

-- Each address has a daemon. Before the request of the command that has this number, what else
-- happens to the daemon at an address is given by `between`.
module _ (P : PackageManager) (codec : Codec) (app_at : Text → AppState)
    (between : ℕ → Text → Node P → Node P)
    (router : (address : Text) → Router P codec (app_at address)) (status_text : ℕ → Text)
    (resolve_url : Text → Text) where
  abbrev shown : Reply → Response
  shown r = record { status = status_text r.code; body = r.body }

  -- What the daemon's handler answers in a state, without the way between, and the state after it.
  unfoldable pub handled : Request → Text → Node P → Answer × Node P
  handled reboot address node =
      let ((code, r), n) = reboot_handler P (app_at address) (record { delay_secs = none }) node in
      (reboot_answer (status_text (code_number code)) r, n)
  handled (upgrade dry_run) address node =
      let ((code, r), n) =
        full_upgrade_handler P (app_at address) (record { dry_run = dry_run }) node in
      (upgrade_answer (status_text (code_number code)) r, n)

  -- The daemons' states, and those after the daemon at an address has changed.
  abbrev updated : (Text → Node P) → Text → Node P → Text → Node P
  updated nodes address node other = if eq_text address other then node else nodes other

  abbrev pub after_request : Request → ℕ → Text → (Text → Node P) → Text → Node P
  after_request r k address nodes =
      updated nodes address (handled r address (between k address (nodes address))).1

  -- The rows for the answers: each daemon has the state that the requests before have left.
  unfoldable pub handled_rows : Request → List NodeConfig → ℕ → (Text → Node P) → List Text
  handled_rows r [] k nodes = []
  handled_rows r (n ∷ ns) k nodes =
      answer_rows n (handled r n.address (between k n.address (nodes n.address))).0
      ++ handled_rows r ns (suc k) (after_request r k n.address nodes)

  module _ (client : HttpClient) where
    -- The request with this number, to an address whose daemon has this state, is answered by it.
    abbrev pub Reaches : ℕ → Text → Node P → Type 0
    Reaches k address node =
        (path body : Text)
        → client.post k (resolve_url address ++ path) body
          ≡ ok (
              shown
                (respond P codec (app_at address) (router address) post_method path body node).0)

    -- So is each request of a command.
    abbrev pub AllReached : Request → List NodeConfig → ℕ → (Text → Node P) → Type 0
    AllReached r [] k nodes = Unit
    AllReached r (n ∷ ns) k nodes =
        Reaches k n.address (between k n.address (nodes n.address))
        × AllReached r ns (suc k) (after_request r k n.address nodes)
