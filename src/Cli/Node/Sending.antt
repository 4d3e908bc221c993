-- ===== src/Cli/Node/Sending.antt =====
-- How `run_node` of cli/src/main.rs sends one request and reads what it is answered. The JSON of a
-- request and of a response, and what the HTTP client gives, are parameters.
use brewmble.Prelude.{ℕ, Option, Result, Text, [], err, lit, none, ok, some, ◌++◌}
use brewmble.Rest.{RebootRequest, RebootResponse, UpgradeRequest, UpgradeResponse}
use brewmble.Cli.Node.{Request, Answer, reboot, upgrade}

-- A response: its status as it is shown, and its body.
pub record Response : Type 0 where
  pub status : Text
  pub body : Text

-- `post` sends a body to a URL; what it gives depends on how many requests were sent before.
pub record HttpClient : Type 0 where
  pub write_reboot : RebootRequest → Text
  pub write_upgrade : UpgradeRequest → Text
  pub read_reboot : Text → Option RebootResponse
  pub read_upgrade : Text → Option UpgradeResponse
  pub post : ℕ → Text → Text → Result Text Response

abbrev or_unknown_reboot : Option RebootResponse → RebootResponse
or_unknown_reboot (some r) = r
or_unknown_reboot none = record { message = lit "Unknown response" }

abbrev or_unknown_upgrade : Option UpgradeResponse → UpgradeResponse
or_unknown_upgrade (some r) = r
or_unknown_upgrade none = record { message = lit "Unknown response"; updates = none }

abbrev pub error_answer : Text → Answer
error_answer e = record { status = lit "Error: " ++ e; message = []; updates = none }

abbrev pub reboot_answer : Text → RebootResponse → Answer
reboot_answer status rr = record { status = status; message = rr.message; updates = none }

abbrev pub upgrade_answer : Text → UpgradeResponse → Answer
upgrade_answer status ur = record { status = status; message = ur.message; updates = ur.updates }

module _ (client : HttpClient) where
  abbrev pub rebooted : Result Text Response → Answer
  rebooted (err e) = error_answer e
  rebooted (ok resp) = reboot_answer resp.status (or_unknown_reboot (client.read_reboot resp.body))

  abbrev pub upgraded : Result Text Response → Answer
  upgraded (err e) = error_answer e
  upgraded (ok resp) =
      upgrade_answer resp.status (or_unknown_upgrade (client.read_upgrade resp.body))

  unfoldable pub send_request : ℕ → Text → Request → Answer
  send_request k url reboot =
      rebooted (client.post k url (client.write_reboot (record { delay_secs = none })))
  send_request k url (upgrade dry_run) =
      upgraded (client.post k url (client.write_upgrade (record { dry_run = dry_run })))
