-- ===== src/Cli/Status.antt =====
-- `brewmble status` in cli/src/main.rs. Here: `query_status`, and what is printed for a node. What
-- the HTTP client gives for a request is a parameter.
pub mod Targets
pub mod Workers
pub mod Summary
pub mod Running
pub mod Reported
use brewmble.Prelude.{
  Bool, List, Option, Text, [], false, if◌then◌else◌, is_empty, lit, none, not, replace_newline,
  some, trim, true, ◌++◌, ◌∷◌,
}
use brewmble.Rest.{StatusResponse, path_status}

-- A response: its status as it is shown, whether it is a success, its body read as a
-- `StatusResponse`, and its body read as JSON and printed again.
pub record Response : Type 0 where
  pub status : Text
  pub success : Bool
  pub status_response : Option StatusResponse
  pub json : Option (Option Text)

-- The outcome of a request: an error of the client, or a response.
pub data Sent : Type 0 where
  failed : Text → Sent
  answered : Response → Sent

-- The tuple that `query_status` returns.
pub record StatusReport : Type 0 where
  pub status : Text
  pub message : Text
  pub details : Text
  pub is_failed : Bool
  pub outdated : Bool

abbrev pub display_bool : Bool → Text
display_bool true = lit "true"
display_bool false = lit "false"

abbrev version_line : Option Text → Text
version_line none = []
version_line (some version) = lit "Daemon version: " ++ (version ++ lit "\n")

abbrev update_lines : List Text → Text
update_lines [] = []
update_lines (u ∷ us) = lit "  - " ++ (u ++ (lit "\n" ++ update_lines us))

abbrev updates_text : List Text → Text
updates_text [] = lit "No updates available.\n"
updates_text (u ∷ us) = lit "Updates:\n" ++ update_lines (u ∷ us)

unfoldable pub status_details : StatusResponse → Text
status_details sr =
    version_line sr.daemon_version
    ++ (lit "Upgrading: "
        ++ (display_bool sr.is_upgrading
            ++ (lit "\nAllow reboot: "
                ++ (display_bool sr.allow_reboot
                    ++ (lit "\nAuto clean: "
                        ++ (display_bool sr.auto_clean
                            ++ (lit "\nAuto remove: "
                                ++ (display_bool sr.auto_remove
                                    ++ (lit "\n" ++ updates_text sr.updates)))))))))

abbrev pub report_success : Text → Option StatusResponse → StatusReport
report_success status none = record {
  status = status;
  message = lit "Could not parse StatusResponse";
  details = [];
  is_failed = false;
  outdated = false;
}
report_success status (some sr) = record {
  status = status;
  message = sr.message;
  details = status_details sr;
  is_failed = false;
  outdated = not (is_empty sr.updates);
}

abbrev pretty : Option Text → Text
pretty none = lit "Failed to pretty-print JSON"
pretty (some text) = text

abbrev pub report_error : Text → Option (Option Text) → StatusReport
report_error status none = record {
  status = status;
  message = lit "Could not parse response as JSON";
  details = [];
  is_failed = false;
  outdated = false;
}
report_error status (some json) = record {
  status = status;
  message = [];
  details = pretty json;
  is_failed = false;
  outdated = false;
}

abbrev pub report_sent : Sent → StatusReport
report_sent (failed e) = record {
  status = lit "Error: " ++ e;
  message = [];
  details = [];
  is_failed = true;
  outdated = false;
}
report_sent (answered r) =
    if r.success then report_success r.status r.status_response else report_error r.status r.json

unfoldable pub query_status : (Text → Text) → (Text → Sent) → Text → StatusReport
query_status resolve_url request target = report_sent (request (resolve_url target ++ path_status))

-- What is printed for a node, as one text.
abbrev line_if : Text → Text
line_if [] = []
line_if (c ∷ s) = (c ∷ s) ++ lit "\n"

abbrev details_if : Text → Text
details_if [] = []
details_if (c ∷ s) = lit "    " ++ (replace_newline (lit "\n    ") (trim (c ∷ s)) ++ lit "\n")

unfoldable pub node_output : Text → Text → StatusReport → Text
node_output name address r =
    lit "Node: "
    ++ (name
        ++ (lit "\nAddress: "
            ++ (address
                ++ (lit "\n"
                    ++ (line_if r.message
                        ++ (lit "Details:\n    Status: "
                            ++ (r.status ++ (lit "\n" ++ (details_if r.details ++ lit "\n")))))))))
