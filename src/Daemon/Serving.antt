-- ===== src/Daemon/Serving.antt =====
-- The router of `main` in daemon/src/main.rs. How axum finds the route of a request, what it
-- answers where there is none, its reading of a JSON body, which may be rejected, and its writing
-- of one are parameters. The layers for tracing and for the timeout are left out.
pub mod Routing
use brewmble.Prelude.{List, Option, Result, Text, [], err, none, ok, some, ℕ, ◌∷◌}
use brewmble.Rest.{
  StatusResponse, RebootRequest, RebootResponse, HealthResponse, UpgradeRequest, UpgradeResponse,
  StatusCode, path_health, path_status, path_upgrade, path_reboot,
}
use brewmble.Daemon.Manager.{PackageManager}
use brewmble.Daemon.Handlers.{
  AppState, Node, health_handler, status_handler, full_upgrade_handler, reboot_handler,
}

pub data Method : Type 0 where
  get_method post_method : Method

-- The numbers of the status codes.
abbrev pub code_number : StatusCode → ℕ
code_number StatusCode.ok = 200
code_number StatusCode.precondition_failed = 412
code_number StatusCode.internal_server_error = 500
code_number StatusCode.locked = 423
code_number StatusCode.forbidden = 403

-- A response as it is sent.
pub record Reply : Type 0 where
  pub code : ℕ
  pub body : Text

-- `Json` as an extractor and as a response.
pub record Codec : Type 0 where
  pub read_upgrade : Text → Result Reply UpgradeRequest
  pub read_reboot : Text → Result Reply RebootRequest
  pub write_health : HealthResponse → Text
  pub write_status : StatusResponse → Text
  pub write_upgrade : UpgradeResponse → Text
  pub write_reboot : RebootResponse → Text

module _ (P : PackageManager) where
  -- A handler with its extractors: it is given the body of the request.
  abbrev pub Handler : Type 0
  Handler = Text → Node P → Reply × Node P

  pub record Route : Type 0 where
    pub path : Text
    pub method : Method
    pub handler : Handler

  module _ (codec : Codec) (app : AppState) where
    abbrev pub replied : {A : Type 0} → (A → Text) → (StatusCode × A) × Node P → Reply × Node P
    replied encode ((code, a), n) = (record { code = code_number code; body = encode a }, n)

    abbrev pub extracted :
        {A : Type 0} → Result Reply A → (A → Node P → Reply × Node P) → Node P → Reply × Node P
    extracted (ok a) act n = act a n
    extracted (err rejection) act n = (rejection, n)

    unfoldable pub routes : List Route
    routes =
        record {
          path = path_health;
          method = get_method;
          handler =
              λ body n. replied codec.write_health ((StatusCode.ok, health_handler P app n), n);
        }
        ∷ record {
          path = path_status;
          method = get_method;
          handler = λ body n. replied codec.write_status (status_handler P app n);
        }
        ∷ record {
          path = path_upgrade;
          method = post_method;
          handler = λ body n.
              extracted (codec.read_upgrade body)
                (λ payload n'. replied codec.write_upgrade (full_upgrade_handler P app payload n'))
                n;
        }
        ∷ record {
          path = path_reboot;
          method = post_method;
          handler = λ body n.
              extracted (codec.read_reboot body)
                (λ payload n'. replied codec.write_reboot (reboot_handler P app payload n')) n;
        }
        ∷ []

    -- What finds the route of a request, and what is answered where there is none.
    pub record Router : Type 0 where
      pub find_route : List Route → Method → Text → Option Handler
      pub unrouted : Method → Text → Reply

    abbrev answer_with : Option Handler → Reply → Text → Node P → Reply × Node P
    answer_with none reply body n = (reply, n)
    answer_with (some handler) reply body n = handler body n

    unfoldable pub respond : Router → Method → Text → Text → Node P → Reply × Node P
    unfolding routes
    respond router method path body n =
        answer_with (router.find_route routes method path) (router.unrouted method path) body n
