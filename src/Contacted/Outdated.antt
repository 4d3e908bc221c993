-- ===== src/Contacted/Outdated.antt =====
-- What brewmble status makes of a daemon: `query_status` of cli/src/main.rs, and the router and
-- `status_handler` of daemon/src/main.rs.
use brewmble.Prelude.{
  Bool, List, Option, Text, [], arith, false, is_empty, lit, ok, refl, some, true, ℕ, ◌++◌, ◌∷◌,
  ◌≡◌, ◌↔◌, none, Bool-cases, Result-cases, inl, inr, ◌⊎◌,
}
use brewmble.Rest.{StatusResponse, path_status, StatusCode}
use brewmble.Daemon.Manager.{PackageManager}
use brewmble.Daemon.Handlers.{
  AppState, Node, not_a_system, status_message, status_response, status_handler,
}
use brewmble.Daemon.Serving.{Codec, Reply, Router, code_number, get_method, replied, respond}
use brewmble.Daemon.Serving.Routing.{IsRouter, respond_status}
use brewmble.Cli.Status.{Sent, StatusReport, answered, query_status, report_error, report_sent}

module _ (P : PackageManager) (codec : Codec) (app_at : Text → AppState) (node_at : Text → Node P)
    (router : (address : Text) → Router P codec (app_at address)) (status_text : ℕ → Text)
    (resolve_url : Text → Text) where
  -- What the client makes of a reply to a request for the status.
  module _ (success : ℕ → Bool) (read_status : Text → Option StatusResponse)
      (read_json : Text → Option (Option Text)) (get : Text → Sent) where
    abbrev received : Reply → Sent
    received r = answered (record {
      status = status_text r.code;
      success = success r.code;
      status_response = read_status r.body;
      json = read_json r.body;
    })

    -- A request for the status is answered by the daemon at the address.
    abbrev pub Queries : Text → Type 0
    Queries address =
        get (resolve_url address ++ path_status)
        ≡ received
            (respond P codec (app_at address) (router address) get_method path_status []
              (node_at address)).0

    -- The codes 200, 412 and 500 are told apart, and a status that was written is read again.
    pub record IsStatusWire : Type 0 where
      pub success_ok : success 200 ≡ true
      pub precondition_failed : success 412 ≡ false
      pub internal_error : success 500 ≡ false
      pub status_response : (r : StatusResponse) → read_status (codec.write_status r) ≡ some r

    -- What is reported of the answer that `status_handler` gives.
    abbrev pub reported : AppState → Node P → StatusReport
    reported app n =
        report_sent (received (replied P codec app codec.write_status (status_handler P app n)).0)

    -- A node whose search for updates finds some.
    abbrev pub HasUpdates : AppState → Node P → Type 0
    HasUpdates app n =
        (app.pm_available ≡ true)
        × (updates : List Text) × ((P.get_updates n.manager).0 ≡ ok updates)
        × (is_empty updates ≡ false)

    abbrev report_of_reply : StatusCode → StatusResponse → StatusReport
    report_of_reply code sr =
        report_sent (received (record { code = code_number code; body = codec.write_status sr }))

    report_error-neither :
        (status : Text) (json : Option (Option Text))
        → ((report_error status json).is_failed ≡ false)
          × ((report_error status json).outdated ≡ false)
    report_error-neither status none = (refl, refl)
    report_error-neither status (some json) = (refl, refl)

    refused-neither :
        (code : StatusCode) (sr : StatusResponse)
        → success (code_number code) ≡ false
        → ((report_of_reply code sr).is_failed ≡ false)
          × ((report_of_reply code sr).outdated ≡ false)
    refused-neither code sr h =
        rw h (
          report_error-neither (status_text (code_number code)) (read_json (codec.write_status sr)))

    reported-cases :
        (app : AppState) (n : Node P)
        → IsStatusWire
        → ((reported app n).is_failed ≡ false)
          × ((((reported app n).outdated ≡ true) × HasUpdates app n)
              ⊎ (((reported app n).outdated ≡ false) × (HasUpdates app n → ⊥)))
    unfolding status_handler
    reported-cases app n wire = elim (Bool-cases app.pm_available) [
      | inl available ↦ elim (Result-cases (P.get_updates n.manager).0) [
        | inl ([], e) ↦
            let sr = status_response P app n (status_message P []) [] in
            rw (available, e, wire.success_ok, wire.status_response sr)
              (refl, inr (refl, λ (h, us, f, g). absurd (ground arith)))
        | inl (u ∷ us, e) ↦
            let sr = status_response P app n (status_message P (u ∷ us)) (u ∷ us) in
            rw (available, e, wire.success_ok, wire.status_response sr)
              (refl, inl (refl, (refl, u ∷ us, refl, refl)))
        | inr (x, e) ↦
            let sr = status_response P app n (lit "Failed to check for updates: " ++ x) [] in
            let (up, outdated) =
              refused-neither StatusCode.internal_server_error sr wire.internal_error in
            rw (available, e) (up, inr (outdated, λ (h, us, f, g). ground arith))
      ]
      | inr missing ↦
          let (up, outdated) =
            refused-neither StatusCode.precondition_failed
              (status_response P app n (not_a_system P) []) wire.precondition_failed in
          rw missing (up, inr (outdated, λ (h, us, f, g). ground arith))
    ]

    settled : (b : Bool) (Q : Type 0) → ((b ≡ true) × Q) ⊎ ((b ≡ false) × (Q → ⊥)) → (b ≡ true ↔ Q)
    settled b Q (inl (h, q)) = (λ e. q, λ e. h)
    settled b Q (inr (h, refuted)) = (λ e. absurd (ground arith), λ q. absurd (refuted q))

    reported-outdated :
        (app : AppState) (n : Node P)
        → IsStatusWire
        → ((reported app n).is_failed ≡ false)
          × ((reported app n).outdated ≡ true ↔ HasUpdates app n)
    reported-outdated app n wire =
        let (up, r) = reported-cases app n wire in
        (up, settled (reported app n).outdated (HasUpdates app n) r)

    -- If the request for the status reaches the daemon, its route is found and a status that was
    -- written is read again, then brewmble status does not take the node for failed, and takes it
    -- for outdated exactly if the daemon has its package manager and its search for updates
    -- succeeds and finds some.
    pub query_status_outdated :
        (address : Text)
        → IsStatusWire
        → IsRouter P codec (app_at address) (router address)
        → Queries address
        → ((query_status resolve_url get address).is_failed ≡ false)
          × ((query_status resolve_url get address).outdated ≡ true
              ↔ ((app_at address).pm_available ≡ true)
                × (updates : List Text) × ((P.get_updates (node_at address).manager).0 ≡ ok updates)
                × (is_empty updates ≡ false))
    unfolding query_status
    query_status_outdated address wire routed queried =
        rw
          (
            queried,
            respond_status P codec (app_at address) (router address) [] (node_at address) routed,
          )
          (reported-outdated (app_at address) (node_at address) wire)
