-- ===== src/Cli/Version/Checked.antt =====
-- What `run_version` of cli/src/main.rs sends, and what it saves.
use brewmble.Prelude.{
  append-nil, sym, if◌then◌else◌, ◌||◌, Bool, List, Result, Text, [], ◌∷◌, ◌++◌, append_assoc, err,
  ok, some, true, false, filter, is_ok, map, ◌≡◌, refl, arith,
}
use brewmble.Prelude.Dict.{get}
use brewmble.Cli.Config.{NodeConfig, ProfileConfig, Config}
use brewmble.Cli.Pin.{PinOutcome, learned, matched}
use brewmble.Cli.Pins.{record_outcome, validate_and_update_pins}
use brewmble.Cli.Session.{Session, save_config}
use brewmble.Cli.Status.{Sent}
use brewmble.Cli.Version.{checked, Round, url_of, version_rounds, start_round, run_version}

or_assoc : (a b c : Bool) → ((a || b) || c) ≡ (a || (b || c))
or_assoc true b c = refl
or_assoc false b c = refl

module _ (check : NodeConfig → Result Text PinOutcome) (resolve_url : Text → Text)
    (request : Text → Sent) where
  -- The addresses of the nodes whose check passes.
  abbrev pub passing : List NodeConfig → List Text
  passing nodes = map (url_of check resolve_url request) (filter (λ n. is_ok (check n)) nodes)

  checked-sent :
      (n : NodeConfig) (o : Result Text PinOutcome) (r : Round)
      → (checked check resolve_url request n o r).sent
        ≡ r.sent ++ (if is_ok o then url_of check resolve_url request n ∷ [] else [])
  checked-sent n (ok (learned fp)) r = refl
  checked-sent n (ok matched) r = refl
  checked-sent n (err e) r = sym (append-nil r.sent)

  filter_first :
      (n : NodeConfig) (ns : List NodeConfig)
      → passing (n ∷ ns)
        ≡ (if is_ok (check n) then url_of check resolve_url request n ∷ [] else []) ++ passing ns
  filter_first n ns = ground arith

  version_rounds-sent :
      (nodes : List NodeConfig) (r : Round)
      → (version_rounds check resolve_url request nodes r).sent ≡ r.sent ++ passing nodes
  unfolding version_rounds
  version_rounds-sent [] r = sym (append-nil r.sent)
  version_rounds-sent (n ∷ ns) r =
      rw
        (
          version_rounds-sent ns (checked check resolve_url request n (check n) r),
          checked-sent n (check n) r,
          filter_first n ns,
          append_assoc r.sent
              (if is_ok (check n) then url_of check resolve_url request n ∷ [] else [])
              (passing ns),
        )
        refl

  checked-pins :
      (n : NodeConfig) (o : Result Text PinOutcome) (r : Round)
      → ((checked check resolve_url request n o r).config ≡ (record_outcome check r.config n o).0)
        × ((checked check resolve_url request n o r).pin_updated
            ≡ (r.pin_updated || (record_outcome check r.config n o).1))
  checked-pins n (ok (learned fp)) r = ground arith
  checked-pins n (ok matched) r = ground arith
  checked-pins n (err e) r = ground arith

  -- The pins are those of `validate_and_update_pins`.
  version_rounds-pins :
      (nodes : List NodeConfig) (r : Round)
      → ((version_rounds check resolve_url request nodes r).config
          ≡ (validate_and_update_pins check r.config nodes).0)
        × ((version_rounds check resolve_url request nodes r).pin_updated
            ≡ (r.pin_updated || (validate_and_update_pins check r.config nodes).1))
  unfolding version_rounds validate_and_update_pins
  version_rounds-pins [] r = ground arith
  version_rounds-pins (n ∷ ns) r =
      let o = checked-pins n (check n) r in
      let ih = version_rounds-pins ns (checked check resolve_url request n (check n) r) in
      (
        rw (ih.0, o.0) refl,
        rw (ih.1, o.1, o.0)
            (or_assoc r.pin_updated (record_outcome check r.config n (check n)).1 _),
      )

  -- If the configuration can be saved and the client can be built, the command succeeds. It asks
  -- the nodes of the active profile whose pin check passes, in their order, and no other, and the
  -- configuration has the pins that `validate_and_update_pins` gives it, saved if one was learned.
  pub run_version_asks :
      (write : Config → Result Text (Unit {0})) (build_client : Result Text (Unit {0}))
      (version : Text) (s : Session) (p : ProfileConfig)
      → ((c : Config) → write c ≡ ok tt)
      → build_client ≡ ok tt
      → get s.config.active_profile s.config.profiles ≡ some p
      → let (pinned, updated) = validate_and_update_pins check s.config p.nodes in
        (out : Round) × (run_version check resolve_url request write build_client version s
          ≡ (ok out, record { config = pinned; saved = if updated then some pinned else s.saved }))
        × (out.sent ≡ passing p.nodes)
  unfolding run_version save_config
  run_version_asks write build_client version s p w b h =
      let begun = start_round check resolve_url request s.config version in
      let out = version_rounds check resolve_url request p.nodes begun in
      let pins = version_rounds-pins p.nodes begun in
      let saves = w out.config in (out, ground (arith, h, b), version_rounds-sent p.nodes begun)
