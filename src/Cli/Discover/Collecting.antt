-- ===== src/Cli/Discover/Collecting.antt =====
-- What the loop over the events of cli/src/main.rs collects.
use brewmble.Prelude.{
  eq_text_iff, List, Text, [], ◌∷◌, ◌++◌, ok, some, ◌≡◌, refl, arith, ℕ, lit, ◌+◌, ◌||◌,
}
use brewmble.Prelude.Sets.{
  member, set_insert, occurrences, member-append, occurrences-append, to_count,
}
use brewmble.Cli.Discover.Listening.{hear, replay, listen-replay}
use brewmble.Cli.Discover.{
  ResolvedService, ServiceEvent, service_resolved, search_stopped, other, Round, listen, Targets,
  no_targets, add_addresses, on_target, target_of, discover_targets_with_timeout,
}

abbrev pub addresses_of : List (Text × Text) → List Text
addresses_of [] = []
addresses_of ((a, name) ∷ ts) = a ∷ addresses_of ts

-- The targets that were collected are those that were seen, each once.
pub record IsCollected (t : Targets) : Type 0 where
  pub once : (a : Text) → occurrences a (addresses_of t.targets) ≡ to_count (member a t.seen)

addresses_of-append :
    (ts us : List (Text × Text)) → addresses_of (ts ++ us) ≡ addresses_of ts ++ addresses_of us
addresses_of-append [] us = refl
addresses_of-append ((a, n) ∷ ts) us = rw (addresses_of-append ts us) refl

add_addresses-IsCollected :
    (info : ResolvedService) (addrs : List Text) (t : Targets)
    → IsCollected t
    → IsCollected (add_addresses info addrs t)
unfolding add_addresses set_insert member occurrences
add_addresses-IsCollected info [] t h = h
add_addresses-IsCollected info (addr ∷ addrs) t h = add_addresses-IsCollected info addrs _ (record {
  once = λ a. grind (arith, h.once a, addresses_of-append, occurrences-append, eq_text_iff);
})

-- The targets of a service, and whether a target is one of those that were announced.
abbrev pub targets_of_service : ResolvedService → List Text → List Text
targets_of_service info [] = []
targets_of_service info (addr ∷ addrs) = target_of info addr ∷ targets_of_service info addrs

abbrev pub announced : List ServiceEvent → List Text
announced [] = []
announced (service_resolved info ∷ es) = targets_of_service info info.addresses ++ announced es
announced (search_stopped s ∷ es) = announced es
announced (other ∷ es) = announced es

add_addresses-seen :
    (info : ResolvedService) (addrs : List Text) (t : Targets) (a : Text)
    → member a (add_addresses info addrs t).seen
      ≡ (member a (targets_of_service info addrs) || member a t.seen)
unfolding add_addresses set_insert member
add_addresses-seen info [] t a = refl
add_addresses-seen info (addr ∷ addrs) t a =
    grind (arith, add_addresses-seen info addrs, eq_text_iff)

replay-seen :
    (es : List ServiceEvent) (a : Text)
    → member a (replay on_target es no_targets).seen ≡ member a (announced es)
unfolding on_target member
replay-seen [] a = refl
replay-seen (service_resolved info ∷ es) a =
    rw
      (
        add_addresses-seen info info.addresses (replay on_target es no_targets) a,
        replay-seen es a,
        member-append a (targets_of_service info info.addresses) (announced es),
      )
      refl
replay-seen (search_stopped s ∷ es) a = replay-seen es a
replay-seen (other ∷ es) a = replay-seen es a

replay-IsCollected : (es : List ServiceEvent) → IsCollected (replay on_target es no_targets)
unfolding on_target occurrences member
replay-IsCollected [] = record { once = λ a. refl }
replay-IsCollected (service_resolved info ∷ es) =
    add_addresses-IsCollected info info.addresses _ (replay-IsCollected es)
replay-IsCollected (search_stopped s ∷ es) = replay-IsCollected es
replay-IsCollected (other ∷ es) = replay-IsCollected es

-- If the loop hears some events until its deadline and the channel stays open, the search for
-- targets succeeds, and it gives each address that they announce once, and no other.
pub discover_targets_once :
    (receive : ℕ → ℕ → Round) (disconnection : Text) (fuel now wait : ℕ) (heard : List ServiceEvent)
    (t : ℕ)
    → listen receive (now + wait) hear (lit "mDNS error: " ++ disconnection) fuel 0 now []
      ≡ some (ok heard, t)
    → (ts : List (Text × Text)) × (discover_targets_with_timeout
          (ok tt)
          receive
          disconnection
          fuel
          now
          wait
        ≡ some (ok ts, t))
      × ((a : Text) → occurrences a (addresses_of ts) ≡ to_count (member a (announced heard)))
unfolding discover_targets_with_timeout
discover_targets_once receive disconnection fuel now wait heard t h =
    let run =
      listen-replay receive (now + wait) on_target (lit "mDNS error: " ++ disconnection) fuel 0 now
        no_targets [] heard t h in
    (
      (replay on_target heard no_targets).targets,
      rw run refl,
      λ a. rw (← replay-seen heard a) ((replay-IsCollected heard).once a),
    )
