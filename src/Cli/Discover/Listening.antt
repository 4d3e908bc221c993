-- ===== src/Cli/Discover/Listening.antt =====
-- The end of the loop that listens for services in cli/src/main.rs.
use brewmble.Prelude.{
  ℕ, zero, suc, ◌+◌, ◌-◌, ◌≤◌, ◌<◌, leb, Text, Option, some, Result, ok, err, ◌≡◌, refl, arith,
  Bool-cases, inl, inr, ◌⊎◌, List, [], ◌∷◌, subst,
}
use brewmble.Cli.Discover.{ServiceEvent, Round, Received, event, timed_out, disconnected, listen}

-- The loop has ended, and no later than a time.
abbrev pub EndsBy : {A : Type 0} → ℕ → Option (Result Text A × ℕ) → Type 0
EndsBy {A} latest o = (r : Result Text A) × (t : ℕ) × (o ≡ some (r, t)) × (t ≤ latest)

Received-cases :
    (r : Received) → ((e : ServiceEvent) × (r ≡ event e)) ⊎ (r ≡ timed_out) ⊎ (r ≡ disconnected)
Received-cases (event e) = inl (e, refl)
Received-cases timed_out = inr (inl refl)
Received-cases disconnected = inr (inr refl)

module _ {A : Type 0} (receive : ℕ → ℕ → Round) (deadline slack : ℕ)
    (on_event : ServiceEvent → A → A) (disconnection : Text) where
  -- If each round takes some time, and no round takes longer than it may wait and a slack, the loop
  -- ends within as many rounds as there is time, and no later than the deadline and the slack.
  pub listen_ends :
      ((call remaining : ℕ) → 1 ≤ (receive call remaining).took)
      → ((call remaining : ℕ) → (receive call remaining).took ≤ remaining + slack)
      → (fuel call now : ℕ) (a : A) → now ≤ deadline + slack
      → deadline - now < fuel
      → EndsBy (deadline + slack) (listen receive deadline on_event disconnection fuel call now a)
  unfolding listen
  listen_ends progress bounded zero call now a h k = absurd (omega arith)
  listen_ends progress bounded (suc fuel) call now a h k = elim (Bool-cases (leb deadline now)) [
    | inl e ↦ rw (e, listen) (ok a, now, refl, h)
    | inr e ↦
        let before : now < deadline = ground arith in
        let within = bounded call (deadline - now) in
        let onward = progress call (deadline - now) in
        elim (Received-cases (receive call (deadline - now)).received) [
          | inl (ev, q) ↦
              rw (e, q, listen)
                (listen_ends progress bounded fuel (suc call)
                  (now + (receive call (deadline - now)).took) (on_event ev a) (omega arith)
                  (omega arith))
          | inr (inl q) ↦
              rw (e, q, listen)
                (ok a, now + (receive call (deadline - now)).took, refl, omega arith)
          | inr (inr q) ↦
              rw (e, q, listen)
                (err disconnection, now + (receive call (deadline - now)).took, refl, omega arith)
        ]
  ]

-- The events that were heard, the newest first, and a run over them.
abbrev pub hear : ServiceEvent → List ServiceEvent → List ServiceEvent
hear e es = e ∷ es

module _ {A : Type 0} (on_event : ServiceEvent → A → A) where
  abbrev pub replay : List ServiceEvent → A → A
  replay [] a = a
  replay (e ∷ es) a = on_event e (replay es a)

module _ {A : Type 0} (receive : ℕ → ℕ → Round) (deadline : ℕ) (on_event : ServiceEvent → A → A)
    (disconnection : Text) where
  -- A loop does with the events what its step does with them in their order, whatever it collects.
  pub listen-replay :
      (fuel call now : ℕ) (a : A) (es heard : List ServiceEvent) (t : ℕ)
      → listen receive deadline hear disconnection fuel call now es ≡ some (ok heard, t)
      → listen receive deadline on_event disconnection fuel call now (replay on_event es a)
        ≡ some (ok (replay on_event heard a), t)
  unfolding listen
  listen-replay zero call now a es heard t h = ground arith
  listen-replay (suc fuel) call now a es heard t h = elim (Bool-cases (leb deadline now)) [
    | inl e ↦ ground arith
    | inr e ↦ elim (Received-cases (receive call (deadline - now)).received) [
      | inl (ev, q) ↦
          rw (e, q, listen)
            (listen-replay fuel (suc call) (now + (receive call (deadline - now)).took) a (ev ∷ es)
              heard t (rw (e, q, listen) at h))
      | inr (inl q) ↦ ground arith
      | inr (inr q) ↦ ground arith
    ]
  ]

  -- What each event keeps, the loop keeps.
  pub listen_keeps :
      (P : A → Type 0)
      → ((e : ServiceEvent) (a : A) → P a → P (on_event e a))
      → (fuel call now : ℕ) (a : A) → P a
      → (b : A) (t : ℕ)
      → listen receive deadline on_event disconnection fuel call now a ≡ some (ok b, t)
      → P b
  unfolding listen
  listen_keeps P keep zero call now a h b t e = absurd (ground arith)
  listen_keeps P keep (suc fuel) call now a h b t e = elim (Bool-cases (leb deadline now)) [
    | inl d ↦ subst P (ground arith) h
    | inr d ↦ elim (Received-cases (receive call (deadline - now)).received) [
      | inl (ev, q) ↦
          listen_keeps P keep fuel (suc call) (now + (receive call (deadline - now)).took)
            (on_event ev a) (keep ev a h) b t (rw (d, q, listen) at e)
      | inr (inl q) ↦ subst P (ground arith) h
      | inr (inr q) ↦ absurd (ground arith)
    ]
  ]
