-- ===== src/Cli/Status/Workers/Fairness.antt =====
-- The end of the workers of `run_status` in cli/src/main.rs.
use brewmble.Prelude.{
  ℕ, zero, suc, ◌+◌, ◌*◌, ◌≤◌, ◌<◌, List, [], ◌∷◌, Text, length, ◌≡◌, refl, arith, ◌⊎◌, inl, inr,
}
use brewmble.Prelude.Sets.{set_insert}
use brewmble.Cli.Status.{StatusReport}
use brewmble.Cli.Status.Targets.{Target}
use brewmble.Cli.Status.Workers.{
  Pool, start_pool, receive_target, begin_task, end_task, Step, receive, begin, finish, Run, here,
  next, IsDone,
}
use brewmble.Cli.Status.Workers.Schedules.{length-middle}

-- The steps that are left at most: a target is received, its task begins, and ends.
abbrev pub steps_left : Pool → ℕ
steps_left p = 3 * length p.incoming + 2 * length p.spawned + length p.running

module _ (query : Text → StatusReport) where
  Step-steps_left : {p q : Pool} → Step query p q → steps_left q < steps_left p
  unfolding receive_target begin_task end_task set_insert
  Step-steps_left {p} (receive t rest e) = ground arith
  Step-steps_left {p} (begin t before after e) = grind (arith, length-middle t before after)
  Step-steps_left {p} (finish t before after e) = grind (arith, length-middle t before after)

  -- No schedule has more than three steps for each target.
  pub Run-bounded :
      (p : Pool) (n : ℕ) (q : Pool) → Run query p n q → n + steps_left q ≤ steps_left p
  Run-bounded p n q here = omega arith
  Run-bounded p n q (next run step) = omega (arith, Run-bounded p _ _ run, Step-steps_left step)

  -- A pool has ended, or a step can be taken.
  step_cases : (p : Pool) → IsDone p ⊎ ((q : Pool) × Step query p q)
  step_cases p = go p.incoming refl p.spawned refl p.running refl
    where
      go :
          (incoming : List Target)
          → p.incoming ≡ incoming
          → (spawned : List Target) → p.spawned ≡ spawned
          → (running : List Target) → p.running ≡ running
          → IsDone p ⊎ ((q : Pool) × Step query p q)
      go (t ∷ ts) e ss f rs g = inr (_, receive t ts e)
      go [] e (t ∷ ts) f rs g = inr (_, begin t [] ts f)
      go [] e [] f (t ∷ ts) g = inr (_, finish t [] ts g)
      go [] e [] f [] g = inl (record { no_incoming = e; no_spawned = f; no_running = g })

  prepend_step :
      {p q : Pool} {n : ℕ} {r : Pool} → Step query p q → Run query q n r → Run query p (suc n) r
  prepend_step step here = next here step
  prepend_step step (next run last) = next (prepend_step step run) last

  ends_within :
      (fuel : ℕ) (p : Pool)
      → steps_left p ≤ fuel
      → (n : ℕ) × (q : Pool) × Run query p n q × IsDone q
  ends_within zero p h = elim (step_cases p) [
    | inl done ↦ (0, p, here, done)
    | inr (q, step) ↦ absurd (omega (arith, Step-steps_left step))
  ]
  ends_within (suc fuel) p h = elim (step_cases p) [
    | inl done ↦ (0, p, here, done)
    | inr (q, step) ↦
        let (n, r, run, done) = ends_within fuel q (omega (arith, Step-steps_left step)) in
        (suc n, r, prepend_step step run, done)
  ]

  -- After any steps the loop and all tasks can still end, and no schedule has more than three steps
  -- for each target that is sent: none goes on for ever or comes to a stop before the end.
  pub pool_ends :
      (sent : List Target) (n : ℕ) (p : Pool)
      → Run query (start_pool sent) n p
      → (m : ℕ) × (q : Pool) × Run query p m q × IsDone q × (n + m ≤ 3 * length sent)
  pool_ends sent n p run =
      let (m, q, more, done) = ends_within (steps_left p) p (omega arith) in
      (
        m,
        q,
        more,
        done,
        omega (arith, Run-bounded (start_pool sent) n p run, Run-bounded p m q more),
      )
