-- ===== src/Cli/Status/Workers/Schedules.antt =====
-- All schedules of the workers of `run_status` in cli/src/main.rs.
use brewmble.Prelude.{
  ℕ, suc, ◌+◌, List, [], ◌∷◌, ◌++◌, Text, length, length-append, any, ◌||◌, eq_text, eq_text_iff,
  ◌≡◌, refl, arith,
}
use brewmble.Prelude.Sets.{member, set_insert, occurrences, occurrences-append, to_count}
use brewmble.Cli.Status.{StatusReport}
use brewmble.Cli.Status.Targets.{Target}
use brewmble.Cli.Status.Workers.{
  NodeReport, Pool, start_pool, receive_target, begin_task, end_task, report_of, Step, receive,
  begin, finish, Run, here, next, IsDone,
}

abbrev pub target_addresses : List Target → List Text
target_addresses [] = []
target_addresses ((a, n) ∷ ts) = a ∷ target_addresses ts

abbrev pub reported : List NodeReport → List Text
reported [] = []
reported (r ∷ rs) = r.address ∷ reported rs

pub target_addresses-append :
    (ts us : List Target) → target_addresses (ts ++ us) ≡ target_addresses ts ++ target_addresses us
target_addresses-append [] us = refl
target_addresses-append ((a, n) ∷ ts) us = rw (target_addresses-append ts us) refl

reported-append : (rs us : List NodeReport) → reported (rs ++ us) ≡ reported rs ++ reported us
reported-append [] us = refl
reported-append (r ∷ rs) us = rw (reported-append rs us) refl

any-last :
    (rs : List NodeReport) (r : NodeReport)
    → any (λ (r : NodeReport). r.is_failed) (rs ++ (r ∷ []))
      ≡ (r.is_failed || any (λ (r : NodeReport). r.is_failed) rs)
any-last [] r = refl
any-last (s ∷ rs) r = ground (arith, any-last rs r)

-- A target in the middle of a list.
member-middle :
    (b : Text) (t : Target) (before after : List Target)
    → member b (target_addresses (before ++ (t ∷ after)))
      ≡ (eq_text t.0 b || member b (target_addresses (before ++ after)))
unfolding member
member-middle b (a, n) [] after = refl
member-middle b (a, n) ((c, m) ∷ before) after = ground (arith, member-middle b (a, n) before after)

occurrences-middle :
    (b : Text) (t : Target) (before after : List Target)
    → occurrences b (target_addresses (before ++ (t ∷ after)))
      ≡ to_count (eq_text t.0 b) + occurrences b (target_addresses (before ++ after))
unfolding occurrences
occurrences-middle b (a, n) [] after = ground arith
occurrences-middle b (a, n) ((c, m) ∷ before) after =
    ground (arith, occurrences-middle b (a, n) before after)

pub length-middle :
    (t : Target) (before after : List Target)
    → length (before ++ (t ∷ after)) ≡ suc (length (before ++ after))
length-middle t before after =
    omega (arith, length-append before (t ∷ after), length-append before after)

-- An address that was taken has one task that waits or one report, and no other has any. Each
-- target that was sent is still to come, or waits to begin, or its address was taken. The bar
-- counts all tasks, and those that have ended.
pub record IsFair (sent : List Target) (p : Pool) : Type 0 where
  pub once :
      (a : Text)
      → occurrences a (target_addresses p.running) + occurrences a (reported p.node_reports)
        ≡ to_count (member a p.seen_targets)
  pub kept :
      (a : Text)
      → (member a (target_addresses p.incoming)
          || member a (target_addresses p.spawned)
          || member a p.seen_targets)
        ≡ member a (target_addresses sent)
  pub bar : p.position + length p.spawned + length p.running ≡ p.total
  pub all : p.total + length p.incoming ≡ length sent
  pub failures : p.any_failed ≡ any (λ (r : NodeReport). r.is_failed) p.node_reports

module _ (query : Text → StatusReport) (sent : List Target) where
  start-IsFair : IsFair sent (start_pool sent)
  unfolding occurrences member
  start-IsFair = record {
    once = λ a. refl;
    kept = λ a. ground arith;
    bar = omega arith;
    all = omega arith;
    failures = refl;
  }

  receive-IsFair :
      (p : Pool) (t : Target) (rest : List Target)
      → IsFair sent p
      → p.incoming ≡ t ∷ rest
      → IsFair sent (receive_target t rest p)
  unfolding receive_target member
  receive-IsFair p (a, n) rest h e = record {
    once = h.once;
    kept = λ b. let k = rw e at (h.kept b) in ground arith;
    bar = ground (arith, h.bar);
    all = ground (arith, h.all);
    failures = h.failures;
  }

  begin-IsFair :
      (p : Pool) (t : Target) (before after : List Target)
      → IsFair sent p
      → p.spawned ≡ before ++ (t ∷ after)
      → IsFair sent (begin_task t (before ++ after) p)
  unfolding begin_task set_insert member occurrences
  begin-IsFair p (a, n) before after h e = record {
    once = λ b. grind (arith, h.once b, eq_text_iff a b);
    kept = λ b. grind (arith, h.kept b, eq_text_iff a b, member-middle b (a, n) before after);
    bar = grind (arith, h.bar, length-middle (a, n) before after);
    all = grind (arith, h.all);
    failures = grind (arith, h.failures);
  }

  end-IsFair :
      (p : Pool) (t : Target) (before after : List Target)
      → IsFair sent p
      → p.running ≡ before ++ (t ∷ after)
      → IsFair sent (end_task query t (before ++ after) p)
  unfolding end_task occurrences
  end-IsFair p (a, n) before after h e = record {
    once = λ b.
        let o = rw e at (h.once b) in
        rw (reported-append p.node_reports (report_of query (a, n) ∷ []))
          (grind (arith, o, occurrences-middle b (a, n) before after, occurrences-append));
    kept = h.kept;
    bar = grind (arith, h.bar, length-middle (a, n) before after);
    all = h.all;
    failures = rw (any-last p.node_reports (report_of query (a, n)), h.failures) refl;
  }

  Step-IsFair : {p q : Pool} → Step query p q → IsFair sent p → IsFair sent q
  Step-IsFair {p} (receive t rest e) h = receive-IsFair p t rest h e
  Step-IsFair {p} (begin t before after e) h = begin-IsFair p t before after h e
  Step-IsFair {p} (finish t before after e) h = end-IsFair p t before after h e

  pub Run-IsFair : {n : ℕ} {p : Pool} → Run query (start_pool sent) n p → IsFair sent p
  Run-IsFair here = start-IsFair
  Run-IsFair (next run step) = Step-IsFair step (Run-IsFair run)

-- However the tasks interleave, once the loop and all tasks have ended each address that was sent
-- has exactly one report, and no other address has one; the bar is full; and the flag of failures
-- is set exactly if a report has failed.
pub Run-reported :
    (query : Text → StatusReport) (sent : List Target) (n : ℕ) (p : Pool)
    → Run query (start_pool sent) n p
    → IsDone p
    → ((a : Text)
        → occurrences a (reported p.node_reports) ≡ to_count (member a (target_addresses sent)))
      × (p.position ≡ length sent)
      × (p.total ≡ length sent)
      × (p.any_failed ≡ any (λ (r : NodeReport). r.is_failed) p.node_reports)
unfolding member occurrences
Run-reported query sent n p run done =
    let h = Run-IsFair query sent run in
    (
      λ a.
          let o = rw done.no_running at (h.once a) in
          let k = rw (done.no_incoming, done.no_spawned) at (h.kept a) in ground arith,
      ground (arith, h.bar, h.all, done.no_incoming, done.no_spawned, done.no_running),
      ground (arith, h.all, done.no_incoming),
      h.failures,
    )
