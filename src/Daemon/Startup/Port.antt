-- ===== src/Daemon/Startup/Port.antt =====
-- The port that `main` of daemon/src/main.rs finds, and the reboot commands.
use brewmble.Prelude.{
  Bool, Result, Text, arith, err, false, none, ok, some, suc, true, ℕ, ◌+◌, ◌<◌, ◌≡◌, ◌≤◌, List,
  refl, zero, ◌-◌, ◌==◌,
}
use brewmble.Prelude.Exec.{Exec}
use brewmble.Daemon.Startup.{
  default_port, max_port, search_port, http_port, systemctl_reboot, fallback_reboot, execute_reboot,
}

abbrev can_bind : Result Text (Unit {0}) → Bool
can_bind (ok _) = true
can_bind (err e) = false

module _ (bind : ℕ → Result Text (Unit {0})) where
  -- What a search from a port on may return: the first port that can be bound, or the error of the
  -- last one.
  pub data IsFound (start : ℕ) : Result Text ℕ → Type 0 where
    first :
        (port : ℕ)
        → (start ≤ port) × (port ≤ max_port) × (can_bind (bind port) ≡ true)
        → ((p : ℕ) → start ≤ p → p < port → can_bind (bind p) ≡ false)
        → IsFound start (ok port)
    exhausted :
        (e : Text)
        → ((p : ℕ) → start ≤ p → p ≤ max_port → can_bind (bind p) ≡ false)
        → IsFound start (err e)

  bindings_from :
      (port p : ℕ)
      → can_bind (bind port) ≡ false
      → (suc port ≤ p → can_bind (bind p) ≡ false)
      → port ≤ p
      → can_bind (bind p) ≡ false
  bindings_from port p h k l = ground arith

  later :
      (port : ℕ) (r : Result Text ℕ)
      → can_bind (bind port) ≡ false
      → IsFound (suc port) r
      → IsFound port r
  later port (ok _) h (first q (a, b, c) l) =
      first q (omega arith, b, c) (λ p k m. bindings_from port p h (λ n. l p n m) k)
  later port (err _) h (exhausted e l) =
      exhausted e (λ p k m. bindings_from port p h (λ n. l p n m) k)

  -- The search with some fuel from a port on ends, with what it should.
  abbrev Ends : ℕ → ℕ → Type 0
  Ends fuel port = (r : Result Text ℕ) × (search_port bind fuel port ≡ some r) × IsFound port r

  searched :
      (fuel port : ℕ) (e : Text) (b : Bool)
      → bind port ≡ err e
      → (port == max_port) ≡ b
      → (b ≡ false → Ends fuel (suc port))
      → Ends (suc fuel) port
  unfolding search_port
  searched fuel port e true f g next = (
    err e,
    rw (f, g, search_port) refl,
    exhausted e (λ p k m. let same : p ≡ port = ground arith in rw (same, f) refl),
  )
  searched fuel port e false f g next =
      let (r, s, found) = next refl in (r, rw (f, g, search_port) s, later port r (rw f refl) found)

  tried :
      (fuel port : ℕ) (b : Result Text (Unit {0}))
      → port ≤ max_port
      → bind port ≡ b
      → ((port == max_port) ≡ false → Ends fuel (suc port))
      → Ends (suc fuel) port
  unfolding search_port
  tried fuel port (ok _) h f next = (
    ok port,
    rw (f, search_port) refl,
    first port (omega arith, h, rw f refl) (λ p k m. absurd (omega arith)),
  )
  tried fuel port (err e) h f next = searched fuel port e (port == max_port) f refl next

  search_port-IsFound :
      (fuel port : ℕ) → port ≤ max_port → suc max_port ≤ fuel + port → Ends fuel port
  search_port-IsFound zero port h k = absurd (omega arith)
  search_port-IsFound (suc fuel) port h k =
      tried fuel port (bind port) h refl
        (λ e. search_port-IsFound fuel (suc port) (ground arith) (omega arith))

  -- If no port is configured, the search ends, with the first port from 4712 on that can be bound,
  -- or with an error if none up to 65535 can.
  pub http_port-IsFound :
      (r : Result Text ℕ) × (http_port bind none ≡ some r) × IsFound default_port r
  unfolding http_port
  http_port-IsFound =
      search_port-IsFound (suc max_port - default_port) default_port (omega arith) (omega arith)

module _ {S : Type 0} (run : Text × List Text → Exec S Bool) where
  -- A reboot whose first command succeeds runs nothing else; if that command ends with an error or
  -- without success, exactly the fallback is run after it.
  pub execute_reboot_fallback :
      (s : S)
      → ((run systemctl_reboot s).0 ≡ ok true → execute_reboot run s ≡ (run systemctl_reboot s).1)
        × (¬ ((run systemctl_reboot s).0 ≡ ok true)
            → execute_reboot run s ≡ (run fallback_reboot (run systemctl_reboot s).1).1)
  unfolding execute_reboot
  execute_reboot_fallback s = ground arith
