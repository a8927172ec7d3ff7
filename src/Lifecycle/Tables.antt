-- ===== src/Lifecycle/Tables.antt =====
-- What a whole run does to the tables: what holds of them before it holds after it, with an error or
-- without, whatever the outside answers and whichever statement fails.
use goedge_ip_cert.Prelude.{◌≡◌, sym, ◌∙◌, String, some, ◌⊎◌}
use mathlib.Core.Path.{subst}
use mathlib.Core.Option.{some-injective}
use goedge_ip_cert.World.{World, Outside}
use goedge_ip_cert.State.Model.{Operation, active, error}
use goedge_ip_cert.State.Tables.{select, has_id}
use goedge_ip_cert.State.Moves.{Reach-from_active}
use goedge_ip_cert.State.Valid.{IsValid, IsValid-Kept}
use goedge_ip_cert.State.Progress.{Continued, Continued-Kept, Later-refl}
use goedge_ip_cert.Lifecycle.Model.{Runner}
use goedge_ip_cert.Lifecycle.Run.{run_once}
use goedge_ip_cert.Lifecycle.Keeps.Stored.{run-Keeps}

module _ {X : Type 0} (o : Outside X) (r : Runner) (ip : String) (w : World X) where
  -- A run keeps the tables valid: no two operations share an id or a marker, at most one operation
  -- of an address is in flight, and an address has at most one managed certificate.
  pub run_once-IsValid : IsValid w.tables → IsValid (run_once o r ip w).1.tables
  run_once-IsValid v = (run-Keeps o IsValid-Kept r ip).at w v

  -- A run removes no operation: one that is in the tables is there after the run, with its id,
  -- address, kind and marker, at a stage that its old stage leads to by the steps of an operation.
  pub run_once-Continued :
      (id : String) (op : Operation)
      → select (has_id id) w.tables.operations ≡ some op
      → Continued id op (run_once o r ip w).1.tables
  run_once-Continued id op e =
      (run-Keeps o (Continued-Kept id op) r ip).at w
        (record { row = op; found = e; later = Later-refl op })

  -- A finished operation stays finished: one that is active or failed before a run is active or
  -- failed after it.
  pub run_once_finished :
      (id : String) (op row : Operation)
      → select (has_id id) w.tables.operations ≡ some op
      → (op.stage ≡ active) ⊎ (op.stage ≡ error)
      → select (has_id id) (run_once o r ip w).1.tables.operations ≡ some row
      → (row.stage ≡ active) ⊎ (row.stage ≡ error)
  run_once_finished id op row e h found =
      let c = run_once-Continued id op e in
      subst (λ x. (x.stage ≡ active) ⊎ (x.stage ≡ error)) (some-injective _ _ (sym c.found ∙ found))
        (Reach-from_active c.later.reach h)
