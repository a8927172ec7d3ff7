-- ===== src/State/Progress.antt =====
-- What becomes of an operation: its row stays, and its stage moves along the steps of Moves.
use goedge_ip_cert.Prelude.{
  ◌≡◌, refl, ap, ◌∙◌, String, Bool, true, false, [], ◌∷◌, some, ◌=s=◌, Bool-cases, inl, inr,
  if◌then◌else◌, arith,
}
use goedge_ip_cert.State.Model.{Operation, ManagedCert}
use goedge_ip_cert.State.Moves.{Moves, Reach, here, next}
use goedge_ip_cert.State.Statements.{Kept}
use goedge_ip_cert.State.Tables.{
  Tables, select, update, crowded, breaks_unique, has_id, insert_operation, update_operations,
  upsert_managed, update_managed,
}
use goedge_ip_cert.State.Tables.Rows.{select-update, select-append}

-- The same operation, at a stage that its old stage leads to.
pub record Later (op op' : Operation) : Type 0 where
  pub id : op'.id ≡ op.id
  pub ipv4 : op'.ipv4 ≡ op.ipv4
  pub kind : op'.kind ≡ op.kind
  pub marker : op'.marker ≡ op.marker
  pub reach : Reach op.stage op'.stage

pub Later-refl : (op : Operation) → Later op op
Later-refl op = record { id = refl; ipv4 = refl; kind = refl; marker = refl; reach = here }

Later-Moves : {a b c : Operation} → Later a b → Moves b c → Later a c
Later-Moves l m = record {
  id = m.id ∙ l.id;
  ipv4 = m.ipv4 ∙ l.ipv4;
  kind = m.kind ∙ l.kind;
  marker = m.marker ∙ l.marker;
  reach = next l.reach m.step;
}

-- The row of an operation is still there, and is a later state of it.
pub record Continued (id : String) (op : Operation) (t : Tables) : Type 0 where
  pub row : Operation
  pub found : select (has_id id) t.operations ≡ some row
  pub later : Later op row

module _ (id : String) (op : Operation) where
  insert-Continued :
      (t : Tables) (new : Operation)
      → Continued id op t
      → Continued id op (insert_operation new t).1
  unfolding insert_operation
  insert-Continued t new c = elim (Bool-cases (breaks_unique new t.operations)) [
    | inl e ↦ rw (e, insert_operation) c
    | inr e ↦
        rw (e, insert_operation)
          (record {
            row = c.row;
            found = select-append (has_id id) t.operations (new ∷ []) c.row c.found;
            later = c.later;
          })
  ]

  Later-if :
      (b : Bool) (row : Operation) (f : Operation → Operation)
      → (b ≡ true → Moves row (f row))
      → Later op row
      → Later op (if b then f row else row)
  Later-if true row f m l = Later-Moves l (m refl)
  Later-if false row f m l = l

  update-Continued :
      (t : Tables) (p : Operation → Bool) (f : Operation → Operation)
      → ((row : Operation) → p row ≡ true → Moves row (f row))
      → Continued id op t
      → Continued id op (update_operations p f t).1
  unfolding update_operations
  update-Continued t p f moves c =
      elim (Bool-cases (crowded (update p f t.operations) (update p f t.operations))) [
        | inl e ↦ rw (e, update_operations) c
        | inr e ↦
            rw (e, update_operations)
              (record {
                row = if p c.row then f c.row else c.row;
                found =
                    select-update (has_id id) p f t.operations c.row
                      (λ row h. ap (λ i. i =s= id) (moves row h).id) c.found;
                later = Later-if (p c.row) c.row f (moves c.row) c.later;
              })
      ]

  upsert-Continued :
      (t : Tables) (item : ManagedCert)
      → Continued id op t
      → Continued id op (upsert_managed item t).1
  unfolding upsert_managed
  upsert-Continued t item c = record {
    row = c.row;
    found = ground (arith, c.found);
    later = c.later;
  }

  managed-Continued :
      (t : Tables) (ip : String) (f : ManagedCert → ManagedCert)
      → ((item : ManagedCert) → (f item).ipv4 ≡ item.ipv4)
      → Continued id op t
      → Continued id op (update_managed ip f t).1
  unfolding update_managed
  managed-Continued t ip f same c = record { row = c.row; found = c.found; later = c.later }

  pub Continued-Kept : Kept (Continued id op)
  Continued-Kept = record {
    pending_kept = λ t ps c. record { row = c.row; found = c.found; later = c.later };
    insert_kept = insert-Continued;
    update_kept = update-Continued;
    upsert_kept = upsert-Continued;
    managed_kept = managed-Continued;
  }
