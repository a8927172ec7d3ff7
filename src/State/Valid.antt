-- ===== src/State/Valid.antt =====
-- The uniqueness that the tables promise, and that every statement keeps it.
use goedge_ip_cert.Prelude.{
  ◌≤◌, ◌<◌, ◌≡◌, ap, String, Bool, true, false, List, [], ◌∷◌, ◌=s=◌, eq_iff, sym, Bool-cases, inl,
  inr, arith, ltb,
}
use mathlib.Core.Path.{subst}
use native.Mathlib.Decide.{dec_lt}
use goedge_ip_cert.State.Model.{Operation, ManagedCert}
use goedge_ip_cert.State.Moves.{Moves}
use goedge_ip_cert.State.Statements.{Kept}
use goedge_ip_cert.State.Tables.{
  Tables, count, update, any, has_id, has_marker, in_flight_for, for_ipv4, crowded, breaks_unique,
  insert_operation, update_operations, upsert_managed, update_managed,
}
use goedge_ip_cert.State.Tables.Rows.{count_insert_le, count-update}

pub record IsValid (t : Tables) : Type 0 where
  pub one_id : (id : String) → count (has_id id) t.operations ≤ 1
  pub one_marker : (m : String) → count (has_marker m) t.operations ≤ 1
  pub one_in_flight : (ip : String) → count (in_flight_for ip) t.operations ≤ 1
  pub one_managed : (ip : String) → count (for_ipv4 ip) t.managed_certs ≤ 1

-- The index holds for an address that has a row: that row is among those that were looked at.
crowded-false :
    (ip : String) (rows ops : List Operation)
    → crowded rows ops ≡ false
    → 0 < count (in_flight_for ip) rows
    → count (in_flight_for ip) ops ≤ 1
unfolding crowded any count
crowded-false ip [] ops h p = absurd (omega arith)
crowded-false ip (x ∷ rows) ops h p = elim (Bool-cases (x.ipv4 =s= ip)) [
  | inl e ↦ subst (λ i. count (in_flight_for i) ops ≤ 1) ((eq_iff x.ipv4 ip).0 e) (ground arith)
  | inr e ↦ crowded-false ip rows ops (ground arith) (ground arith)
]

in_flight_bound :
    (ip : String) (ops : List Operation)
    → crowded ops ops ≡ false
    → count (in_flight_for ip) ops ≤ 1
in_flight_bound ip ops h = elim (dec_lt 0 (count (in_flight_for ip) ops)) [
  | yes p ↦ crowded-false ip ops ops h p
  | no p ↦ omega arith
]

update-IsValid :
    (t : Tables) (p : Operation → Bool) (f : Operation → Operation)
    → ((op : Operation) → p op ≡ true → Moves op (f op))
    → IsValid t
    → IsValid (update_operations p f t).1
unfolding update_operations
update-IsValid t p f moves v =
    elim (Bool-cases (crowded (update p f t.operations) (update p f t.operations))) [
      | inl e ↦ rw (e, update_operations) v
      | inr e ↦
          rw (e, update_operations)
            (record {
              one_id = λ id.
                  rw
                    (count-update (has_id id) p f t.operations
                      (λ op h. ap (λ i. i =s= id) (moves op h).id))
                    (v.one_id id);
              one_marker = λ m.
                  rw
                    (count-update (has_marker m) p f t.operations
                      (λ op h. ap (λ i. i =s= m) (moves op h).marker))
                    (v.one_marker m);
              one_in_flight = λ ip. in_flight_bound ip (update p f t.operations) e;
              one_managed = v.one_managed;
            })
    ]

module _ (op : Operation) (ops : List Operation) (h : breaks_unique op ops ≡ false) where
  no_id : (id : String) → has_id id op ≡ true → count (has_id id) ops ≡ 0
  unfolding breaks_unique
  no_id id e = subst (λ i. count (has_id i) ops ≡ 0) ((eq_iff op.id id).0 e) (ground arith)

  no_marker : (m : String) → has_marker m op ≡ true → count (has_marker m) ops ≡ 0
  unfolding breaks_unique
  no_marker m e =
      subst (λ i. count (has_marker i) ops ≡ 0) ((eq_iff op.marker m).0 e) (ground arith)

  no_in_flight : (ip : String) → in_flight_for ip op ≡ true → count (in_flight_for ip) ops ≡ 0
  unfolding breaks_unique
  no_in_flight ip e =
      subst (λ i. count (in_flight_for i) ops ≡ 0) ((eq_iff op.ipv4 ip).0 (ground arith))
        (ground arith)

insert-IsValid : (t : Tables) (row : Operation) → IsValid t → IsValid (insert_operation row t).1
unfolding insert_operation
insert-IsValid t row v = elim (Bool-cases (breaks_unique row t.operations)) [
  | inl e ↦ rw (e, insert_operation) v
  | inr e ↦
      rw (e, insert_operation)
        (record {
          one_id =
              λ id. count_insert_le _ t.operations row (no_id row t.operations e id) (v.one_id id);
          one_marker = λ m.
              count_insert_le _ t.operations row (no_marker row t.operations e m) (v.one_marker m);
          one_in_flight = λ ip.
              count_insert_le _ t.operations row (no_in_flight row t.operations e ip)
                (v.one_in_flight ip);
          one_managed = v.one_managed;
        })
]

upsert-IsValid : (t : Tables) (item : ManagedCert) → IsValid t → IsValid (upsert_managed item t).1
unfolding upsert_managed
upsert-IsValid t item v = elim (Bool-cases (ltb 0 (count (for_ipv4 item.ipv4) t.managed_certs))) [
  | inl e ↦
      rw (e, upsert_managed)
        (record {
          one_id = v.one_id;
          one_marker = v.one_marker;
          one_in_flight = v.one_in_flight;
          one_managed = λ ip.
              rw
                (count-update (for_ipv4 ip) (for_ipv4 item.ipv4) (λ _. item) t.managed_certs
                  (λ row h. ap (λ i. i =s= ip) (sym ((eq_iff row.ipv4 item.ipv4).0 h))))
                (v.one_managed ip);
        })
  | inr e ↦
      rw (e, upsert_managed)
        (record {
          one_id = v.one_id;
          one_marker = v.one_marker;
          one_in_flight = v.one_in_flight;
          one_managed = λ ip.
              count_insert_le _ t.managed_certs item
                (λ h.
                  subst (λ i. count (for_ipv4 i) t.managed_certs ≡ 0) ((eq_iff item.ipv4 ip).0 h)
                    (ground arith))
                (v.one_managed ip);
        })
]

managed-IsValid :
    (t : Tables) (ip : String) (f : ManagedCert → ManagedCert)
    → ((item : ManagedCert) → (f item).ipv4 ≡ item.ipv4)
    → IsValid t
    → IsValid (update_managed ip f t).1
unfolding update_managed
managed-IsValid t ip f same v = record {
  one_id = v.one_id;
  one_marker = v.one_marker;
  one_in_flight = v.one_in_flight;
  one_managed = λ j.
      rw
        (count-update (for_ipv4 j) (for_ipv4 ip) f t.managed_certs
          (λ row h. ap (λ i. i =s= j) (same row)))
        (v.one_managed j);
}

pub IsValid-Kept : Kept IsValid
IsValid-Kept = record {
  pending_kept = λ t ps v. record {
    one_id = v.one_id;
    one_marker = v.one_marker;
    one_in_flight = v.one_in_flight;
    one_managed = v.one_managed;
  };
  insert_kept = insert-IsValid;
  update_kept = update-IsValid;
  upsert_kept = upsert-IsValid;
  managed_kept = managed-IsValid;
}
