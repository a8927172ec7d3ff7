-- ===== src/Rollback/RoundTrip.antt =====
-- What save writes is what load reads.
use goedge_ip_cert.Prelude.{
  ◌≡◌, refl, Bool, true, false, Option, none, some, List, [], ◌∷◌, ◌++◌, eq_refl, Bool-cases,
  Option-cases, inl, inr, arith,
}
use goedge_ip_cert.Error.{Error}
use goedge_ip_cert.Action.Success.{err≢ok}
use goedge_ip_cert.Action.{ok, ◌>>=◌, lift_option}
use goedge_ip_cert.World.{World, Outside, Snapshot, File, external_fault, get_dir, set_dir}
use goedge_ip_cert.State.Tables.{delete, select}
use goedge_ip_cert.Rollback.Encoding.{decode-encode}
use goedge_ip_cert.Rollback.{
  has_stem, snapshot_file, is_incomplete, is_operation_id, save, load, check_file, check_json,
}

-- A file that takes the place of all of its name is found by its name.
pub select-delete-append :
    {A : Type 0} (p : A → Bool) (xs : List A) (x : A)
    → p x ≡ true
    → select p (delete p xs ++ x ∷ []) ≡ some x
unfolding select delete
select-delete-append p [] x h = rw h refl
select-delete-append p (y ∷ ys) x h = elim (Bool-cases (p y)) [
  | inl e ↦ rw (e, delete) (select-delete-append p ys x h)
  | inr e ↦ rw (e, delete, e) (select-delete-append p ys x h)
]

pub has_stem_self : (s : Snapshot) → has_stem s.operation_id (snapshot_file s) ≡ true
has_stem_self s = rw (eq_refl s.operation_id) refl

-- The name that save gives to a snapshot is the name that load looks for.
pub saved-select :
    (s : Snapshot) (files : List File)
    → select
        (has_stem s.operation_id)
        (delete (has_stem s.operation_id) files ++ snapshot_file s ∷ [])
      ≡ some (snapshot_file s)
saved-select s files =
    select-delete-append (has_stem s.operation_id) files (snapshot_file s) (has_stem_self s)

complete-id : (s : Snapshot) → is_incomplete s ≡ false → is_operation_id s.operation_id ≡ true
unfolding is_incomplete
complete-id s h = ground arith

pub fault-dir :
    {X : Type 0} (f : X → Option Error × X) (w : World X)
    → (external_fault f w).1.rollback_dir ≡ w.rollback_dir
unfolding external_fault lift_option
fault-dir f w = elim (Option-cases (f w.outside).0) [
  | inl e ↦ rw (e, external_fault) refl
  | inr (x, e) ↦ rw (e, external_fault) refl
]

module _ {X : Type 0} (o : Outside X) where
  -- After save, without an error, the snapshot is on disk.
  pub save-select :
      (s : Snapshot) (w : World X) (u : Unit {0})
      → (save o s w).0 ≡ ok u
      → select (has_stem s.operation_id) (save o s w).1.rollback_dir ≡ some (snapshot_file s)
  unfolding save ◌>>=◌ external_fault get_dir set_dir
  save-select s w u h = elim (Bool-cases (is_incomplete s)) [
    | inl e ↦ absurd (err≢ok (rw (e, save) at h))
    | inr e ↦ elim (Option-cases (o.file_fault w.outside).0) [
      | inr (x, f) ↦ absurd (err≢ok (rw (e, f, save, external_fault) at h))
      | inl f ↦
          let files = delete (has_stem s.operation_id) w.rollback_dir ++ snapshot_file s ∷ [] in
          let w' : World X = record w {
            rollback_dir = files;
            outside = (o.file_fault w.outside).1;
          } in
          rw (e, f, save, external_fault, fault-dir o.file_fault w') (saved-select s w.rollback_dir)
    ]
  ]

module _ {X : Type 0} (o : Outside X) (fine : (x : X) → (o.file_fault x).0 ≡ none) where
  fault-fine :
      (w : World X)
      → external_fault o.file_fault w ≡ (ok tt, record w { outside = (o.file_fault w.outside).1 })
  unfolding external_fault lift_option
  fault-fine w = rw (fine w.outside) refl

  save_fine : (s : Snapshot) (w : World X) → is_incomplete s ≡ false → (save o s w).0 ≡ ok tt
  unfolding save ◌>>=◌ get_dir set_dir
  save_fine s w h =
      let files = delete (has_stem s.operation_id) w.rollback_dir ++ snapshot_file s ∷ [] in
      let w' : World X = record w { rollback_dir = files; outside = (o.file_fault w.outside).1 } in
      rw (h, fault-fine w, fault-fine w') refl

  load_on_disk :
      (s : Snapshot) (w : World X)
      → is_incomplete s ≡ false
      → select (has_stem s.operation_id) w.rollback_dir ≡ some (snapshot_file s)
      → (load o s.operation_id w).0 ≡ ok s
  unfolding load ◌>>=◌ get_dir check_file check_json
  load_on_disk s w h e =
      rw
        (
          complete-id s h,
          fault-fine w,
          e,
          fault-fine (record w { outside = (o.file_fault w.outside).1 }),
          decode-encode s,
          h,
          eq_refl s.operation_id,
        )
        refl

  -- On a disk without faults, a complete snapshot is read back under the ID of its operation as it
  -- was saved, whatever files the directory had before.
  pub load-save :
      (s : Snapshot) (w : World X)
      → is_incomplete s ≡ false
      → (load o s.operation_id (save o s w).1).0 ≡ ok s
  load-save s w h = load_on_disk s (save o s w).1 h (save-select o s w tt (save_fine s w h))
