-- ===== src/Lifecycle/Replacing.antt =====
-- The renewal replaces the certificate in place: the old one is on disk before the new one is sent,
-- and stays there until TLS confirms one of them.
use goedge_ip_cert.Prelude.{
  ◌≡◌, refl, ◌∙◌, ap, String, Bool, true, false, some, Option, Option-cases, List, ◌⊎◌, inl, inr,
}
use goedge_ip_cert.Error.{Error}
use goedge_ip_cert.Action.{
  Result, ok, err, Action, after, attempt, on, wrap_error, refuse_if, lift_option, ◌>>=◌, ◌>>◌,
}
use goedge_ip_cert.Action.Keeps.{Keeps, Keeps-bind, Keeps-on, Keeps-attempt, Keeps-if, keeps_rules}
use goedge_ip_cert.Certificate.{Verified, fingerprint}
use goedge_ip_cert.GoEdge.Model.{CertificateInput, CertificateConfig}
use goedge_ip_cert.World.{
  World, Outside, Snapshot, File, Request, external, external_fault, request, get_dir, set_dir,
}
use goedge_ip_cert.State.Tables.{select}
use goedge_ip_cert.State.Model.{Operation}
use goedge_ip_cert.Rollback
use goedge_ip_cert.Rollback.{has_stem, snapshot_file, new_snapshot}
use goedge_ip_cert.Rollback.RoundTrip.{fault-dir, save-select}
use goedge_ip_cert.Lifecycle.Model.{Runner, certificate_input_from_config}
use goedge_ip_cert.Lifecycle.Ensure.{
  crash, edge_certificate, tls_verify, update_certificate, not_restored, restore_old_certificate,
  rollback_after_failure, confirm_update, replace_saved, replace, update_current,
}

abbrev pub is_ok : {A : Type 0} → Result A → Bool
is_ok (ok a) = true
is_ok (err e) = false

-- The snapshot is the file of its operation.
abbrev pub OnDisk : {X : Type 0} → Snapshot → World X → Type 0
OnDisk s w = select (has_stem s.operation_id) w.rollback_dir ≡ some (snapshot_file s)

module _ {X : Type 0} (s : Snapshot) where
  external-OnDisk : {A : Type 0} (m : Action X A) → Keeps (OnDisk s) (external m)
  unfolding external
  external-OnDisk m = record { at = λ w d. d }

  request-OnDisk : {A : Type 0} (q : Request) (m : Action X A) → Keeps (OnDisk s) (request q m)
  unfolding request
  request-OnDisk q m = record { at = λ w d. d }

  fault-OnDisk : (f : X → Option Error × X) → Keeps (OnDisk s) (external_fault f)
  fault-OnDisk f = record { at = λ w d. ap (select (has_stem s.operation_id)) (fault-dir f w) ∙ d }

  on-OnDisk :
      {A B : Type 0} (x : Result A) (f : A → Action (World X) B) (g : Error → Action (World X) B)
      (w : World X)
      → is_ok x ≡ false
      → ((e : Error) → Keeps (OnDisk s) (g e))
      → OnDisk s w
      → OnDisk s (on x f g w).1
  on-OnDisk (ok a) f g w h kg d = absurd cc
  on-OnDisk (err e) f g w h kg d = (kg e).at w d

  -- A step that always fails leads to its error branch.
  refused-OnDisk :
      {A B : Type 0} (m : Action (World X) A) (f : A → Action (World X) B)
      (g : Error → Action (World X) B)
      → ((w : World X) → is_ok (m w).0 ≡ false)
      → Keeps (OnDisk s) m
      → ((e : Error) → Keeps (OnDisk s) (g e))
      → Keeps (OnDisk s) (attempt m >>= λ x. on x f g)
  unfolding ◌>>=◌ attempt
  refused-OnDisk m f g h km kg = record {
    at = λ w d. on-OnDisk (m w).0 f g (m w).1 (h w) kg (km.at w d);
  }

module _ {X : Type 0} (o : Outside X) (r : Runner) (op : Operation) (s : Snapshot)
    (new_unserved : (x : X) → is_ok (o.tls_verify op.ipv4 op.cert_fingerprint x).0 ≡ false)
    (old_unserved : (x : X) → is_ok (o.tls_verify s.ipv4 s.old_fingerprint x).0 ≡ false) where
  unserved :
      (ip print : String) (w : World X)
      → is_ok (o.tls_verify ip print w.outside).0 ≡ false
      → is_ok (tls_verify o r ip print w).0 ≡ false
  unfolding tls_verify external
  unserved ip print w h = h

  tls-OnDisk : (ip print : String) → Keeps (OnDisk s) (tls_verify o r ip print)
  unfolding tls_verify
  tls-OnDisk ip print = external-OnDisk s _

  update-OnDisk : (input : CertificateInput) → Keeps (OnDisk s) (update_certificate o r input)
  unfolding update_certificate
  update-OnDisk input = request-OnDisk s _ _

  not_restored-OnDisk :
      (u : Result (Unit {0})) (e : Error) → Keeps (OnDisk s) (not_restored o r u e)
  unfolding not_restored
  not_restored-OnDisk u e = search keeps_rules

  restore-OnDisk : Keeps (OnDisk s) (restore_old_certificate o r op s)
  unfolding restore_old_certificate
  restore-OnDisk = Keeps-bind _ _ (Keeps-attempt _ (update-OnDisk s.old)) λ update.
      refused-OnDisk s _ _ _ (λ w. unserved s.ipv4 s.old_fingerprint w (old_unserved w.outside))
        (tls-OnDisk _ _) (λ e. not_restored-OnDisk update e)

  rollback-OnDisk : (e : Error) → Keeps (OnDisk s) (rollback_after_failure o r op s e)
  unfolding rollback_after_failure
  rollback-OnDisk e = search (keeps_rules, restore-OnDisk)

  confirm-OnDisk : Keeps (OnDisk s) (confirm_update o r op s)
  unfolding confirm_update edge_certificate
  confirm-OnDisk = Keeps-bind _ _ (Keeps-attempt _ (external-OnDisk s _)) λ read_back.
      Keeps-on read_back _ _
        (λ cert. Keeps-if _ _ _ (rollback-OnDisk _) (
          refused-OnDisk s _ _ _
            (λ w. unserved op.ipv4 op.cert_fingerprint w (new_unserved w.outside)) (tls-OnDisk _ _)
            (λ e. rollback-OnDisk _)))
        (λ e. rollback-OnDisk _)

  rest-OnDisk :
      (current : CertificateConfig) (v : Verified)
      → Keeps (OnDisk s) (replace_saved o r op current v s)
  unfolding replace_saved crash
  rest-OnDisk current v = Keeps-bind _ _ (fault-OnDisk s _) λ _.
      Keeps-bind _ _ (Keeps-attempt _ (update-OnDisk _)) λ updated.
        Keeps-on updated _ _ (λ _. Keeps-bind _ _ (fault-OnDisk s _) λ _. confirm-OnDisk)
          (λ e. rollback-OnDisk _)

abbrev HasSent : {X : Type 0} → List Request → World X → Type 0
HasSent sent w = w.sent ≡ sent

module _ {X : Type 0} (sent : List Request) where
  fault-HasSent : (f : X → Option Error × X) → Keeps (HasSent {X = X} sent) (external_fault f)
  unfolding external_fault lift_option
  fault-HasSent f = record {
    at = λ w q. elim (Option-cases (f w.outside).0) [
      | inl e ↦ rw (e, external_fault) q
      | inr (x, e) ↦ rw (e, external_fault) q
    ];
  }

  get_dir-HasSent : Keeps (HasSent {X = X} sent) get_dir
  unfolding get_dir
  get_dir-HasSent = record { at = λ w q. q }

  set_dir-HasSent : (files : List File) → Keeps (HasSent {X = X} sent) (set_dir files)
  unfolding set_dir
  set_dir-HasSent files = record { at = λ w q. q }

  save-HasSent : (o : Outside X) (s : Snapshot) → Keeps (HasSent sent) (Rollback.save o s)
  unfolding Rollback.save
  save-HasSent o s = search (keeps_rules, fault-HasSent, get_dir-HasSent, set_dir-HasSent) depth 8

module _ {X A : Type 0} (s : Snapshot) (sent : List Request) where
  -- An error of save is the end; without one the rest starts with the snapshot on disk.
  after_save :
      (x : Result (Unit {0})) (g : Error → Error) (f : Unit {0} → Action (World X) A) (w : World X)
      → w.sent ≡ sent
      → ((u : Unit {0}) → x ≡ ok u → OnDisk s w)
      → ((u : Unit {0}) → Keeps (OnDisk s) (f u))
      → ((after (on x (λ a. ok a) (λ e. err (g e))) f w).1.sent ≡ sent)
        ⊎ OnDisk s (after (on x (λ a. ok a) (λ e. err (g e))) f w).1
  after_save (ok u) g f w q d kf = inr ((kf u).at w (d u refl))
  after_save (err e) g f w q d kf = inl q

module _ {X : Type 0} (o : Outside X) (r : Runner) (op : Operation) where
  replace_safe :
      (current : CertificateConfig) (v : Verified) (s : Snapshot) (w : World X)
      → ((x : X) → is_ok (o.tls_verify op.ipv4 op.cert_fingerprint x).0 ≡ false)
      → ((x : X) → is_ok (o.tls_verify s.ipv4 s.old_fingerprint x).0 ≡ false)
      → ((replace o r op current v s w).1.sent ≡ w.sent) ⊎ OnDisk s (replace o r op current v s w).1
  unfolding replace ◌>>=◌ wrap_error
  replace_safe current v s w hn ho =
      after_save s w.sent (Rollback.save o s w).0 _ (λ _. replace_saved o r op current v s)
        (Rollback.save o s w).1 ((save-HasSent w.sent o s).at w refl) (save-select o s w)
        (λ _. rest-OnDisk o r op s hn ho current v)

  guarded :
      (C : World X → Type 0) (b : Bool) (e : Error) (m : Action (World X) (Unit {0})) (w : World X)
      → C w
      → C (m w).1
      → C ((refuse_if b e >> m) w).1
  unfolding ◌>>=◌ refuse_if
  guarded C true e m w before after_m = before
  guarded C false e m w before after_m = after_m

  -- While TLS confirms neither the new certificate nor the old one, a renewal leaves the EdgeAPI as
  -- it was or the snapshot of the old certificate on disk: whatever else fails, it either sends no
  -- request or ends with the operation's file holding the certificate that it found.
  pub update_current_safe :
      (current : CertificateConfig) (v : Verified) (w : World X)
      → ((x : X) → is_ok (o.tls_verify op.ipv4 op.cert_fingerprint x).0 ≡ false)
      → ((x : X)
          → is_ok (o.tls_verify op.ipv4 (fingerprint o.crypto current.cert_data) x).0 ≡ false)
      → ((update_current o r op current (some v) w).1.sent ≡ w.sent)
        ⊎ (select (has_stem op.id) (update_current o r op current (some v) w).1.rollback_dir
            ≡ some (
                snapshot_file (
                  new_snapshot op.id op.ipv4 op.cert_fingerprint
                    (fingerprint o.crypto current.cert_data)
                    (certificate_input_from_config current))))
  unfolding update_current certificate_input_from_config
  update_current_safe current v w hn ho =
      let s =
        new_snapshot op.id op.ipv4 op.cert_fingerprint (fingerprint o.crypto current.cert_data)
          (certificate_input_from_config current) in
      let C = λ (w' : World X). (w'.sent ≡ w.sent) ⊎ OnDisk s w' in
      guarded C _ _ _ w (inl refl) (guarded C _ _ _ w (inl refl) (replace_safe current v s w hn ho))
