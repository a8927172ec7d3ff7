-- ===== src/Bootstrap/Cleanup.antt =====
-- What InitializeDatabase leaves when it fails: neither a database user nor a credential.
use goedge_ip_cert.Prelude.{◌≡◌, refl, String, Bool, true, false, Option, none, some}
use goedge_ip_cert.Error.{Error}
use goedge_ip_cert.Action.{Action, fail, on_option, ◌>>=◌, ◌>>◌}
use goedge_ip_cert.Action.Keeps.{
  Keeps, Keeps-bind, Keeps-lift_option, Keeps-refuse_if, Keeps-wrap_error, Keeps-pass,
}
use goedge_ip_cert.Action.Ends.{
  Outcome, Ends, Ends-bind, Ends-attempt, Ends-Keeps, Ends-pass, Ends-fail, Ends-if, Ends-on,
}
use goedge_ip_cert.Bootstrap.{
  GoEdgeDbConfig, Machine, Calls, step, faulty, set_credential, set_database_file, set_user,
  write_private, write_public, remove_credential, drop_user, verify_runtime_dsn, confirm_credential,
  grant_and_write, create_runtime_user, get, load_db_config, least_privilege_sql, initialize_new,
  initialize_database, keep_existing,
}

some≢none : {text : String} → some text ≡ none → ⊥
some≢none h = cc

-- Predicates on the credential and on whether MySQL has the user.
unfoldable pub Clean : Option String → Bool → Type 0
Clean credential has_user = (credential ≡ none) × (has_user ≡ false)

pub UserOnly : Option String → Bool → Type 0
UserOnly credential has_user = (credential ≡ none) × (has_user ≡ true)

pub Ready : Option String → Bool → Type 0
Ready credential has_user = ((text : String) × (credential ≡ some text)) × (has_user ≡ true)

unfoldable pub On : {X : Type 0} → (Option String → Bool → Type 0) → Machine X → Type 0
On p s = p s.credential s.has_user

module _ {X : Type 0} (calls : Calls X) (p : Option String → Bool → Type 0) where
  Keeps-step : {A : Type 0} (m : Action X A) → Keeps (On p) (step calls m)
  unfolding step On
  Keeps-step m = record { at = λ s h. h }

  Keeps-faulty : (f : X → Option Error × X) → Keeps (On p) (faulty calls f)
  unfolding faulty On
  Keeps-faulty f = record { at = λ s h. (Keeps-lift_option {P = On p} (f s.outside).0).at _ h }

  Keeps-verify_runtime_dsn : (dsn : String) → Keeps (On p) (verify_runtime_dsn calls dsn)
  unfolding verify_runtime_dsn
  Keeps-verify_runtime_dsn dsn =
      Keeps-bind _ _ (Keeps-step _) (λ _. Keeps-bind _ _ (Keeps-step _) (λ _. Keeps-refuse_if _ _))

  Keeps-write_public : (text : String) → Keeps (On p) (write_public calls text)
  unfolding write_public set_database_file On
  Keeps-write_public text = Keeps-bind _ _ (Keeps-faulty _) (λ _. record { at = λ s h. h })

  Keeps-load_db_config : Keeps (On p) (load_db_config calls)
  unfolding load_db_config
  Keeps-load_db_config = Keeps-bind _ _ (Keeps-wrap_error _ _ (Keeps-step _)) (λ config.
      Keeps-bind _ _ (Keeps-refuse_if _ _)
        (λ _. Keeps-bind _ _ (Keeps-refuse_if _ _) (λ _. Keeps-pass config)))

module _ {X : Type 0} (calls : Calls X) where
  Ends-write_private :
      (text : String) → Ends (On UserOnly) (On Ready) (On UserOnly) (write_private calls text)
  unfolding write_private set_credential On Outcome Ready UserOnly
  Ends-write_private text =
      Ends-bind (On UserOnly) _ _ (Ends-Keeps _ (Keeps-faulty calls UserOnly _))
        (λ _. record { at = λ s h. ((text, refl), h.1) })

  -- A step before which there is nothing to clean up.
  quiet :
      {A B : Type 0} {m : Action (Machine X) A} {f : A → Action (Machine X) B}
      → Keeps (On Clean) m
      → ((a : A) → Ends (On Clean) (On Ready) (On Clean) (f a))
      → Ends (On Clean) (On Ready) (On Clean) (m >>= f)
  quiet k kf = Ends-bind (On Clean) _ _ (Ends-Keeps _ k) kf

  without_credential :
      (o : Option String) (m : Action (Machine X) (Unit {0}))
      (f : String → Action (Machine X) (Unit {0}))
      → o ≡ none
      → Ends (On Clean) (On Ready) (On Clean) m
      → Ends (On Clean) (On Ready) (On Clean) (on_option o m f)
  without_credential none m f h k = k
  without_credential (some text) m f h k = absurd (some≢none h)

  Ends-set_user : Ends (On Clean) (On UserOnly) (On Clean) (set_user calls true)
  unfolding set_user On Outcome Clean UserOnly
  Ends-set_user = record { at = λ s h. (h.0, refl) }

  -- os.Remove does not fail.
  module _ (removes : (x : X) → (calls.remove_fault x).0 ≡ none) where
    remove_credential-UserOnly :
        (s : Machine X)
        → On Ready s
        → Outcome (On UserOnly) (On UserOnly) (remove_credential calls s)
    unfolding remove_credential set_credential faulty ◌>>=◌ On Outcome Ready UserOnly
    remove_credential-UserOnly s h = rw (removes s.outside) (refl, h.1)

    Ends-remove :
        {A : Type 0} (e : Error)
        → Ends {A = A} (On Ready) (On Ready) (On UserOnly) (remove_credential calls >> fail e)
    Ends-remove e =
        Ends-bind (On UserOnly) _ _ (record { at = remove_credential-UserOnly }) (λ _. Ends-fail e)

    Ends-confirm_credential :
        (with_database : Bool) (config : GoEdgeDbConfig) (dsn : String)
        → Ends
            (On Ready)
            (On Ready)
            (On UserOnly)
            (confirm_credential calls with_database config dsn)
    unfolding confirm_credential
    Ends-confirm_credential with_database config dsn =
        Ends-attempt (On Ready) (On Ready) _ _ _
          (Ends-Keeps _ (Keeps-verify_runtime_dsn calls Ready dsn))
          (λ _.
            Ends-if with_database _ _
              (Ends-attempt (On Ready) (On Ready) _ _ _
                (Ends-Keeps _ (Keeps-write_public calls Ready _)) (λ _. Ends-pass tt) Ends-remove)
              (Ends-pass tt))
          Ends-remove

    Ends-grant_and_write :
        (with_database : Bool) (config : GoEdgeDbConfig) (password : String)
        → Ends
            (On UserOnly)
            (On Ready)
            (On UserOnly)
            (grant_and_write calls with_database config password)
    unfolding grant_and_write
    Ends-grant_and_write with_database config password =
        Ends-bind (On UserOnly) _ _ (Ends-Keeps _ (Keeps-faulty calls UserOnly _)) (λ _.
          Ends-bind (On Ready) _ _ (Ends-write_private _)
            (λ _. Ends-confirm_credential with_database config _))

    -- MySQL drops the user when it is asked to.
    module _ (drops : (x : X) → (calls.exec_fault "DROP USER" x).0 ≡ none) where
      drop_user-Clean :
          (s : Machine X) → On UserOnly s → Outcome (On Clean) (On Clean) (drop_user calls s)
      unfolding drop_user set_user faulty ◌>>=◌ On Outcome Clean UserOnly
      drop_user-Clean s h = rw (drops s.outside) (h.0, refl)

      Ends-drop :
          {A : Type 0} (e : Error)
          → Ends {A = A} (On UserOnly) (On Ready) (On Clean) (drop_user calls >> fail e)
      Ends-drop e = Ends-bind (On Clean) _ _ (record { at = drop_user-Clean }) (λ _. Ends-fail e)

      Ends-create_runtime_user :
          (with_database : Bool) (config : GoEdgeDbConfig) (password : String)
          → Ends
              (On Clean)
              (On Ready)
              (On Clean)
              (create_runtime_user calls with_database config password)
      unfolding create_runtime_user
      Ends-create_runtime_user with_database config password =
          Ends-bind (On Clean) _ _ (Ends-Keeps _ (Keeps-faulty calls Clean _)) (λ _.
            Ends-bind (On UserOnly) _ _ (Ends-set_user) (λ _.
              Ends-attempt (On Ready) (On UserOnly) _ _ _
                (Ends-grant_and_write with_database config password) (λ _. Ends-pass tt) Ends-drop))

      Ends-initialize_new :
          (with_database : Bool)
          → Ends (On Clean) (On Ready) (On Clean) (initialize_new calls with_database)
      unfolding initialize_new get
      Ends-initialize_new with_database = quiet (Keeps-load_db_config calls Clean) (λ config.
          quiet (Keeps-step calls Clean _) (λ _. quiet (Keeps-step calls Clean _) (λ _.
            quiet (Keeps-refuse_if _ _) (λ _. quiet (Keeps-faulty calls Clean _) (λ _.
              quiet (record { at = λ s h. h })
                (λ _. quiet (Keeps-refuse_if _ _) (λ _.
                  quiet (Keeps-step calls Clean _) (λ password.
                    Ends-on (least_privilege_sql config.database password) _ _
                      (λ _. Ends-create_runtime_user with_database config password)
                      (λ e. Ends-fail e)))))))))

      first_installation :
          (with_database : Bool)
          → Ends (On Clean) (On Ready) (On Clean) (
              get calls >>= λ machine.
              on_option machine.credential
                (initialize_new calls with_database)
                (λ text. keep_existing calls with_database text))
      unfolding ◌>>=◌ get On Clean
      first_installation with_database = record {
        at = λ s h.
            (without_credential s.credential _ _ h.0 (Ends-initialize_new with_database)).at s h;
      }

  -- From a machine with neither a credential nor the database user, InitializeDatabase ends with both
  -- when it returns no error, and with neither when it returns one, if neither os.Remove nor the
  -- DROP USER fails.
  pub initialize_database-Outcome :
      (with_database : Bool) (s : Machine X)
      → ((x : X) → (calls.remove_fault x).0 ≡ none)
      → ((x : X) → (calls.exec_fault "DROP USER" x).0 ≡ none)
      → On Clean s
      → Outcome (On Ready) (On Clean) (initialize_database calls with_database s)
  unfolding initialize_database
  initialize_database-Outcome with_database s removes drops h =
      (quiet (Keeps-faulty calls Clean _) (λ _. first_installation removes drops with_database)).at
        s h
