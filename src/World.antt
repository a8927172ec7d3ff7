-- ===== src/World.antt =====
-- What a run of the program works on: the SQLite tables, the rollback directory and the outside,
-- that is, the clock, the EdgeAPI, the ACME server, the TLS port, MySQL and the faults of disks.
-- `sent` is a history of the requests that change something outside, newest first; the program does
-- not keep it, the statements about orders and updates read it.
use goedge_ip_cert.Prelude.{ℕ, String, Bool, Option, none, some, List, ◌∷◌}
use goedge_ip_cert.Prelude.Int.{ℤ, pos, negsuc}
use goedge_ip_cert.Prelude.{◌/◌}
use goedge_ip_cert.Error.{Error}
use goedge_ip_cert.Action.{Result, ok, err, Action, lift_option, pass, ◌>>=◌, ◌>>◌}
use goedge_ip_cert.GoEdge.Model.{CertificateInput, CertificateConfig, ServerTarget, SslPolicy}
use goedge_ip_cert.Challenge.Model.{Pending, Store as ChallengeStore}
use goedge_ip_cert.Certificate.{Crypto}
use goedge_ip_cert.Json.{Field}
use goedge_ip_cert.State.Tables.{Tables}

-- rollback.Snapshot
pub record Snapshot : Type 0 where
  pub version : ℤ
  pub operation_id : String
  pub ipv4 : String
  pub cert_id : ℤ
  pub new_fingerprint : String
  pub old_fingerprint : String
  pub old : CertificateInput

-- A file of the rollback directory: its name before and from the last dot, its mode, and the JSON
-- object that is its text.
pub record File : Type 0 where
  pub stem : String
  pub extension : String
  pub is_dir : Bool
  pub is_regular : Bool
  pub is_private : Bool
  pub json : Option (List Field)

pub data Request : Type 0 where
  obtains : String → String → Request
  creates updates : CertificateInput → Request

pub record World (X : Type 0) : Type 0 where
  pub tables : Tables
  pub rollback_dir : List File
  pub sent : List Request
  pub outside : X

-- acme.IssuedCertificate
pub record IssuedCertificate : Type 0 where
  pub certificate : List ℕ
  pub private_key : List ℕ

-- The interfaces through which the program meets the outside: lifecycle.Issuer, EdgeClient,
-- TLSVerifier, CrashHook and challenge.Store; time.Now in nanoseconds; crypto/rand for an operation
-- ID; whether the next SQLite statement or file-system call fails; and the pure functions on
-- certificates.
pub record Outside (X : Type 0) : Type 0 where
  pub now : X → ℤ × X
  pub sql_fault : X → Option Error × X
  pub file_fault : X → Option Error × X
  pub new_operation_id : Action X String
  pub discover_server : String → Action X ServerTarget
  pub policy : ℤ → Action X SslPolicy
  pub create_certificate : CertificateInput → Action X ℤ
  pub update_certificate : CertificateInput → Action X (Unit {0})
  pub certificate : ℤ → Action X CertificateConfig
  pub find_certificate_by_marker : String → ℤ → Action X CertificateConfig
  pub verify_certificate_bound : ℤ → ℤ → Action X (Unit {0})
  -- Obtain presents challenges, so it also writes the journal.
  pub obtain : String → String → Action (List Pending × X) IssuedCertificate
  pub tls_verify : String → String → Action X (Unit {0})
  pub hook : String → X → Option Error × X
  pub challenges : ChallengeStore X
  pub crypto : Crypto
  pub digest : String → ℤ → ℕ

-- Unix seconds of a time in nanoseconds, rounded down.
unfoldable pub unix : ℤ → ℤ
unix (pos n) = pos (n / 1_000_000_000)
unix (negsuc n) = negsuc (n / 1_000_000_000)

module _ {X : Type 0} where
  unfoldable pub external : {A : Type 0} → Action X A → Action (World X) A
  external m w = let (r, x) = m w.outside in (r, record w { outside = x })

  unfoldable pub external_fault : (X → Option Error × X) → Action (World X) (Unit {0})
  unfolding lift_option
  external_fault f w = let (o, x) = f w.outside in lift_option o (record w { outside = x })

  -- The same, with an entry in the history.
  unfoldable pub request : {A : Type 0} → Request → Action X A → Action (World X) A
  request q m w = let (r, x) = m w.outside in (r, record w { outside = x; sent = q ∷ w.sent })

  unfoldable pub get_dir : Action (World X) (List File)
  get_dir w = (ok w.rollback_dir, w)

  unfoldable pub set_dir : List File → Action (World X) (Unit {0})
  set_dir files w = (ok tt, record w { rollback_dir = files })

  -- The end of a transaction: without an error its changes stay, with one the tables are as before.
  unfoldable pub finish : {A : Type 0} → Tables → Result A × World X → Result A × World X
  finish before (ok a, w) = (ok a, w)
  finish before (err e, w) = (err e, record w { tables = before })

module _ {X : Type 0} (o : Outside X) where
  unfoldable pub time_now : Action (World X) ℤ
  time_now w = let (t, x) = o.now w.outside in (ok t, record w { outside = x })

  -- One statement: it fails and changes nothing, or it runs.
  run_statement : {A : Type 0} → Option Error → (Tables → Result A × Tables) → Action (World X) A
  run_statement (some e) f w = (err e, w)
  run_statement none f w = let (r, t) = f w.tables in (r, record w { tables = t })

  unfoldable pub sql : {A : Type 0} → (Tables → Result A × Tables) → Action (World X) A
  unfolding run_statement
  sql f w =
      let (fault, x) = o.sql_fault w.outside in run_statement fault f (record w { outside = x })

  -- A query changes nothing.
  unfoldable pub query : {A : Type 0} → (Tables → Result A) → Action (World X) A
  unfolding sql
  query f = sql (λ t. (f t, t))

  -- BeginTx; body; Commit, with `defer tx.Rollback()`
  unfoldable pub transaction : {A : Type 0} → Action (World X) A → Action (World X) A
  unfolding finish
  transaction body w =
      finish w.tables
        ((do external_fault o.sql_fault; a ← body; external_fault o.sql_fault; pass a) w)

  -- Issuer.Obtain: one ACME order
  unfoldable pub order : String → String → Action (World X) IssuedCertificate
  order id ip w =
      let (r, s) = o.obtain id ip (w.tables.pending_challenges, w.outside) in
      (
        r,
        record w {
          tables = record (w.tables) { pending_challenges = s.0 };
          sent = obtains id ip ∷ w.sent;
          outside = s.1;
        },
      )
