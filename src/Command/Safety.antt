-- ===== src/Command/Safety.antt =====
-- What the command run-once can and cannot do, whatever the configuration and the outside.
use goedge_ip_cert.Prelude.{
  ℕ, ◌+◌, ◌≤◌, ◌≡◌, refl, String, Bool, true, false, Option, none, some, Option-cases, inl, inr,
  arith, if◌then◌else◌, not, ◌||◌, ◌⊎◌, sym, ◌∙◌, ◌=s=◌, eq_iff, Bool-cases,
}
use goedge_ip_cert.Error.{Error}
use goedge_ip_cert.Action.{Action, fail, on_option}
use goedge_ip_cert.Action.Success.{Result-cases}
use goedge_ip_cert.Action.Keeps.{Keeps, Keeps-bind, Keeps-fail, Keeps-pass, keeps_rules}
use goedge_ip_cert.World.{World, Outside}
use goedge_ip_cert.Config.{Config, Net, is_local_host}
use goedge_ip_cert.Config.Accepted.{IsLocalHost, IsLocalHost-cases}
use goedge_ip_cert.Lifecycle.Model.{RunMode}
use goedge_ip_cert.Lifecycle.Sent.{orders, quiet, Placed}
use goedge_ip_cert.Lifecycle.Placing.{
  Places, Places-then, Places-first, Places-if, Places-quiet, run_once-Places,
}
use goedge_ip_cert.Lifecycle.Dry.{Same, Same-refl, dry_run-Keeps}
use goedge_ip_cert.Command.{
  Setup, RunFlags, Dsn, open_tables, prepare_run, run_mode, dry_runner, complete, apply_run,
  look_run, run_command, run_once_command, validate_dsn, is_unsafe, is_local_database,
}

-- The rollback directory and the history are those of `w`.
pub record Unsent {X : Type 0} (w w' : World X) : Type 0 where
  pub rollback_dir : w'.rollback_dir ≡ w.rollback_dir
  pub sent : w'.sent ≡ w.sent

module _ {X : Type 0} (o : Outside X) (setup : Setup X) where
  look-Same : (w : World X) (c : Config) (mode : RunMode) → Keeps (Same w) (look_run o setup c mode)
  unfolding look_run
  look-Same w c mode =
      Keeps-bind _ _ (dry_run-Keeps o (dry_runner c mode) w c.ipv4) λ r. search keeps_rules

  open_tables-Placed : (k : ℕ) (path : String) → Keeps (Placed k) (open_tables setup path)
  unfolding open_tables
  open_tables-Placed k path = record { at = λ w h. h }

  prepare_run-Placed : (k : ℕ) (path : String) → Keeps (Placed k) (prepare_run setup path)
  unfolding prepare_run
  prepare_run-Placed k path = Keeps-bind _ _ ((quiet o k).external_kept _) (λ c.
      Keeps-bind _ _ (open_tables-Placed k _)
        (λ _. Keeps-bind _ _ ((quiet o k).external_kept _) (λ _. Keeps-pass c)))

  apply-Places : (c : Config) (mode : RunMode) → Places 1 (apply_run o setup c mode)
  unfolding apply_run
  apply-Places c mode =
      Places-then 1 _ _ (λ k. (quiet o k).external_kept _)
        λ reference.
          Places-first 1 _ _ (run_once-Places o (complete (dry_runner c mode) reference) c.ipv4)
            λ k _. Keeps-pass _

  look-Places : (c : Config) (mode : RunMode) → Places 1 (look_run o setup c mode)
  look-Places c mode = record {
    at = λ w.
        (let s = (look-Same w c mode).at w (Same-refl w) in let e = s.sent in rw e (omega arith));
  }

  command-Places :
      (path : String) (apply : Bool) (mode : RunMode)
      → Places 1 (run_command o setup path apply mode)
  unfolding run_command
  command-Places path apply mode =
      Places-then 1 _ _ (λ k. prepare_run-Placed k path)
        λ c. Places-if 1 apply _ _ (apply-Places c mode) (look-Places c mode)

  -- The command run-once places at most one ACME order, with any flags, whatever the configuration and
  -- the outside answer.
  pub orders-run_once_command :
      (path : String) (flags : RunFlags) (w : World X)
      → orders (run_once_command o setup path flags w).1.sent ≤ 1 + orders w.sent
  unfolding run_once_command
  orders-run_once_command path flags w = elim (Result-cases (run_mode flags)) [
    | inl (mode, e) ↦ rw e ((command-Places path flags.apply mode).at w)
    | inr (x, e) ↦ rw e ((Places-quiet 1 (fail x) (λ k. Keeps-fail x)).at w)
  ]

true≢false : true ≡ false → ⊥
true≢false h = cc

opposite : {b : Bool} → not b ≡ true → b ≡ false
opposite h = ground arith

-- A Unix socket, or TCP to localhost or a loopback address.
pub LocalAddress : Net → Dsn → Type 0
LocalAddress net dsn =
    ((dsn.net ≡ "unix") × (dsn.addr ≡ "" → ⊥))
    ⊎ (((dsn.net ≡ "tcp") ⊎ ((dsn.net ≡ "tcp4") ⊎ (dsn.net ≡ "tcp6")))
        × ((host : String) × (dsn.host ≡ some host) × IsLocalHost net host))

-- The DSN is read, names the database of the configuration, has none of the forbidden options, and
-- leads to a local address.
pub record LocalDsn (net : Net) (name : String) (dsn : Option Dsn) : Type 0 where
  pub read : Dsn
  pub is_read : dsn ≡ some read
  pub names_database : read.db_name ≡ name
  pub has_name : read.db_name ≡ "" → ⊥
  pub one_statement : read.multi_statements ≡ false
  pub no_files : read.allow_all_files ≡ false
  pub no_cleartext : read.allow_cleartext_passwords ≡ false
  pub is_local : LocalAddress net read

four :
    (d a b c : Bool) (w x z : Error)
    → (if not d || a then some w else if b then some x else if c then none else some z) ≡ none
    → (d ≡ true) × (a ≡ false) × (b ≡ false) × (c ≡ true)
four d a b c w x z h = ground arith

no_option : (a b c : Bool) → (a || b || c) ≡ false → (a ≡ false) × (b ≡ false) × (c ≡ false)
no_option a b c h = ground arith

different : (a b : String) → (a =s= b) ≡ false → a ≡ b → ⊥
different a b h e = true≢false (sym ((eq_iff a b).1 e) ∙ h)

known_host :
    (net : Net) (o : Option String)
    → on_option o false (λ host. is_local_host net host) ≡ true
    → (host : String) × (o ≡ some host) × IsLocalHost net host
known_host net none h = absurd cc
known_host net (some host) h = (host, refl, IsLocalHost-cases net host h)

tcp_cases : (a b c : Bool) → (a || b || c) ≡ true → (a ≡ true) ⊎ ((b ≡ true) ⊎ (c ≡ true))
tcp_cases true b c h = inl refl
tcp_cases false true c h = inr (inl refl)
tcp_cases false false c h = inr (inr h)

tcp_net :
    (dsn : Dsn)
    → (dsn.net =s= "tcp" || dsn.net =s= "tcp4" || dsn.net =s= "tcp6") ≡ true
    → (dsn.net ≡ "tcp") ⊎ ((dsn.net ≡ "tcp4") ⊎ (dsn.net ≡ "tcp6"))
tcp_net dsn h = elim (tcp_cases _ _ _ h) [
  | inl e ↦ inl ((eq_iff dsn.net "tcp").0 e)
  | inr (inl e) ↦ inr (inl ((eq_iff dsn.net "tcp4").0 e))
  | inr (inr e) ↦ inr (inr ((eq_iff dsn.net "tcp6").0 e))
]

is_local_database-LocalAddress :
    (net : Net) (dsn : Dsn) → is_local_database net dsn ≡ true → LocalAddress net dsn
unfolding is_local_database LocalAddress
is_local_database-LocalAddress net dsn h = elim (Bool-cases (dsn.net =s= "unix")) [
  | inl e ↦ inl (
    (eq_iff dsn.net "unix").0 e,
    different dsn.addr "" (opposite (rw (e, is_local_database) at h)),
  )
  | inr e ↦ elim (Bool-cases (dsn.net =s= "tcp" || dsn.net =s= "tcp4" || dsn.net =s= "tcp6")) [
    | inl f ↦ inr (tcp_net dsn f, known_host net dsn.host (rw (e, f, is_local_database) at h))
    | inr f ↦ absurd (true≢false (sym (rw (e, f, is_local_database) at h)))
  ]
]

-- A DSN that validateDSN accepts names the database of the configuration, has neither multiStatements
-- nor allowAllFiles nor cleartext passwords, and leads to a Unix socket or, by TCP, to localhost or a
-- loopback address.
pub validate_dsn-LocalDsn :
    (net : Net) (parse_dsn : String → Option Dsn) (value name : String)
    → validate_dsn net parse_dsn value name ≡ none
    → LocalDsn net name (parse_dsn value)
unfolding validate_dsn is_unsafe
validate_dsn-LocalDsn net parse_dsn value name h = elim (Option-cases (parse_dsn value)) [
  | inl e ↦ absurd (let g = rw e at h in cc)
  | inr (dsn, e) ↦
      let t = four _ _ _ _ _ _ _ (rw e at h) in
      let options = no_option _ _ _ t.2 in
      record {
        read = dsn;
        is_read = e;
        names_database = (eq_iff dsn.db_name name).0 t.0;
        has_name = different dsn.db_name "" t.1;
        one_statement = options.0;
        no_files = options.1;
        no_cleartext = options.2;
        is_local = is_local_database-LocalAddress net dsn t.3;
      }
]
