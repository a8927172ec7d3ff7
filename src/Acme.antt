-- ===== src/Acme.antt =====
-- internal/acme/account.go: the key and the metadata of the ACME account, in two files of which either
-- both or none must be there. Keys, registrations, PEM, PKCS#8 and JSON are parameters. A file is written
-- by a rename; what fails after it comes too late for the file.
pub mod Files
use goedge_ip_cert.Prelude.{
  String, ◌<>◌, Bool, true, false, not, ◌&&◌, ◌||◌, Option, none, some, ◌=s=◌, if◌then◌else◌,
}
use goedge_ip_cert.Error.{Error, message, wrapped}
use goedge_ip_cert.Action.{
  Result, Action, ok, err, pass, fail, attempt, on_option, refuse_if, wrap_error, lift_option, on,
  ◌>>=◌, ◌>>◌,
}
use goedge_ip_cert.Security.Secret.{FileInfo}

pub record Account (K R : Type 0) : Type 0 where
  pub email : String
  pub directory_url : String
  pub registration : Option R
  pub private_key : Option K

pub record PrivateFile : Type 0 where
  pub text : String
  pub info : FileInfo

-- The directory of an AccountStore, and the outside.
pub record Directory (X : Type 0) : Type 0 where
  pub key_file : Option PrivateFile
  pub meta_file : Option PrivateFile
  pub outside : X

pub record Calls (X K R : Type 0) : Type 0 where
  pub on_windows : Bool
  pub mkdir_fault : X → Option Error × X
  pub chmod_fault : X → Option Error × X
  -- Lstat and ReadFile of a file that exists
  pub read_fault : X → Option Error × X
  -- writeAtomic up to its rename, and after it
  pub write_fault : X → Option Error × X
  pub sync_fault : X → Option Error × X
  pub generate_key : Action X K
  -- x509.MarshalPKCS8PrivateKey and pem.EncodeToMemory
  pub encode_key : K → Result String
  pub decode_pem : String → Option String
  pub parse_pkcs8 : String → Option K
  pub is_signer : K → Bool
  -- json.MarshalIndent; the key is no part of it.
  pub encode_meta : Account K R → Result String
  pub decode_meta : String → Option (Account K R)

module _ {X K R : Type 0} (calls : Calls X K R) where
  unfoldable pub fault : (X → Option Error × X) → Action (Directory X) (Unit {0})
  unfolding lift_option
  fault f d = let (o, x) = f d.outside in lift_option o (record d { outside = x })

  unfoldable pub generate : Action (Directory X) K
  generate d = let (r, x) = calls.generate_key d.outside in (r, record d { outside = x })

  unfoldable pub get_directory : Action (Directory X) (Directory X)
  get_directory d = (ok d, d)

  -- readPrivateFile; no text stands for os.ErrNotExist.
  unfoldable pub read_private_file : Option PrivateFile → Action (Directory X) (Option String)
  unfolding fault
  read_private_file none = pass none
  read_private_file (some file) = do
    fault calls.read_fault
    refuse_if (not file.info.is_regular) (message "the path of the account is no regular file")
    refuse_if (not calls.on_windows && file.info.is_shared) (message "the mode must be 0600")
    pass (some file.text)

  abbrev private : String → PrivateFile
  private text = record { text = text; info = record { is_regular = true; is_shared = false } }

  unfoldable pub put_key : String → Action (Directory X) (Unit {0})
  put_key text d = (ok tt, record d { key_file = some (private text) })

  unfoldable pub put_meta : String → Action (Directory X) (Unit {0})
  put_meta text d = (ok tt, record d { meta_file = some (private text) })

  -- writeAtomic
  unfoldable pub write_atomic : Action (Directory X) (Unit {0}) → Action (Directory X) (Unit {0})
  unfolding fault
  write_atomic rename = do fault calls.write_fault; rename; fault calls.sync_fault

  unfoldable pub lift_result : {A : Type 0} → Result A → Action (Directory X) A
  lift_result r d = (r, d)

  unfoldable pub accept_account : String → String → K → Account K R → Result (Account K R)
  accept_account email directory_url key account =
      if not (account.email =s= email) || not (account.directory_url =s= directory_url)
      then err (message "the metadata do not fit the configuration")
      else ok (record account { private_key = some key })

  -- loadAccount
  unfoldable pub load_account : String → String → String → String → Result (Account K R)
  unfolding accept_account
  load_account key_pem meta email directory_url =
      on_option (calls.decode_pem key_pem) (err (message "the PEM of the key is invalid")) (λ der.
        on_option (calls.parse_pkcs8 der) (err (message "the key is invalid")) (λ key.
          if not (calls.is_signer key)
          then err (message "the key cannot sign")
          else on_option (calls.decode_meta meta) (err (message "the metadata are invalid"))
              (λ account. accept_account email directory_url key account)))

  unfoldable pub new_account : String → String → K → Account K R
  new_account email directory_url key = record {
    email = email;
    directory_url = directory_url;
    registration = none;
    private_key = some key;
  }

  unfoldable pub create_account : String → String → Action (Directory X) (Account K R)
  unfolding new_account write_atomic put_key put_meta lift_result generate
  create_account email directory_url = do
    key ← wrap_error (wrapped "generate the account key") generate
    pem ← lift_result (calls.encode_key key)
    let account = new_account email directory_url key
    write_atomic (put_key pem)
    write_atomic (put_meta (on (calls.encode_meta account) (λ text. text) (λ e. "")))
    pass account

  -- What LoadOrCreate does with the two files.
  unfoldable pub load_both :
      String
      → String
      → Result (Option String)
      → Result (Option String)
      → Action (Directory X) (Account K R)
  unfolding load_account create_account lift_result
  load_both email directory_url (ok (some key)) (ok (some meta)) =
      lift_result (load_account key meta email directory_url)
  load_both email directory_url (ok none) (ok none) = create_account email directory_url
  load_both email directory_url key meta = fail (message "the key and the metadata must both exist")

  unfoldable pub load_or_create : String → String → Action (Directory X) (Account K R)
  unfolding load_both read_private_file get_directory fault
  load_or_create email directory_url = do
    refuse_if (email =s= "" || directory_url =s= "") (message "the email or the directory is empty")
    wrap_error (wrapped "make the account directory") (fault calls.mkdir_fault)
    if calls.on_windows then pass tt else fault calls.chmod_fault
    directory ← get_directory
    key ← attempt (read_private_file directory.key_file)
    meta ← attempt (read_private_file directory.meta_file)
    load_both email directory_url key meta

  unfoldable pub is_complete : Account K R → Bool
  is_complete account =
      on_option account.private_key false
        (λ key. not (account.email =s= "") && not (account.directory_url =s= ""))

  -- Save
  unfoldable pub save : Option (Account K R) → Action (Directory X) (Unit {0})
  unfolding is_complete write_atomic put_meta lift_result
  save none = fail (message "the account is incomplete")
  save (some account) = do
    refuse_if (not (is_complete account)) (message "the account is incomplete")
    meta ← lift_result (calls.encode_meta account)
    write_atomic (put_meta meta)
