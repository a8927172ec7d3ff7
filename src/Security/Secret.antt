-- ===== src/Security/Secret.antt =====
-- internal/security/secret.go: where a secret is read from. The environment and the files are parameters.
use Prim.Native.Char.{code}
use goedge_ip_cert.Prelude.{String, Bool, not, ◌&&◌, ◌||◌, Option, ◌=s=◌, if◌then◌else◌}
use goedge_ip_cert.Error.{message, wrapped}
use goedge_ip_cert.Action.{Action, pass, fail, on_option, refuse_if, wrap_error, ◌>>=◌, ◌>>◌}
use goedge_ip_cert.Ipv4.{is_space}

pub record SecretRef : Type 0 where
  pub file : String
  pub env : String

-- What os.Lstat says of a file: whether it is regular, and whether Perm()&0o077 is not 0.
pub record FileInfo : Type 0 where
  pub is_regular : Bool
  pub is_shared : Bool

pub record Secrets (X : Type 0) : Type 0 where
  pub lookup_env : String → Action X (Option String)
  pub lstat : String → Action X FileInfo
  pub read_file : String → Action X String
  pub on_windows : Bool

unfoldable pub trim_left : String → String
trim_left String.[] = ""
trim_left (String.◌∷◌ c s) =
    let rest = trim_left s in if is_space (code c) then rest else String.◌∷◌ c s

unfoldable pub trim_right : String → String
trim_right String.[] = ""
trim_right (String.◌∷◌ c s) =
    let rest = trim_right s in if rest =s= "" && is_space (code c) then "" else String.◌∷◌ c rest

-- strings.TrimSpace
unfoldable pub trim_space : String → String
unfolding trim_left trim_right
trim_space s = trim_right (trim_left s)

module _ {X : Type 0} (secrets : Secrets X) where
  unfoldable pub load_env : String → Action X String
  load_env name = do
    value ← secrets.lookup_env name
    on_option value (fail (message "the environment variable is not set")) λ text.
        if text =s= "" then fail (message "the environment variable is not set") else pass text

  unfoldable pub load_file : String → Action X String
  unfolding trim_space
  load_file file = do
    info ← wrap_error (wrapped "stat secret file") (secrets.lstat file)
    refuse_if (not info.is_regular) (message "the secret is no regular file")
    refuse_if (not secrets.on_windows && info.is_shared) (message "the secret file must be 0600")
    raw ← wrap_error (wrapped "read secret file") (secrets.read_file file)
    refuse_if (trim_space raw =s= "") (message "the secret file is empty")
    pass (trim_space raw)

  -- SecretRef.Load
  unfoldable pub load_secret : SecretRef → Action X String
  unfolding load_env load_file
  load_secret ref = do
    refuse_if (ref.file =s= "" && ref.env =s= "" || not (ref.file =s= "") && not (ref.env =s= ""))
        (message "a secret needs a file or an environment variable")
    if not (ref.env =s= "") then load_env ref.env else load_file ref.file
