-- ===== src/Rollback.antt =====
-- internal/rollback/store.go: the snapshots of replaced certificates, one file for each operation.
-- Encoding has the JSON of a snapshot. The calls on the temporary file up to the rename are one fault, since the temporary file is removed
-- when one of them fails; the sync of the directory is another, after the file is in place.
pub mod Encoding
pub mod RoundTrip
use goedge_ip_cert.Prelude.{
  ℕ, String, Bool, true, false, not, ◌&&◌, ◌||◌, Option, none, some, List, [], ◌∷◌, ◌++◌, length,
  leb, ◌==◌, ◌=s=◌, if◌then◌else◌,
}
use Prim.Native.Nat.{Ordering}
use Prim.Native.String.{compare}
use goedge_ip_cert.Json.{Field}
use goedge_ip_cert.Rollback.Encoding.{encode_snapshot, decode_snapshot}
use goedge_ip_cert.Prelude.Int.{pos, eq_ℤ, not_positive}
use goedge_ip_cert.Error.{Error, message}
use goedge_ip_cert.Action.{ok, Action, pass, fail, on_option, refuse_if, ◌>>=◌, ◌>>◌}
use goedge_ip_cert.Ipv4.{codes}
use goedge_ip_cert.GoEdge.Model.{CertificateInput}
use goedge_ip_cert.World.{World, Outside, Snapshot, File, external_fault, get_dir, set_dir}
use goedge_ip_cert.State.Tables.{any, delete, select, order_by}

abbrev is_hex : ℕ → Bool
is_hex c = leb b'a' c && leb c b'f' || leb b'0' c && leb c b'9'

all_hex : List ℕ → Bool
all_hex [] = true
all_hex (c ∷ cs) = is_hex c && all_hex cs

-- `^[a-f0-9]{32}$`
unfoldable pub is_operation_id : String → Bool
unfolding all_hex
is_operation_id id = length (codes id) == 32 && all_hex (codes id)

abbrev is_empty {ℓ} : {A : Type ℓ} → List A → Bool
is_empty [] = true
is_empty (_ ∷ _) = false

-- what validate refuses
unfoldable pub is_incomplete : Snapshot → Bool
unfolding is_operation_id
is_incomplete s =
    not (eq_ℤ s.version (pos 1))
    || not (is_operation_id s.operation_id)
    || s.ipv4 =s= ""
    || not_positive s.cert_id
    || s.new_fingerprint =s= ""
    || s.old_fingerprint =s= ""
    || not (eq_ℤ s.old.id s.cert_id)
    || is_empty s.old.cert_data
    || is_empty s.old.key_data

abbrev pub incomplete : Error
incomplete = message "rollback snapshot fields are incomplete"

abbrev pub new_snapshot : String → String → String → String → CertificateInput → Snapshot
new_snapshot operation_id ip new_fingerprint old_fingerprint old = record {
  version = pos 1;
  operation_id = operation_id;
  ipv4 = ip;
  cert_id = old.id;
  new_fingerprint = new_fingerprint;
  old_fingerprint = old_fingerprint;
  old = old;
}

abbrev pub has_stem : String → File → Bool
has_stem id f = f.stem =s= id && f.extension =s= ".json"

abbrev pub read_json : Option (List Field) → Option Snapshot
read_json text = on_option text none (λ fields. decode_snapshot fields)

abbrev pub snapshot_file : Snapshot → File
snapshot_file s = record {
  stem = s.operation_id;
  extension = ".json";
  is_dir = false;
  is_regular = true;
  is_private = true;
  json = some (encode_snapshot s);
}

-- `entry.IsDir() || filepath.Ext(entry.Name()) != ".json"`, and a name that is no operation ID
abbrev is_unknown_entry : File → Bool
is_unknown_entry f = f.is_dir || not (f.extension =s= ".json") || not (is_operation_id f.stem)

abbrev text_le : String → String → Bool
text_le a b = elim (compare a b) [ Ordering.gt ↦ false | _ ↦ true ]

abbrev stems : List File → List String
stems [] = []
stems (f ∷ fs) = f.stem ∷ stems fs

module _ {X : Type 0} (o : Outside X) where
  unfoldable pub save : Snapshot → Action (World X) (Unit {0})
  unfolding is_incomplete
  save s = do
    refuse_if (is_incomplete s) incomplete
    external_fault o.file_fault
    files ← get_dir
    set_dir (delete (has_stem s.operation_id) files ++ snapshot_file s ∷ [])
    external_fault o.file_fault

  unfoldable pub check_file : Option File → Action (World X) File
  check_file none = fail (message "rollback snapshot does not exist")
  check_file (some f) = do
    refuse_if (not f.is_regular || not f.is_private)
        (message "rollback snapshot must be a regular 0600 file")
    pass f

  unfoldable pub check_json : Option Snapshot → Action (World X) Snapshot
  check_json none = fail (message "rollback snapshot JSON is invalid")
  check_json (some s) = do refuse_if (is_incomplete s) incomplete; pass s

  unfoldable pub load : String → Action (World X) Snapshot
  unfolding check_file check_json
  load id = do
    refuse_if (not (is_operation_id id)) (message "rollback operation ID is invalid")
    external_fault o.file_fault
    files ← get_dir
    file ← check_file (select (has_stem id) files)
    external_fault o.file_fault
    snapshot ← check_json (read_json file.json)
    refuse_if (not (snapshot.operation_id =s= id))
        (message "rollback filename and operation ID differ")
    pass snapshot

  unfoldable pub load_all : List String → Action (World X) (List Snapshot)
  load_all [] = pass []
  load_all (id ∷ ids) = do snapshot ← load id; rest ← load_all ids; pass (snapshot ∷ rest)

  unfoldable pub list : Action (World X) (List Snapshot)
  list = do
    external_fault o.file_fault
    files ← get_dir
    refuse_if (any is_unknown_entry files) (message "unknown entry in the rollback directory")
    load_all (order_by text_le (stems files))

  remove_file : String → List File → Action (World X) (Unit {0})
  remove_file id files = do set_dir (delete (has_stem id) files); external_fault o.file_fault

  unfoldable pub remove : String → Action (World X) (Unit {0})
  unfolding remove_file
  remove id = do
    refuse_if (not (is_operation_id id)) (message "rollback operation ID is invalid")
    external_fault o.file_fault
    files ← get_dir
    if any (has_stem id) files then remove_file id files else pass tt
