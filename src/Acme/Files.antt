-- ===== src/Acme/Files.antt =====
-- When LoadOrCreate refuses the directory of the account.
use goedge_ip_cert.Prelude.{◌≡◌, refl, sym, String, Option, none, some}
use goedge_ip_cert.Error.{Error}
use goedge_ip_cert.Action.{Result, ok, err, attempt, ◌>>=◌}
use goedge_ip_cert.Action.Keeps.{
  Keeps, Keeps-lift_option, Keeps-bind, Keeps-refuse_if, Keeps-pass, Keeps-wrap_error, Keeps-if,
}
use goedge_ip_cert.Action.Returns.{Returns, Returns-then, Returns-pass}
use goedge_ip_cert.Action.Ends.{Outcome, Ends, Ends-bind, Ends-Keeps, Ends-fail, Ends-look}
use goedge_ip_cert.Acme.{
  PrivateFile, Directory, Calls, fault, get_directory, read_private_file, load_both, load_or_create,
}

-- One of the two files is there without the other.
unfoldable pub IsTorn : Option PrivateFile → Option PrivateFile → Type 0
IsTorn none (some file) = Unit {0}
IsTorn (some file) none = Unit {0}
IsTorn none none = ⊥
IsTorn (some key) (some meta) = ⊥

unfoldable pub HasFiles :
    {X : Type 0} → Option PrivateFile → Option PrivateFile → Directory X → Type 0
HasFiles key meta d = (d.key_file ≡ key) × (d.meta_file ≡ meta)

-- No state at all.
unfoldable pub Never : {X : Type 0} → Directory X → Type 0
Never d = ⊥

-- Whether readPrivateFile may find the file missing.
Fits : Option PrivateFile → Option String → Type 0
Fits none text = text ≡ none
Fits (some file) text = (t : String) × (text ≡ some t)

none≢some : {A : Type 0} {a : A} → none ≡ some a → ⊥
none≢some h = cc

IsTorn-both :
    (key meta : Option PrivateFile) (k m : String)
    → IsTorn key meta
    → Fits key (some k)
    → Fits meta (some m)
    → ⊥
unfolding Fits IsTorn
IsTorn-both none (some file) k m torn fk fm = none≢some (sym fk)
IsTorn-both (some file) none k m torn fk fm = none≢some (sym fm)
IsTorn-both none none k m torn fk fm = torn
IsTorn-both (some file) (some file') k m torn fk fm = torn

IsTorn-neither :
    (key meta : Option PrivateFile) → IsTorn key meta → Fits key none → Fits meta none → ⊥
unfolding Fits IsTorn
IsTorn-neither none (some file) torn fk fm = none≢some fm.1
IsTorn-neither (some file) none torn fk fm = none≢some fk.1
IsTorn-neither none none torn fk fm = torn
IsTorn-neither (some file) (some file') torn fk fm = torn

module _ {X K R : Type 0} (calls : Calls X K R) (key meta : Option PrivateFile) where
  Keeps-fault : (f : X → Option Error × X) → Keeps (HasFiles key meta) (fault calls f)
  unfolding fault HasFiles
  Keeps-fault f = record {
    at = λ d h. (Keeps-lift_option {P = HasFiles key meta} (f d.outside).0).at _ h;
  }

  Keeps-read :
      (file : Option PrivateFile) → Keeps (HasFiles key meta) (read_private_file calls file)
  unfolding read_private_file
  Keeps-read none = Keeps-pass none
  Keeps-read (some file) = Keeps-bind _ _ (Keeps-fault _) (λ _.
      Keeps-bind _ _ (Keeps-refuse_if _ _)
        (λ _. Keeps-bind _ _ (Keeps-refuse_if _ _) (λ _. Keeps-pass _)))

  read-Fits : (file : Option PrivateFile) → Returns (Fits file) (read_private_file calls file)
  unfolding read_private_file Fits
  read-Fits none = Returns-pass none refl
  read-Fits (some file) =
      Returns-then _ _
        (λ _. Returns-then _ _ (λ _. Returns-then _ _ (λ _. Returns-pass _ (file.text, refl))))

  refused_both :
      (email directory_url : String) (k m : Result (Option String))
      → IsTorn key meta
      → ((a : Option String) → k ≡ ok a → Fits key a)
      → ((a : Option String) → m ≡ ok a → Fits meta a)
      → Ends (HasFiles key meta) Never (HasFiles key meta) (load_both calls email directory_url k m)
  unfolding load_both
  refused_both email url (ok (some k)) (ok (some m)) torn fk fm =
      absurd (IsTorn-both key meta k m torn (fk _ refl) (fm _ refl))
  refused_both email url (ok none) (ok none) torn fk fm =
      absurd (IsTorn-neither key meta torn (fk _ refl) (fm _ refl))
  refused_both email url (ok none) (ok (some m)) torn fk fm = Ends-fail _
  refused_both email url (ok (some k)) (ok none) torn fk fm = Ends-fail _
  refused_both email url (ok none) (err e) torn fk fm = Ends-fail _
  refused_both email url (ok (some k)) (err e) torn fk fm = Ends-fail _
  refused_both email url (err e) (ok none) torn fk fm = Ends-fail _
  refused_both email url (err e) (ok (some m)) torn fk fm = Ends-fail _
  refused_both email url (err e) (err e') torn fk fm = Ends-fail _

  read_files :
      (email directory_url : String)
      → IsTorn key meta
      → Ends (HasFiles key meta) Never (HasFiles key meta) (
          get_directory calls >>= λ directory.
          attempt (read_private_file calls directory.key_file) >>= λ k.
          attempt (read_private_file calls directory.meta_file) >>= λ m.
          load_both calls email directory_url k m)
  unfolding get_directory ◌>>=◌ HasFiles
  read_files email url torn = record {
    at = λ d h. (known_files d.key_file d.meta_file h.0 h.1).at d h;
  }
    where
      known_files :
          (k m : Option PrivateFile)
          → k ≡ key
          → m ≡ meta
          → Ends (HasFiles key meta) Never (HasFiles key meta) (
              attempt (read_private_file calls k) >>= λ r.
              attempt (read_private_file calls m) >>= λ r'. load_both calls email url r r')
      known_files k m p q =
          rw (p, q)
            (Ends-look (Fits key) _ _ (Keeps-read key) (read-Fits key) (λ r fk.
              Ends-look (Fits meta) _ _ (Keeps-read meta) (read-Fits meta)
                (λ r' fm. refused_both email url r r' torn fk fm)))

-- When exactly one of the two files exists, as after a LoadOrCreate that wrote the key and not the
-- metadata, LoadOrCreate returns an error and leaves both files as they are, whatever the outside
-- answers.
pub load_or_create-IsTorn :
    {X K R : Type 0} (calls : Calls X K R) (email directory_url : String) (d : Directory X)
    → IsTorn d.key_file d.meta_file
    → Outcome Never (HasFiles d.key_file d.meta_file) (load_or_create calls email directory_url d)
unfolding load_or_create HasFiles
load_or_create-IsTorn calls email url d torn = whole.at d (refl, refl)
  where
    key : Option PrivateFile
    key = d.key_file

    meta : Option PrivateFile
    meta = d.meta_file

    whole : Ends (HasFiles key meta) Never (HasFiles key meta) (load_or_create calls email url)
    whole = Ends-bind (HasFiles key meta) _ _ (Ends-Keeps _ (Keeps-refuse_if _ _)) (λ _.
        Ends-bind (HasFiles key meta) _ _
          (Ends-Keeps _ (Keeps-wrap_error _ _ (Keeps-fault calls key meta _)))
          (λ _.
            Ends-bind (HasFiles key meta) _ _
              (Ends-Keeps _
                (Keeps-if calls.on_windows _ _ (Keeps-pass tt) (Keeps-fault calls key meta _)))
              (λ _. read_files calls key meta email url torn)))
