-- ===== src/Challenge/MySql/Guard/Columns.antt =====
-- The columns and the indexes that CheckSchema accepts, and what its tests say of them.
use mathlib.Core.List.{Memᴰ}
use mathlib.Core.List.Memᴰ.{cases_cons}
use goedge_ip_cert.Ipv4.{codes}
use goedge_ip_cert.Text.{mentions, equals_lower}
use goedge_ip_cert.Prelude.{
  ◌⊎◌, inl, inr, ◌&&◌, ◌∷◌, Option, none, some, ◌=s=◌, eq_iff, ==_iff, Bool-cases, ◌≡◌, refl, ap,
  String, Bool, true, false, not, List, [], ◌==◌, ◌||◌, arith,
}
use goedge_ip_cert.Action.{ok}
use goedge_ip_cert.Challenge.MySql.Schema.{
  Expected, varchar, counter, id_expected, is_zero, put_column, fits, fits_one, find_column,
  ColumnInfo, IndexInfo, SchemaReader, column_map, fits_all, expected_columns, has_primary_id,
  has_token_index,
}

-- One of the rows is the column with this name, type and nullability.
pub record HasColumn (rows : List ColumnInfo) (name data_type nullable : String) : Type 0 where
  pub column : ColumnInfo
  pub listed : Memᴰ column rows
  pub has_name : column.name ≡ name
  pub has_type : column.data_type ≡ data_type
  pub has_nullable : column.nullable ≡ nullable

-- The number is unsigned.
pub IsUnsigned : ColumnInfo → Type 0
IsUnsigned column = mentions (codes "unsigned") (codes column.column_type) ≡ true

pub DefaultsToZero : ColumnInfo → Type 0
DefaultsToZero column = column.default_value ≡ some "0"

-- The text has room for so many characters.
pub IsTyped : String → ColumnInfo → Type 0
IsTyped type column = equals_lower (codes type) (codes column.column_type) ≡ true

pub record HasNumber (rows : List ColumnInfo) (name : String) : Type 0 where
  pub found : HasColumn rows name "bigint" "YES"
  pub unsigned : IsUnsigned found.column
  pub from_zero : DefaultsToZero found.column

pub record HasText (rows : List ColumnInfo) (name type : String) : Type 0 where
  pub found : HasColumn rows name "varchar" "YES"
  pub typed : IsTyped type found.column

pub record HasId (rows : List ColumnInfo) : Type 0 where
  pub found : HasColumn rows "id" "bigint" "NO"
  pub unsigned : IsUnsigned found.column
  pub increments : mentions (codes "auto_increment") (codes found.column.extra) ≡ true

pub HasPrimaryId : List IndexInfo → Type 0
HasPrimaryId indexes =
    (i : IndexInfo) × Memᴰ i indexes
    × (i.name ≡ "PRIMARY")
    × (i.non_unique ≡ 0)
    × (i.sequence ≡ 1)
    × (i.column ≡ "id")

pub HasTokenIndex : List IndexInfo → Type 0
HasTokenIndex indexes = (i : IndexInfo) × Memᴰ i indexes × (i.column ≡ "token") × (i.sequence ≡ 1)

-- The columns and the indexes that the database has returned.
pub record Acceptable {X : Type 0} (reader : SchemaReader X) : Type 0 where
  pub columns : List ColumnInfo
  pub asked : X
  pub read_columns : (reader.columns asked).0 ≡ ok columns
  pub id : HasId columns
  pub task_id : HasNumber columns "taskId"
  pub domain : HasText columns "domain" "varchar(255)"
  pub token : HasText columns "token" "varchar(255)"
  pub key : HasText columns "key" "varchar(1024)"
  pub created_at : HasNumber columns "createdAt"
  pub indexes : List IndexInfo
  pub asked_again : X
  pub read_indexes : (reader.indexes asked_again).0 ≡ ok indexes
  pub primary : HasPrimaryId indexes
  pub token_index : HasTokenIndex indexes

put_column-Mem :
    (column c : ColumnInfo) (columns : List ColumnInfo)
    → Memᴰ c (put_column column columns)
    → (c ≡ column) ⊎ Memᴰ c columns
unfolding put_column
put_column-Mem column c [] m = elim (cases_cons m) [ inl e ↦ inl e | inr t ↦ elim t [ ] ]
put_column-Mem column c (d ∷ columns) m = elim (Bool-cases (d.name =s= column.name)) [
  | inl e ↦ elim (cases_cons (rw (e, put_column) at m)) [
    | inl p ↦ inl p
    | inr t ↦ inr (Memᴰ.tail t)
  ]
  | inr e ↦ elim (cases_cons (rw (e, put_column) at m)) [
    | inl p ↦ inr (Memᴰ.head p)
    | inr t ↦ elim (put_column-Mem column c columns t) [ inl p ↦ inl p | inr q ↦ inr (Memᴰ.tail q) ]
  ]
]

column_map-Mem :
    (done columns : List ColumnInfo) (c : ColumnInfo)
    → Memᴰ c (column_map done columns)
    → Memᴰ c done ⊎ Memᴰ c columns
unfolding column_map
column_map-Mem done [] c m = inl m
column_map-Mem done (column ∷ columns) c m =
    elim (column_map-Mem (put_column column done) columns c m) [
      | inr t ↦ inr (Memᴰ.tail t)
      | inl p ↦ elim (put_column-Mem column c done p) [ inl e ↦ inr (Memᴰ.head e) | inr q ↦ inl q ]
    ]

fits_one-found :
    (columns : List ColumnInfo) (want : Expected)
    → fits_one columns want ≡ true
    → (c : ColumnInfo) × Memᴰ c columns × (c.name ≡ want.name) × (fits want c ≡ true)
unfolding fits_one find_column
fits_one-found [] want h = absurd cc
fits_one-found (c ∷ columns) want h = elim (Bool-cases (c.name =s= want.name)) [
  | inl e ↦ (c, Memᴰ.head refl, (eq_iff c.name want.name).0 e, rw (e, fits_one, find_column) at h)
  | inr e ↦
      let r = fits_one-found columns want (rw (e, fits_one, find_column) at h) in
      (r.0, Memᴰ.tail r.1, r.2, r.3)
]

six :
    (a b c d e f : Bool)
    → (a && b && c && d && e && f) ≡ true
    → (a ≡ true) × (b ≡ true) × (c ≡ true) × (d ≡ true) × (e ≡ true) × (f ≡ true)
six a b c d e f h = ground arith

seven :
    (a b c d e f g : Bool)
    → (a && (b && (c && (d && (e && (f && g)))))) ≡ true
    → (a ≡ true) × (b ≡ true) × (c ≡ true) × (d ≡ true) × (e ≡ true) × (f ≡ true)
seven a b c d e f g h = ground arith

fits_all-six :
    (columns : List ColumnInfo) (a b c d e f : Expected)
    → fits_all columns (a ∷ b ∷ c ∷ d ∷ e ∷ f ∷ []) ≡ true
    → (fits_one columns a ≡ true)
      × (fits_one columns b ≡ true)
      × (fits_one columns c ≡ true)
      × (fits_one columns d ≡ true)
      × (fits_one columns e ≡ true)
      × (fits_one columns f ≡ true)
unfolding fits_all
fits_all-six columns a b c d e f h =
    seven (fits_one columns a) (fits_one columns b) (fits_one columns c) (fits_one columns d)
      (fits_one columns e) (fits_one columns f) true h

fits_parts :
    (want : Expected) (got : ColumnInfo)
    → fits want got ≡ true
    → ((got.data_type =s= want.data_type) ≡ true)
      × ((got.nullable =s= want.nullable) ≡ true)
      × ((want.contains =s= "" || mentions (codes want.contains) (codes got.column_type)) ≡ true)
      × ((want.max_length =s= "" || equals_lower (codes want.max_length) (codes got.column_type))
          ≡ true)
      × ((want.extra =s= "" || mentions (codes want.extra) (codes got.extra)) ≡ true)
      × ((not want.default0 || is_zero got.default_value) ≡ true)
unfolding fits
fits_parts want got h = six _ _ _ _ _ _ h

module _ (rows : List ColumnInfo) (want : Expected) where
  in_rows :
      fits_one (column_map [] rows) want ≡ true
      → (found : HasColumn rows want.name want.data_type want.nullable) × (fits want found.column
          ≡ true)
  in_rows h =
      let r = fits_one-found (column_map [] rows) want h in
      let t = fits_parts want (r.0) r.3 in
      (
        record {
          column = r.0;
          listed = elim (column_map-Mem [] rows (r.0) r.1) [ inl m ↦ elim m [ ] | inr m ↦ m ];
          has_name = r.2;
          has_type = (eq_iff r.0.data_type want.data_type).0 t.0;
          has_nullable = (eq_iff r.0.nullable want.nullable).0 t.1;
        },
        r.3,
      )

zero_default : (o : Option String) → is_zero o ≡ true → o ≡ some "0"
unfolding is_zero
zero_default none h = absurd cc
zero_default (some value) h = ap (λ x. some x) ((eq_iff value "0").0 h)

-- What the expected columns come to.
module _ (rows : List ColumnInfo) where
  pub Wanted : Expected → Type 0
  Wanted want = fits_one (column_map [] rows) want ≡ true

  pub text_column :
      (name type : String)
      → Wanted (varchar name type)
      → (type =s= "") ≡ false
      → HasText rows name type
  unfolding Wanted IsTyped
  text_column name type h e =
      let r = in_rows rows (varchar name type) h in
      let t = fits_parts (varchar name type) (r.0.column) r.1 in
      record { found = r.0; typed = rw e at t.3 }

  pub number_column : (name : String) → Wanted (counter name) → HasNumber rows name
  unfolding Wanted IsUnsigned DefaultsToZero
  number_column name h =
      let r = in_rows rows (counter name) h in
      let t = fits_parts (counter name) (r.0.column) r.1 in
      record { found = r.0; unsigned = t.2; from_zero = zero_default _ t.5 }

  pub id_column : Wanted id_expected → HasId rows
  unfolding Wanted IsUnsigned
  id_column h =
      let r = in_rows rows id_expected h in
      let t = fits_parts id_expected (r.0.column) r.1 in
      record { found = r.0; unsigned = t.2; increments = t.4 }

  pub six-Wanted :
      fits_all (column_map [] rows) expected_columns ≡ true
      → Wanted id_expected
        × Wanted (counter "taskId")
        × Wanted (varchar "domain" "varchar(255)")
        × Wanted (varchar "token" "varchar(255)")
        × Wanted (varchar "key" "varchar(1024)")
        × Wanted (counter "createdAt")
  unfolding Wanted
  six-Wanted h = fits_all-six (column_map [] rows) _ _ _ _ _ _ h

four :
    (a b c d : Bool) → (a && b && c && d) ≡ true → (a ≡ true) × (b ≡ true) × (c ≡ true) × (d ≡ true)
four a b c d h = ground arith

two : (a b : Bool) → (a && b) ≡ true → (a ≡ true) × (b ≡ true)
two a b h = ground arith

pub primary_found :
    (indexes : List IndexInfo) → has_primary_id indexes ≡ true → HasPrimaryId indexes
unfolding has_primary_id HasPrimaryId
primary_found [] h = absurd cc
primary_found (i ∷ indexes) h =
    elim (Bool-cases
      (i.name =s= "PRIMARY" && i.non_unique == 0 && i.sequence == 1 && i.column =s= "id")) [
        | inl e ↦
            let t = four _ _ _ _ e in
            (
              i,
              Memᴰ.head refl,
              (eq_iff i.name "PRIMARY").0 t.0,
              (==_iff i.non_unique 0).0 t.1,
              (==_iff i.sequence 1).0 t.2,
              (eq_iff i.column "id").0 t.3,
            )
        | inr e ↦
            let r = primary_found indexes (rw (e, has_primary_id) at h) in
            (r.0, Memᴰ.tail r.1, r.2, r.3, r.4, r.5)
      ]

pub token_found :
    (indexes : List IndexInfo) → has_token_index indexes ≡ true → HasTokenIndex indexes
unfolding has_token_index HasTokenIndex
token_found [] h = absurd cc
token_found (i ∷ indexes) h = elim (Bool-cases (i.column =s= "token" && i.sequence == 1)) [
  | inl e ↦
      let t = two _ _ e in
      (i, Memᴰ.head refl, (eq_iff i.column "token").0 t.0, (==_iff i.sequence 1).0 t.1)
  | inr e ↦
      let r = token_found indexes (rw (e, has_token_index) at h) in (r.0, Memᴰ.tail r.1, r.2, r.3)
]
