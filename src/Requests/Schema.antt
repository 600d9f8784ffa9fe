-- ===== src/Requests/Schema.antt =====
-- The types of a request's fields (SCHEMAS of tools/request_encodings.py, read from
-- docs/coredrp-v1-request-schemas.json), and the values that json gives for a request. A type that
-- names a schema holds that schema's fields; no schema of the registry leads back to itself.
use core_drp.Prelude.{ℕ, Bool, List, [], ◌∷◌, if◌then◌else◌, Bytes, bytes_eq}
use core_drp.Prelude.Int.{ℤ}

pub data Scalar : Type 0 where
  u8 u16 u32 u64 i64 bool f64 uuid16 hash32 bytes utf8 ascii : Scalar

-- A type with '?' before it, 'array:' with the name of a schema, a schema, and the other types.
mutual
  pub data Kind : Type 0 where
    optional : Kind → Kind
    array : Bytes → Fields → Kind
    nested : Fields → Kind
    scalar : Scalar → Kind

  pub data Fields : Type 0 where
    end : Fields
    field : Bytes → Kind → Fields → Fields

-- None, an int, a bool, a float by its 64 bits, a str by its UTF-8 bytes, a list and a dict.
mutual
  pub data Value : Type 0 where
    absent : Value
    int : ℤ → Value
    truth : Bool → Value
    double : ℕ → Value
    text : Bytes → Value
    list : Values → Value
    dict : Entries → Value

  pub data Values : Type 0 where
    nil : Values
    cons : Value → Values → Values

  pub data Entries : Type 0 where
    stop : Entries
    entry : Bytes → Value → Entries → Entries

-- set(f['name'] for f in fields)
abbrev pub names : Fields → List Bytes
names end = []
names (field n k fs) = n ∷ names fs

abbrev pub keys : Entries → List Bytes
keys stop = []
keys (entry n x es) = n ∷ keys es

-- x[name], of a name that is there
abbrev pub get : Bytes → Entries → Value
get name stop = absent
get name (entry n x es) = if bytes_eq n name then x else get name es
