-- ===== src/Ir.antt =====
-- schema/ir/types.go: the normalized schema that migrations and metadata are written in. A Go
-- struct is a value here, so the `Clone` methods, which undo the sharing of slices, are not needed.
pub mod Utf8
pub mod Identifiers
pub mod Normalize
use native.Mathlib.Decide.{ℕ_discrete}
use godj.Base.{ℕ, GoString, bytes, Bool, true, false, List, [], Option, none, some, Eq, ℤ, pos}
use godj.Base.Int.{ℤ-discrete}

-- The kinds are strings: any other string is `unknown`.
pub data FieldKind : Type 0 where
  auto char boolean : FieldKind
  unknown : GoString → FieldKind

pub data ScalarKind : Type 0 where
  string boolean integer : ScalarKind
  unknown : GoString → ScalarKind

pub record ScalarDefault : Type 0 where
  pub kind : ScalarKind
  pub string : GoString
  pub boolean : Bool
  pub integer : ℤ

pub record Field : Type 0 where
  pub name : GoString
  pub go_name : GoString
  pub column : GoString
  pub kind : FieldKind
  pub primary_key : Bool
  pub nullable : Bool
  pub max_length : ℤ
  pub scalar_default : Option ScalarDefault

pub record Model : Type 0 where
  pub name : GoString
  pub go_name : GoString
  pub db_table : GoString
  pub fields : List Field

pub record Schema : Type 0 where
  pub format_version : ℤ
  pub app_label : GoString
  pub models : List Model

abbrev pub format_version : ℤ
format_version = pos 2

-- `reflect.DeepEqual` on the values above.
unfoldable pub ScalarKind-discrete : Discrete ScalarKind
unfolding ℕ_discrete
ScalarKind-discrete = hlevel ℕ_discrete

unfoldable pub Field-discrete : Discrete Field
unfolding ℕ_discrete ℤ-discrete
Field-discrete = hlevel (ℕ_discrete, ℤ-discrete)

unfoldable pub Model-discrete : Discrete Model
unfolding Field-discrete ℕ_discrete
Model-discrete = hlevel (ℕ_discrete, Field-discrete)

unfoldable pub Schema-discrete : Discrete Schema
unfolding Model-discrete ℕ_discrete ℤ-discrete
Schema-discrete = hlevel (ℕ_discrete, ℤ-discrete, Model-discrete)

instance abbrev pub scalar_kind_eq : Eq ScalarKind
scalar_kind_eq = record { dec = ScalarKind-discrete }

instance abbrev pub field_eq : Eq Field
field_eq = record { dec = Field-discrete }

instance abbrev pub model_eq : Eq Model
model_eq = record { dec = Model-discrete }

instance abbrev pub schema_eq : Eq Schema
schema_eq = record { dec = Schema-discrete }
