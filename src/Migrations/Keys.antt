-- ===== src/Migrations/Keys.antt =====
-- migrations/planner.go and planner_graph.go: migration identities and their order.
use native.Mathlib.Decide.{ℕ_discrete}
use godj.Base.{
  GoString, Bool, ◌&&◌, not, List, [], ◌==◌, ==_iff, Eq, is_nil, if◌then◌else◌, string_eq,
  string_less, string_less_irrefl, string_less_trans, string_less_total, sort, arith,
}
use godj.Base.Sort.{IsStrictOrder}

pub record MigrationKey : Type 0 where
  pub app : GoString
  pub name : GoString

unfoldable pub MigrationKey-discrete : Discrete MigrationKey
unfolding ℕ_discrete
MigrationKey-discrete = hlevel ℕ_discrete

instance abbrev pub key_eq : Eq MigrationKey
key_eq = record { dec = MigrationKey-discrete }

-- The zero value `MigrationKey{}`.
abbrev pub no_key : MigrationKey
no_key = record { app = []; name = [] }

unfoldable pub valid_migration_key : MigrationKey → Bool
unfolding is_nil
valid_migration_key key = not (is_nil key.app) && not (is_nil key.name)

unfoldable pub migration_key_less : MigrationKey → MigrationKey → Bool
migration_key_less left right =
    if not (left.app == right.app)
    then string_less left.app right.app
    else string_less left.name right.name

unfoldable pub sort_migration_keys : List MigrationKey → List MigrationKey
sort_migration_keys = sort migration_key_less

pub key_order : IsStrictOrder migration_key_less
unfolding migration_key_less
key_order = record {
  irrefl = λ a. ground (arith, string_less_irrefl a.name);
  trans = λ a b c h k. ground (
    arith,
    string_less_trans a.app b.app c.app,
    string_less_trans a.name b.name c.name,
    string_less_irrefl a.app,
    string_less_total a.app b.app,
  );
  total = λ a b h k.
      ground
        (arith, string_less_total a.app b.app, string_less_total a.name b.name, ==_iff a.app b.app);
}
