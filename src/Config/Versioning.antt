-- ===== src/Config/Versioning.antt =====
-- backend-api/src/config-versioning.ts. The schema is a Zod object: a parameter that parses a value
-- or throws. Versions are natural numbers and dates are milliseconds.
pub mod Chain
pub mod Laws
mod Tests
use checkmate.Prelude.{
  ℕ, ◌+◌, Bool, true, false, not, ◌&&◌, List, [], ◌∷◌, ◌++◌, Option, none, some, String, leb, ltb,
  ◌==◌, if◌then◌else◌, filter, get_or_else, ok, err, ◌>>=◌, ◌>>◌, Result,
}
use checkmate.Prelude.Sorting.{sort_by}

pub data VersioningError : Type 0 where
  chain_broken : (expected found : ℕ) → VersioningError
  invalid_increment : (from_version to_version : ℕ) → VersioningError
  chain_incomplete : (reached target : ℕ) → VersioningError
  migration_failed : (from_version to_version : ℕ) → VersioningError
  schema_mismatch : VersioningError

abbrev pub Parsed : Type 0 → Type 0
Parsed A = Result VersioningError A

-- `VersionedRecord<T>`.
pub record VersionedRecord (T : Type 0) : Type 0 where
  pub version : ℕ
  pub value : T  -- `data`
  pub migrated_at : Option ℕ
  pub original_version : Option ℕ

pub record VersionedPluginRecord (T : Type 0) : Type 0 where
  pub version : ℕ
  pub value : T
  pub plugin_id : String

-- `migrate` gives nothing where the source's throws.
pub record Migration (T : Type 0) : Type 0 where
  pub from_version : ℕ
  pub to_version : ℕ
  pub description : String
  pub migrate : T → Option T

module _ {T : Type 0} where
  -- `MigrationBuilder`: `addMigration` and `build`, on the list so far.
  unfoldable pub add_migration : List (Migration T) → Migration T → List (Migration T)
  add_migration migrations migration = migrations ++ migration ∷ []

-- `Versioned<T>` over one type of values, stored and current.
pub record Versioned (T : Type 0) : Type 0 where
  pub version : ℕ
  pub schema : T → Option T
  pub migrations : List (Migration T)

-- The last test of `validateMigrationChain`.
abbrev pub reaches : ℕ → ℕ → Parsed (Unit {0})
reaches target reached = if reached == target then ok tt else err (chain_incomplete reached target)

module _ {T : Type 0} where
  abbrev pub by_version : List (Migration T) → List (Migration T)
  by_version migrations = sort_by (λ m. m.from_version) migrations

  -- The loop of `validateMigrationChain`: `continue` is a call on the rest, `break` returns.
  pub chain_loop : ℕ → ℕ → ℕ → List (Migration T) → Parsed ℕ
  chain_loop from target expected [] = ok expected
  chain_loop from target expected (m ∷ ms) =
      let next = chain_loop from target expected ms in
      let advanced = chain_loop from target m.to_version ms in
      if ltb m.from_version from
      then next
      else if ltb target m.to_version
      then ok expected
      else if not (m.from_version == expected)
      then err (chain_broken expected m.from_version)
      else if not (m.to_version == m.from_version + 1)
      then err (invalid_increment m.from_version m.to_version)
      else advanced

  pub validate_migration_chain : Versioned T → ℕ → Parsed (Unit {0})
  validate_migration_chain t from_version =
      chain_loop from_version t.version from_version (by_version t.migrations) >>= reaches t.version

  abbrev pub is_applicable : ℕ → ℕ → Migration T → Bool
  is_applicable from target m = leb from m.from_version && leb m.to_version target

  unfoldable pub applicable : Versioned T → ℕ → List (Migration T)
  applicable t from = by_version (filter (is_applicable from t.version) t.migrations)

  abbrev or_failed : Migration T → Option T → Parsed T
  or_failed m none = err (migration_failed m.from_version m.to_version)
  or_failed m (some value) = ok value

  -- The loop that runs the migrations, over (currentData, currentVersion).
  pub run_migrations : T → ℕ → List (Migration T) → Parsed (T × ℕ)
  run_migrations value version [] = ok (value, version)
  run_migrations value version (m ∷ ms) =
      or_failed m (m.migrate value) >>= λ value'. run_migrations value' m.to_version ms

  abbrev migrated : ℕ → VersionedRecord T → T × ℕ → VersionedRecord T
  migrated now input (value, version) = record {
    version = version;
    value = value;
    migrated_at = some now;
    original_version = some (get_or_else input.original_version input.version);
  }

  unfoldable pub migrate_to_version :
      ℕ → Versioned T → VersionedRecord T → Parsed (VersionedRecord T)
  migrate_to_version now t input =
      if input.version == t.version
      then ok input
      else validate_migration_chain t input.version
        >> (run_migrations input.value input.version (applicable t input.version) >>= λ done.
            ok (migrated now input done))

  abbrev pub validate : Versioned T → T → Parsed T
  validate t value = elim (t.schema value) [ none ↦ err schema_mismatch | some x ↦ ok x ]

  -- `needsMigration`.
  abbrev pub needs_migration : Versioned T → VersionedRecord T → Bool
  needs_migration t input = not (input.version == t.version)

  unfoldable pub parse_record : ℕ → Versioned T → VersionedRecord T → Parsed (VersionedRecord T)
  unfolding migrate_to_version
  parse_record now t input = do
    r ← migrate_to_version now t input
    value ← validate t r.value
    ok (record r { value = value })

  unfoldable pub parse : ℕ → Versioned T → VersionedRecord T → Parsed T
  unfolding migrate_to_version
  parse now t input = do r ← migrate_to_version now t input; validate t r.value

  unfoldable pub create : Versioned T → T → Parsed (VersionedRecord T)
  create t value = do
    x ← validate t value
    ok (record { version = t.version; value = x; migrated_at = none; original_version = none })

  unfoldable pub create_for_plugin : Versioned T → T → String → Parsed (VersionedPluginRecord T)
  create_for_plugin t value plugin_id = do
    x ← validate t value
    ok (record { version = t.version; value = x; plugin_id = plugin_id })
