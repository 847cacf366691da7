-- ===== src/Config/Versioning/Tests.antt =====
-- Runs of the migrations, and a chain that the validation lets through.
use checkmate.Prelude.{ℕ, ◌+◌, ◌≡◌, refl, ◌↔◌, ◌⊎◌, [], ◌∷◌, none, some, arith, All, ok, err}
use checkmate.Prelude.Sorting.{sort_by}
use checkmate.Config.Versioning.{
  chain_incomplete, chain_broken, VersionedRecord, Migration, Versioned, validate_migration_chain,
  chain_loop, run_migrations, applicable, migrate_to_version, parse, parse_record, create,
}
use checkmate.Config.Versioning.Chain.{IsStep, IsChain, validate-IsChain}
use checkmate.Config.Versioning.Laws.{compose, migrate_along_chain, migrate_reaches_current}

versioning : Unit {0}
unfolding migrate_to_version validate_migration_chain chain_loop run_migrations applicable sort_by
    parse parse_record create compose
versioning = tt

abbrev step : ℕ → ℕ → Migration ℕ
step from to = record {
  from_version = from;
  to_version = to;
  description = "";
  migrate = λ n. some (n + 10);
}

abbrev third : Versioned ℕ
third = record { version = 3; schema = λ n. some n; migrations = step 2 3 ∷ step 1 2 ∷ [] }

abbrev stored : ℕ → VersionedRecord ℕ
stored v = record { version = v; value = 5; migrated_at = none; original_version = none }

abbrev current : VersionedRecord ℕ
current = record { version = 3; value = 25; migrated_at = some 99; original_version = some 1 }

migrations :
    (migrate_to_version 99 third (stored 1) ≡ ok current)
    × (migrate_to_version 99 third (stored 3) ≡ ok (stored 3))
    × (migrate_to_version 99 third (stored 0) ≡ err (chain_broken 0 1))
    × (migrate_to_version 99 third (stored 4) ≡ err (chain_incomplete 4 3))
unfolding versioning
migrations = (refl, refl, refl, refl)

-- A migration that goes down is behind the loop's `break`, and is run: the record ends at version 2.
unchecked_migration :
    migrate_to_version 99
      (record third { migrations = step 1 2 ∷ step 2 3 ∷ step 3 4 ∷ step 5 2 ∷ [] })
      (stored 1)
    ≡ ok (record { version = 2; value = 35; migrated_at = some 99; original_version = some 1 })
unfolding versioning
unchecked_migration = refl

third-IsStep : All IsStep third.migrations
third-IsStep = (refl, (refl, tt))

validate-IsChain_example :
    (validate_migration_chain third 1 ≡ ok tt) ↔ IsChain 1 3 (applicable third 1)
validate-IsChain_example = validate-IsChain third 1 third-IsStep

migrate_along_chain_example : migrate_to_version 99 third (stored 1) ≡ ok current
unfolding versioning
migrate_along_chain_example =
    migrate_along_chain 99 third (stored 1) 25 third-IsStep (omega arith) (omega arith) refl

migrate_reaches_current_example :
    (current.version ≡ third.version)
    × (◌≡◌ {A = ℕ} 1 3 × (current ≡ stored 1)
        ⊎ IsChain 1 3 (applicable third 1) × (compose (applicable third 1) 5 ≡ some 25))
migrate_reaches_current_example =
    migrate_reaches_current 99 third (stored 1) current third-IsStep migrations.0
