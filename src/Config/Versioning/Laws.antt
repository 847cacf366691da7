-- ===== src/Config/Versioning/Laws.antt =====
-- config-versioning.ts: what a successful migration returns, and when it fails.
use checkmate.Prelude.{
  >>=-returns, ℕ, suc, ◌≡◌, ◌≢◌, true, false, List, [], ◌∷◌, Option, none, some, arith, All, ◌==◌,
  Bool-cases, inl, inr, ◌⊎◌, Option-cases, get_or_else, ok,
}
use checkmate.Config.Versioning.{
  VersionedRecord, Migration, Versioned, validate_migration_chain, applicable, run_migrations,
  migrate_to_version, parse, parse_record, create,
}
use checkmate.Config.Versioning.Chain.{IsStep, IsChain, validate-IsChain}

-- The composition of the migrations' functions.
unfoldable pub compose : {T : Type 0} → List (Migration T) → T → Option T
compose [] value = some value
compose (m ∷ ms) value = elim (m.migrate value) [ none ↦ none | some value' ↦ compose ms value' ]

module _ {T : Type 0} where
  -- Along a chain the loop applies every migration once, in order, and ends at the chain's end.
  run_chain :
      (v w : ℕ) (ms : List (Migration T)) (value result : T)
      → IsChain v w ms
      → compose ms value ≡ some result
      → run_migrations value v ms ≡ ok (result, w)
  unfolding run_migrations compose
  run_chain v w [] value result h c = ground arith
  run_chain v w (m ∷ ms) value result (e, f, h) c = elim (Option-cases (m.migrate value)) [
    | inl thrown ↦ ground arith
    | inr (value', done) ↦ ground (arith, run_chain (suc v) w ms value' result h)
  ]

  run_chain_version :
      (v w : ℕ) (ms : List (Migration T)) (value : T) (done : T × ℕ)
      → IsChain v w ms
      → run_migrations value v ms ≡ ok done
      → (done.1 ≡ w) × (compose ms value ≡ some done.0)
  unfolding run_migrations compose
  run_chain_version v w [] value done h c = ground arith
  run_chain_version v w (m ∷ ms) value done (e, f, h) c = elim (Option-cases (m.migrate value)) [
    | inl thrown ↦ ground arith
    | inr (value', some_value) ↦ ground (arith, run_chain_version (suc v) w ms value' done h)
  ]

  -- Where every migration goes up by one version: a record of another version, whose migrations
  -- form a chain to the current one and do not throw, becomes a record of the current version with
  -- the migrations applied in order, the date of now and the first version it was stored with.
  pub migrate_along_chain :
      (now : ℕ) (t : Versioned T) (input : VersionedRecord T) (result : T)
      → All IsStep t.migrations
      → input.version ≢ t.version
      → IsChain input.version t.version (applicable t input.version)
      → compose (applicable t input.version) input.value ≡ some result
      → migrate_to_version now t input
        ≡ ok (record {
          version = t.version;
          value = result;
          migrated_at = some now;
          original_version = some (get_or_else input.original_version input.version);
        })
  unfolding migrate_to_version
  migrate_along_chain now t input result steps other chain composed =
      let valid = (validate-IsChain t input.version steps).1 chain in
      let ran =
        run_chain input.version t.version (applicable t input.version) input.value result chain
          composed in
      ground (arith, valid, ran)

  migrate_current :
      (now : ℕ) (t : Versioned T) (input : VersionedRecord T)
      → (input.version == t.version) ≡ true
      → migrate_to_version now t input ≡ ok input
  unfolding migrate_to_version
  migrate_current now t input same = rw same

  migrated_parts :
      (now : ℕ) (t : Versioned T) (input r : VersionedRecord T)
      → (input.version == t.version) ≡ false
      → migrate_to_version now t input ≡ ok r
      → (validate_migration_chain t input.version ≡ ok tt)
        × ((done : T × ℕ) × (run_migrations input.value input.version (applicable t input.version)
              ≡ ok done)
            × (r ≡ record {
              version = done.1;
              value = done.0;
              migrated_at = some now;
              original_version = some (get_or_else input.original_version input.version);
            }))
  unfolding migrate_to_version
  migrated_parts now t input r other e =
      let e' = rw other at e in
      let (u, rest, valid) = >>=-returns (validate_migration_chain t input.version) _ r e' in
      let (done, made, ran) =
        >>=-returns (run_migrations input.value input.version (applicable t input.version)) _ r
          rest in
      (valid, (done, ran, ground (arith, made)))

  -- Where every migration goes up by one version: whatever record the migration returns has the
  -- current version, and its value is the stored one or comes from it by the applicable
  -- migrations in order.
  pub migrate_reaches_current :
      (now : ℕ) (t : Versioned T) (input r : VersionedRecord T)
      → All IsStep t.migrations
      → migrate_to_version now t input ≡ ok r
      → (r.version ≡ t.version)
        × ((input.version ≡ t.version) × (r ≡ input)
            ⊎ IsChain input.version t.version (applicable t input.version)
              × (compose (applicable t input.version) input.value ≡ some r.value))
  migrate_reaches_current now t input r steps e = elim (Bool-cases (input.version == t.version)) [
    | inl same ↦ ground (arith, migrate_current now t input same)
    | inr other ↦
        let (valid, parts) = migrated_parts now t input r other e in
        let (done, ran, made) = parts in
        let chain = (validate-IsChain t input.version steps).0 valid in
        let (end, composed) =
          run_chain_version input.version t.version (applicable t input.version) input.value done
            chain ran in
        ground (arith, chain, composed)
  ]

  -- A record made by `create` parses to its own value, unchanged by any migration, where the schema
  -- accepts what it has put out as it stands.
  pub parse-create :
      (now : ℕ) (t : Versioned T) (value : T) (r : VersionedRecord T)
      → ((x y : T) → t.schema x ≡ some y → t.schema y ≡ some y)
      → create t value ≡ ok r
      → (parse now t r ≡ ok r.value) × (parse_record now t r ≡ ok r)
  unfolding parse parse_record create migrate_to_version
  parse-create now t value r stable e = elim (Option-cases (t.schema value)) [
    | inl refused ↦ ground arith
    | inr (x, accepted) ↦ ground (arith, stable value x accepted)
  ]
