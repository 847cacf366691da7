-- ===== src/Config/Versioning/Chain.antt =====
-- config-versioning.ts: the chain that the validation accepts is the one that is run.
use checkmate.Prelude.{
  ℕ, suc, ◌≤◌, ◌≡◌, refl, ◌↔◌, List, [], ◌∷◌, arith, All, filter, ok, err, ◌>>=◌,
}
use checkmate.Prelude.Sorting.{IsSortedBy, sort_by-IsSortedBy, All-sort_by, filter-sort_by}
use checkmate.Config.Versioning.{
  Parsed, Migration, Versioned, by_version, chain_loop, reaches, validate_migration_chain,
  is_applicable, applicable,
}

-- What the interface asks of a migration: "must be fromVersion + 1".
abbrev pub IsStep : {T : Type 0} → Migration T → Type 0
IsStep m = m.to_version ≡ suc m.from_version

-- Migrations one after the other, from a version to a version.
abbrev pub IsChain : {T : Type 0} → ℕ → ℕ → List (Migration T) → Type 0
IsChain v w [] = v ≡ w
IsChain v w (m ∷ ms) = (m.from_version ≡ v) × (m.to_version ≡ suc v) × IsChain (suc v) w ms

reaches_iff : (target : ℕ) (r : Parsed ℕ) → ((r >>= reaches target) ≡ ok tt) ↔ (r ≡ ok target)
reaches_iff target (ok n) = ground arith
reaches_iff target (err e) = (λ h. cc, λ h. cc)

module _ {T : Type 0} where
  none_applicable :
      (from target low : ℕ) (ms : List (Migration T))
      → target ≤ low
      → All (λ m. low ≤ m.from_version) ms
      → All IsStep ms
      → filter (is_applicable from target) ms ≡ []
  none_applicable from target low [] h hs ss = refl
  none_applicable from target low (m ∷ ms) h (k, hs) (s, ss) =
      ground (arith, none_applicable from target low ms h hs ss)

  chain_loop_iff :
      (from target expected : ℕ) (ms : List (Migration T))
      → from ≤ expected
      → IsSortedBy (λ m. m.from_version) ms
      → All IsStep ms
      → (chain_loop from target expected ms ≡ ok target)
        ↔ IsChain expected target (filter (is_applicable from target) ms)
  unfolding chain_loop
  chain_loop_iff from target expected [] h hs ss = ground arith
  chain_loop_iff from target expected (m ∷ ms) h (k, hs) (s, ss) = ground (
    arith,
    chain_loop_iff from target expected ms h hs ss,
    chain_loop_iff from target m.to_version ms,
    none_applicable from target m.from_version ms,
  )

  -- Where every migration goes up by one version, the validation accepts a stored version exactly
  -- when the migrations that will be run form a chain from it to the current version.
  pub validate-IsChain :
      (t : Versioned T) (from : ℕ)
      → All IsStep t.migrations
      → (validate_migration_chain t from ≡ ok tt) ↔ IsChain from t.version (applicable t from)
  unfolding validate_migration_chain applicable
  validate-IsChain t from steps =
      let sorted = by_version t.migrations in
      let loop =
        chain_loop_iff from t.version from sorted (omega arith) (sort_by-IsSortedBy _ t.migrations)
          (All-sort_by _ IsStep t.migrations steps) in
      let last = reaches_iff t.version (chain_loop from t.version from sorted) in
      rw (← filter-sort_by (λ m. m.from_version) (is_applicable from t.version) t.migrations)
        (λ h. loop.0 (last.0 h), λ h. last.1 (loop.1 h))
