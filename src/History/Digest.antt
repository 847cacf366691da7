-- ===== src/History/Digest.antt =====
-- healthcheck-backend/src/realtime-aggregation.ts: the stored form of a t-digest.
use checkmate.Prelude.{ℕ, Bool, List, [], ◌∷◌, if◌then◌else◌}

-- The library of t-digests: `toArray`, `push_centroid`, `push`, and `Math.round(percentile(0.95))`.
-- A centroid is its mean and its weight; `is_positive` is `n > 0`.
pub record DigestLibrary (N : Type 0) : Type 1 where
  pub Digest : Type 0
  pub empty : Digest
  pub to_array : Digest → List (N × N)
  pub push_centroid : List (N × N) → Digest → Digest
  pub push : ℕ → Digest → Digest
  pub p95 : Digest → ℕ
  pub is_positive : N → Bool

module _ {N : Type 0} where
  abbrev pairs_of : List (N × N) → List N
  pairs_of [] = []
  pairs_of ((mean, n) ∷ centroids) = mean ∷ n ∷ pairs_of centroids

  -- The loop over the pairs of the state; a last number without a partner is left out.
  unfoldable pub centroids_of : (N → Bool) → List N → List (N × N)
  centroids_of is_positive [] = []
  centroids_of is_positive (mean ∷ []) = []
  centroids_of is_positive (mean ∷ n ∷ state) =
      let rest = centroids_of is_positive state in if is_positive n then (mean, n) ∷ rest else rest

  unfoldable pub serialize_t_digest : (lib : DigestLibrary N) → lib.Digest → List N
  serialize_t_digest lib digest = pairs_of (lib.to_array digest)

  -- A state without centroids leaves the digest as it was made.
  unfoldable pub deserialize_t_digest : (lib : DigestLibrary N) → List N → lib.Digest
  deserialize_t_digest lib state = elim (centroids_of lib.is_positive state) [
    | [] ↦ lib.empty
    | c ∷ cs ↦ lib.push_centroid (c ∷ cs) lib.empty
  ]
