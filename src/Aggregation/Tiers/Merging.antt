-- ===== src/Aggregation/Tiers/Merging.antt =====
-- aggregation-utils.ts: which buckets the merged series has, and in what order.
use checkmate.Prelude.{
  ◌<◌, ◌≡◌, ◌⊎◌, ◌↔◌, refl, ap, ◌∙◌, Bool, false, not, ◌&&◌, ◌||◌, List, [], ◌∷◌, ◌++◌, map, any,
  In, In-append, In-append_left, In-append_right, In-filter, filter, arith,
}
use checkmate.Prelude.Sorting.{IsSortedBy, sort_by-IsSortedBy, sort_by-In, any-sort_by}
use checkmate.Aggregation.Tiers.{
  NormalizedBucket, TimeRange, range_of, time_ranges, coverage, overlaps, overlaps_raw,
  overlaps_hourly, merge_tiered_buckets,
}
use checkmate.Aggregation.Tiers.Coverage.{Ordered, does_overlap-any, coverage-Ordered, coverage-any}

module _ {R : Type 0} where
  -- The bucket overlaps one of the others.
  abbrev pub overlaps_some : NormalizedBucket R → List (NormalizedBucket R) → Bool
  overlaps_some b others = any (λ c. overlaps (range_of b) (range_of c)) others

  any-map :
      (p : TimeRange → Bool) (bs : List (NormalizedBucket R))
      → any p (map range_of bs) ≡ any (λ b. p (range_of b)) bs
  any-map p [] = refl
  any-map p (b ∷ bs) = ap (λ r. p (range_of b) || r) (any-map p bs)

  time_ranges-any :
      (p : TimeRange → Bool) (bs : List (NormalizedBucket R))
      → any p (time_ranges bs) ≡ any (λ b. p (range_of b)) bs
  unfolding time_ranges
  time_ranges-any p bs = any-sort_by (λ r. r.start) p (map range_of bs) ∙ any-map p bs

  time_ranges-Ordered : (bs : List (NormalizedBucket R)) → Ordered (time_ranges bs)
  unfolding time_ranges
  time_ranges-Ordered bs = sort_by-IsSortedBy (λ r. r.start) (map range_of bs)

  overlaps_raw-eq :
      (b : NormalizedBucket R) (raws : List (NormalizedBucket R))
      → b.bucket_start < b.bucket_end_ms
      → overlaps_raw raws b ≡ overlaps_some b raws
  unfolding overlaps_raw
  overlaps_raw-eq b raws lt =
      does_overlap-any (range_of b) (coverage (time_ranges raws))
        (coverage-Ordered (time_ranges raws) (time_ranges-Ordered raws))
      ∙ coverage-any (range_of b) (time_ranges raws) lt (time_ranges-Ordered raws)
      ∙ time_ranges-any (overlaps (range_of b)) raws

  overlaps_hourly-eq :
      (b : NormalizedBucket R) (hourlies : List (NormalizedBucket R))
      → overlaps_hourly hourlies b ≡ overlaps_some b hourlies
  unfolding overlaps_hourly
  overlaps_hourly-eq b hourlies =
      does_overlap-any (range_of b) (time_ranges hourlies) (time_ranges-Ordered hourlies)
      ∙ time_ranges-any (overlaps (range_of b)) hourlies

  In-three :
      (b : NormalizedBucket R) (xs ys zs : List (NormalizedBucket R))
      → In b (xs ++ (ys ++ zs)) ↔ (In b xs ⊎ In b ys ⊎ In b zs)
  In-three b xs ys zs = ground (
    arith,
    In-append b xs (ys ++ zs),
    In-append b ys zs,
    In-append_left b xs (ys ++ zs),
    In-append_right b xs (ys ++ zs),
    In-append_left b ys zs,
    In-append_right b ys zs,
  )

  -- For a bucket that is not empty: it is in the merged series exactly if it is a raw one, or an
  -- hourly one that overlaps no raw one, or a daily one that overlaps no raw and no hourly one. The
  -- series is in the order of the buckets' starts.
  pub merge_tiered_buckets_iff :
      (raws hourlies dailies : List (NormalizedBucket R)) (b : NormalizedBucket R)
      → b.bucket_start < b.bucket_end_ms
      → (In b (merge_tiered_buckets raws hourlies dailies) ↔ (
          In b raws
          ⊎ (In b hourlies × (overlaps_some b raws ≡ false))
          ⊎ (In b dailies × (overlaps_some b raws ≡ false) × (overlaps_some b hourlies ≡ false))))
        × IsSortedBy (λ c. c.bucket_start) (merge_tiered_buckets raws hourlies dailies)
  unfolding merge_tiered_buckets
  merge_tiered_buckets_iff raws hourlies dailies b lt =
      let free_raw : NormalizedBucket R → Bool = λ c. not (overlaps_raw raws c) in
      let free : NormalizedBucket R → Bool =
        λ c. not (overlaps_raw raws c) && not (overlaps_hourly hourlies c) in
      let kept_hourly = filter free_raw hourlies in
      let kept_daily = filter free dailies in
      let sorted = sort_by-In (λ c. c.bucket_start) b (raws ++ (kept_hourly ++ kept_daily)) in
      let members = In-three b raws kept_hourly kept_daily in
      (
        ground (
          arith,
          sorted,
          members,
          In-filter free_raw b hourlies,
          In-filter free b dailies,
          overlaps_raw-eq b raws lt,
          overlaps_hourly-eq b hourlies,
        ),
        sort_by-IsSortedBy (λ c. c.bucket_start) (raws ++ (kept_hourly ++ kept_daily)),
      )
