-- ===== src/Aggregation/Combine/Split.antt =====
-- aggregation-utils.ts: buckets combined in two steps or in one.
use mathlib.Core.Path.{ap₂}
use checkmate.Prelude.{
  ℕ, ◌≡◌, refl, sym, ap, ◌∙◌, false, List, [], ◌∷◌, ◌++◌, Option, none, some, if◌then◌else◌, arith,
}
use checkmate.Aggregation.Tiers.{NormalizedBucket}
use checkmate.Aggregation.Combine.{
  Totals, no_totals, add_bucket, add_buckets, least, greatest, combine_buckets,
}
use checkmate.Aggregation.Combine.Summaries.{
  Summary, summary, together, empty_summary, together_assoc, least-push_some, greatest-push_some,
  together_empty, latency-add_some,
}

module _ {R : Type 0} where
  -- The summary that the loop's variables make.
  abbrev view : Totals R → Summary
  view t = record {
    run_count = t.run_count;
    healthy_count = t.healthy_count;
    degraded_count = t.degraded_count;
    unhealthy_count = t.unhealthy_count;
    latency_sum_ms = if t.has_latency_data then some t.latency_sum_ms else none;
    min_latency_ms = least t.min_values;
    max_latency_ms = greatest t.max_values;
    p95_latency_ms = greatest t.p95_values;
    source_tier = t.lowest_priority_tier;
  }

  abbrev IsClean : Totals R → Type 0
  IsClean t = t.has_latency_data ≡ false → t.latency_sum_ms ≡ 0

  add_bucket-view :
      (t : Totals R) (b : NormalizedBucket R)
      → IsClean t
      → view (add_bucket t b) ≡ together (view t) (summary b)
  unfolding add_bucket
  add_bucket-view t b clean =
      rw
        (
          latency-add_some t.has_latency_data t.latency_sum_ms b.latency_sum_ms clean,
          least-push_some t.min_values b.min_latency_ms,
          greatest-push_some t.max_values b.max_latency_ms,
          greatest-push_some t.p95_values b.p95_latency_ms,
        )
        refl

  add_bucket-IsClean :
      (t : Totals R) (b : NormalizedBucket R) → IsClean t → IsClean (add_bucket t b)
  unfolding add_bucket
  add_bucket-IsClean t b clean = ground (arith, clean)

  -- The summary of a list, bucket by bucket.
  abbrev summaries : List (NormalizedBucket R) → Summary
  summaries [] = empty_summary
  summaries (b ∷ bs) = together (summary b) (summaries bs)

  add_buckets-view :
      (t : Totals R) (bs : List (NormalizedBucket R))
      → IsClean t
      → view (add_buckets t bs) ≡ together (view t) (summaries bs)
  unfolding add_buckets
  add_buckets-view t [] clean = sym (together_empty (view t)).0
  add_buckets-view t (b ∷ bs) clean =
      add_buckets-view (add_bucket t b) bs (add_bucket-IsClean t b clean)
      ∙ ap (λ s. together s (summaries bs)) (add_bucket-view t b clean)
      ∙ together_assoc (view t) (summary b) (summaries bs)

  summaries-append :
      (xs ys : List (NormalizedBucket R))
      → summaries (xs ++ ys) ≡ together (summaries xs) (summaries ys)
  summaries-append [] ys = sym (together_empty (summaries ys)).1
  summaries-append (x ∷ xs) ys =
      ap (together (summary x)) (summaries-append xs ys)
      ∙ sym (together_assoc (summary x) (summaries xs) (summaries ys))

  combine_buckets-summary :
      (merge : List (Option R) → Option R) (start end : ℕ) (bs : List (NormalizedBucket R))
      → summary (combine_buckets merge start end bs) ≡ summaries bs
  unfolding combine_buckets least greatest
  combine_buckets-summary merge start end bs =
      add_buckets-view no_totals bs (λ h. refl) ∙ (together_empty (summaries bs)).1

  -- Combining the combinations of two lists of buckets gives the same counts, latencies and tier as
  -- combining all the buckets at once, whatever the spans given to the combined buckets.
  pub combine_split :
      (merge : List (Option R) → Option R) (s e s1 e1 s2 e2 s3 e3 : ℕ)
      (xs ys : List (NormalizedBucket R))
      → summary (
          combine_buckets merge s e
            (combine_buckets merge s1 e1 xs ∷ combine_buckets merge s2 e2 ys ∷ []))
        ≡ summary (combine_buckets merge s3 e3 (xs ++ ys))
  combine_split merge s e s1 e1 s2 e2 s3 e3 xs ys =
      combine_buckets-summary merge s e _
      ∙ ap (together (summary (combine_buckets merge s1 e1 xs)))
          (together_empty (summary (combine_buckets merge s2 e2 ys))).0
      ∙ ap₂ together (combine_buckets-summary merge s1 e1 xs)
          (combine_buckets-summary merge s2 e2 ys)
      ∙ sym (summaries-append xs ys)
      ∙ sym (combine_buckets-summary merge s3 e3 (xs ++ ys))
