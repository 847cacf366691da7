-- ===== src/Aggregation/Combine/Summaries.antt =====
-- aggregation-utils.ts: the numbers of a bucket, and those that two buckets have together.
use checkmate.Prelude.{
  ℕ, ◌+◌, ◌≡◌, inl, inr, refl, sym, ap, Bool, true, false, Option-cases, List, [], ◌∷◌, Option,
  none, some, if◌then◌else◌, arith,
}
use checkmate.Aggregation.Incremental.{minimum, maximum}
use checkmate.Aggregation.Tiers.{SourceTier, raw, hourly, daily, NormalizedBucket}
use checkmate.Aggregation.Combine.{
  tier_priority, push_some, add_some, or_defined, lower_tier, least, greatest,
}

-- The numbers of a bucket.
pub record Summary : Type 0 where
  pub run_count : ℕ
  pub healthy_count : ℕ
  pub degraded_count : ℕ
  pub unhealthy_count : ℕ
  pub latency_sum_ms : Option ℕ
  pub min_latency_ms : Option ℕ
  pub max_latency_ms : Option ℕ
  pub p95_latency_ms : Option ℕ
  pub source_tier : SourceTier

abbrev pub summary : {R : Type 0} → NormalizedBucket R → Summary
summary b = record {
  run_count = b.run_count;
  healthy_count = b.healthy_count;
  degraded_count = b.degraded_count;
  unhealthy_count = b.unhealthy_count;
  latency_sum_ms = b.latency_sum_ms;
  min_latency_ms = b.min_latency_ms;
  max_latency_ms = b.max_latency_ms;
  p95_latency_ms = b.p95_latency_ms;
  source_tier = b.source_tier;
}

abbrev pub either : (ℕ → ℕ → ℕ) → Option ℕ → Option ℕ → Option ℕ
either f none o = o
either f (some x) none = some x
either f (some x) (some y) = some (f x y)

-- What two buckets have together.
abbrev pub together : Summary → Summary → Summary
together s t = record {
  run_count = s.run_count + t.run_count;
  healthy_count = s.healthy_count + t.healthy_count;
  degraded_count = s.degraded_count + t.degraded_count;
  unhealthy_count = s.unhealthy_count + t.unhealthy_count;
  latency_sum_ms = either (λ x y. x + y) s.latency_sum_ms t.latency_sum_ms;
  min_latency_ms = either minimum s.min_latency_ms t.min_latency_ms;
  max_latency_ms = either maximum s.max_latency_ms t.max_latency_ms;
  p95_latency_ms = either maximum s.p95_latency_ms t.p95_latency_ms;
  source_tier = lower_tier s.source_tier t.source_tier;
}

abbrev pub empty_summary : Summary
empty_summary = record {
  run_count = 0;
  healthy_count = 0;
  degraded_count = 0;
  unhealthy_count = 0;
  latency_sum_ms = none;
  min_latency_ms = none;
  max_latency_ms = none;
  p95_latency_ms = none;
  source_tier = raw;
}

either_assoc :
    (f : ℕ → ℕ → ℕ) (o p q : Option ℕ)
    → ((x y z : ℕ) → f (f x y) z ≡ f x (f y z))
    → either f (either f o p) q ≡ either f o (either f p q)
either_assoc f none p q h = refl
either_assoc f (some x) none q h = refl
either_assoc f (some x) (some y) none h = refl
either_assoc f (some x) (some y) (some z) h = ap some (h x y z)

minimum_assoc : (x y z : ℕ) → minimum (minimum x y) z ≡ minimum x (minimum y z)
unfolding minimum
minimum_assoc x y z = ground arith

maximum_assoc : (x y z : ℕ) → maximum (maximum x y) z ≡ maximum x (maximum y z)
unfolding maximum
maximum_assoc x y z = ground arith

lower_tier_assoc :
    (s t u : SourceTier) → lower_tier (lower_tier s t) u ≡ lower_tier s (lower_tier t u)
unfolding tier_priority
lower_tier_assoc s t u = ground arith

pub together_assoc : (s t u : Summary) → together (together s t) u ≡ together s (together t u)
together_assoc s t u = ground (
  arith,
  either_assoc (λ x y. x + y) s.latency_sum_ms t.latency_sum_ms u.latency_sum_ms
      (λ x y z. omega arith),
  either_assoc minimum s.min_latency_ms t.min_latency_ms u.min_latency_ms minimum_assoc,
  either_assoc maximum s.max_latency_ms t.max_latency_ms u.max_latency_ms maximum_assoc,
  either_assoc maximum s.p95_latency_ms t.p95_latency_ms u.p95_latency_ms maximum_assoc,
  lower_tier_assoc s.source_tier t.source_tier u.source_tier,
)

either-none : (f : ℕ → ℕ → ℕ) (o : Option ℕ) → o ≡ either f o none
either-none f none = refl
either-none f (some x) = refl

pub least-push_some :
    (xs : List ℕ) (o : Option ℕ) → least (push_some xs o) ≡ either minimum (least xs) o
unfolding least
least-push_some xs none = either-none minimum (least xs)
least-push_some [] (some x) = refl
least-push_some (y ∷ xs) (some x) =
    let rest = least-push_some xs (some x) in
    elim (Option-cases (least xs)) [
      | inl e ↦ rw (rest, e) refl
      | inr (z, e) ↦ rw (rest, e) (ap some (sym (minimum_assoc y z x)))
    ]

pub greatest-push_some :
    (xs : List ℕ) (o : Option ℕ) → greatest (push_some xs o) ≡ either maximum (greatest xs) o
unfolding greatest
greatest-push_some xs none = either-none maximum (greatest xs)
greatest-push_some [] (some x) = refl
greatest-push_some (y ∷ xs) (some x) =
    let rest = greatest-push_some xs (some x) in
    elim (Option-cases (greatest xs)) [
      | inl e ↦ rw (rest, e) refl
      | inr (z, e) ↦ rw (rest, e) (ap some (sym (maximum_assoc y z x)))
    ]

lower_tier_raw : (s : SourceTier) → (lower_tier s raw ≡ s) × (lower_tier raw s ≡ s)
unfolding tier_priority
lower_tier_raw raw = (refl, refl)
lower_tier_raw hourly = (refl, refl)
lower_tier_raw daily = (refl, refl)

pub together_empty : (s : Summary) → (together s empty_summary ≡ s) × (together empty_summary s ≡ s)
together_empty s = ground (
  arith,
  either-none (λ x y. x + y) s.latency_sum_ms,
  either-none minimum s.min_latency_ms,
  either-none maximum s.max_latency_ms,
  either-none maximum s.p95_latency_ms,
  lower_tier_raw s.source_tier,
)

pub latency-add_some :
    (has : Bool) (sum : ℕ) (o : Option ℕ)
    → (has ≡ false → sum ≡ 0)
    → (if or_defined has o then some (add_some sum o) else none)
      ≡ either (λ x y. x + y) (if has then some sum else none) o
latency-add_some true sum none h = refl
latency-add_some true sum (some x) h = refl
latency-add_some false sum none h = refl
latency-add_some false sum (some x) h = ap some (omega (arith, h refl))
