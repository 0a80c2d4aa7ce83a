-- ===== src/Latency/Kept.antt =====
-- src/app/state/latency.rs: the histories of a connection's samples, and what they keep.
use ax_ssh.Prelude.{
  ℕ, ◌-◌, ◌^◌, ◌≤◌, ◌<◌, min, max, Bool, true, false, not, ◌||◌, ◌≡◌, ◌≢◌, ◌⊎◌, inl, inr, refl,
  Option, none, some, List, [], ◌∷◌, leb, arith, Bool-cases, Option-cases,
}
use ax_ssh.Latency.{
  sample_lifetime, LatencyPhase, measuring, measured, timed_out, stale, unavailable, Quality, good,
  moderate, high, poor, for_micros, ConnectionLatency, unmeasured, is_measured, not_after,
  is_quality, is_fresh, sample_micros, blended, smoothed, with_quality, record_sample,
  record_timeout, expire, make_unavailable,
}

pub data LatencyEvent : Type 0 where
  -- A sample, when it was measured, and the clock.
  samples : ℕ → ℕ → ℕ → LatencyEvent
  times_out : ℕ → LatencyEvent
  expires becomes_unavailable : LatencyEvent

unfoldable pub latency_step : LatencyEvent → ConnectionLatency → ConnectionLatency
unfolding record_sample record_timeout expire make_unavailable
latency_step (samples sample time now) l = record_sample sample time now l
latency_step (times_out now) l = record_timeout now l
latency_step expires l = expire l
latency_step becomes_unavailable l = make_unavailable l

unfoldable pub latency_run : List LatencyEvent → ConnectionLatency → ConnectionLatency
unfolding latency_step
latency_run [] l = l
latency_run (e ∷ es) l = latency_run es (latency_step e l)

-- The quality is that of the smoothed latency, or this one waits for a second sample in its band.
abbrev pub Settles : ConnectionLatency → Quality → ℕ → Type 0
Settles l q micros =
    ((for_micros micros ≡ q) × (l.candidate ≡ none))
    ⊎ ((l.candidate ≡ some (for_micros micros)) × (for_micros micros ≢ q))

-- What is measured has a latency, a quality, and the time of the last sample.
pub record IsMeasured (l : ConnectionLatency) : Type 0 where
  pub micros : ℕ
  pub micros_at : l.smoothed_micros ≡ some micros
  pub of_quality : Quality
  pub quality_at : l.quality ≡ some of_quality
  pub settles : Settles l of_quality micros
  pub time : ℕ
  pub time_at : l.measured_at ≡ some time
  pub observed : l.observed_at ≡ some time

pub record IsLatency (l : ConnectionLatency) : Type 0 where
  pub measured : l.phase ≡ measured → IsMeasured l
  pub micros_in : (m : ℕ) → l.smoothed_micros ≡ some m → m < 2 ^ 64

pub is_quality_iff : (o : Option Quality) (q : Quality) → is_quality o q ≡ true → o ≡ some q
is_quality_iff none q h = ground arith
is_quality_iff (some good) good h = refl
is_quality_iff (some moderate) moderate h = refl
is_quality_iff (some high) high h = refl
is_quality_iff (some poor) poor h = refl
is_quality_iff (some p) q h = ground arith

pub is_quality_self : (q : Quality) → is_quality (some q) q ≡ true
is_quality_self good = refl
is_quality_self moderate = refl
is_quality_self high = refl
is_quality_self poor = refl

is_measured_lem : (p : LatencyPhase) → is_measured p ≡ true → p ≡ measured
is_measured_lem measured h = refl
is_measured_lem measuring h = ground arith
is_measured_lem timed_out h = ground arith
is_measured_lem stale h = ground arith
is_measured_lem unavailable h = ground arith

fresh-measured : (now : ℕ) (l : ConnectionLatency) → is_fresh now l ≡ true → l.phase ≡ measured
fresh-measured now l h = is_measured_lem l.phase (ground arith)

differs : (o : Option Quality) (q p : Quality) → o ≡ some p → is_quality o q ≡ false → q ≢ p
differs o q p h k e = ground (arith, is_quality_self q, same_test o q p h e)
  where
    same_test :
        (o : Option Quality) (q p : Quality)
        → o ≡ some p
        → q ≡ p
        → is_quality o q ≡ is_quality (some q) q
    same_test o q p h e = cc

with_sample-IsMeasured :
    (fresh : Bool) (m time : ℕ) (l : ConnectionLatency)
    → (fresh ≡ true → IsMeasured l)
    → IsMeasured (with_quality fresh (for_micros m) m time l)
with_sample-IsMeasured fresh m time l v =
    elim (Bool-cases
      (not fresh || is_quality l.quality (for_micros m) || is_quality l.candidate (for_micros m))) [
        | inl settled ↦ rw (settled) (record {
          micros = m;
          micros_at = refl;
          of_quality = for_micros m;
          quality_at = refl;
          settles = inl (refl, refl);
          time = time;
          time_at = refl;
          observed = refl;
        })
        | inr waits ↦
            (let w = v (ground arith) in
              let other : for_micros m ≢ w.of_quality =
                differs l.quality (for_micros m) w.of_quality w.quality_at (ground arith) in
              rw (waits) (record {
                micros = m;
                micros_at = refl;
                of_quality = w.of_quality;
                quality_at = w.quality_at;
                settles = inr (refl, other);
                time = time;
                time_at = refl;
                observed = refl;
              }))
      ]

-- Smoothing stays between the last value and the sample, and does not wrap.
pub blended-between :
    (sample previous : ℕ)
    → sample < 2 ^ 64
    → previous < 2 ^ 64
    → (min previous sample ≤ blended sample (some previous))
      × (blended sample (some previous) ≤ max previous sample)
blended-between sample previous h k = (omega arith, omega arith)

pub sample_micros-in : (nanos : ℕ) → sample_micros nanos < 2 ^ 64
sample_micros-in nanos = omega arith

smoothed-in :
    (fresh : Bool) (nanos : ℕ) (l : ConnectionLatency)
    → IsLatency l
    → smoothed fresh (sample_micros nanos) l < 2 ^ 64
smoothed-in fresh nanos l v = elim (Option-cases l.smoothed_micros) [
  | inl missing ↦ ground (arith, sample_micros-in nanos)
  | inr (m, there) ↦ elim (Bool-cases fresh) [
    | inl yes_fresh ↦ rw (yes_fresh, there) (omega arith)
    | inr not_fresh ↦ rw (not_fresh) (sample_micros-in nanos)
  ]
]

record_sample-IsLatency :
    (nanos time now : ℕ) (l : ConnectionLatency)
    → IsLatency l
    → IsLatency (record_sample nanos time now l)
unfolding record_sample
record_sample-IsLatency nanos time now l v = elim (Bool-cases (not_after time l.measured_at)) [
  | inl late ↦ rw (late) v
  | inr newer ↦ elim (Bool-cases (leb sample_lifetime (now - time))) [
    | inl old ↦ rw (newer, old) (record { measured = λ h. ground arith; micros_in = v.micros_in })
    | inr young ↦
        (let m = smoothed (is_fresh now l) (sample_micros nanos) l in
          rw (newer, young)
            (record {
              measured = λ h.
                  with_sample-IsMeasured (is_fresh now l) m time l
                    (λ f. v.measured (fresh-measured now l f));
              micros_in = λ k e. ground (arith, smoothed-in (is_fresh now l) nanos l v);
            }))
  ]
]

latency_step-IsLatency :
    (e : LatencyEvent) (l : ConnectionLatency) → IsLatency l → IsLatency (latency_step e l)
unfolding latency_step record_timeout expire make_unavailable
latency_step-IsLatency (samples nanos time now) l v = record_sample-IsLatency nanos time now l v
latency_step-IsLatency (times_out now) l v = record {
  measured = λ h. ground arith;
  micros_in = v.micros_in;
}
latency_step-IsLatency expires l v = record {
  measured = λ h. ground arith;
  micros_in = v.micros_in;
}
latency_step-IsLatency becomes_unavailable l v = record {
  measured = λ h. ground arith;
  micros_in = v.micros_in;
}

pub latency_run-IsLatency :
    (es : List LatencyEvent) (l : ConnectionLatency) → IsLatency l → IsLatency (latency_run es l)
unfolding latency_run
latency_run-IsLatency [] l v = v
latency_run-IsLatency (e ∷ es) l v =
    latency_run-IsLatency es (latency_step e l) (latency_step-IsLatency e l v)

pub unmeasured-IsLatency : IsLatency unmeasured
unmeasured-IsLatency = record { measured = λ h. ground arith; micros_in = λ m h. ground arith }
