-- ===== src/Latency/Bands.antt =====
-- src/app/state/latency.rs: the bands of a latency in microseconds, and the sample that the state of a
-- connection stems from.
use ax_ssh.Prelude.{
  ℕ, true, ◌-◌, ◌≤◌, ◌<◌, ◌≡◌, ◌≢◌, ◌↔◌, ◌⊎◌, refl, sym, subst, inl, inr, Option, none, some, List,
  [], ◌∷◌, leb, arith, Bool-cases,
}
use ax_ssh.Latency.{
  sample_lifetime, measured, Quality, good, moderate, high, poor, for_micros, ConnectionLatency,
  unmeasured, not_after, record_sample, record_timeout, expire, make_unavailable,
}
use ax_ssh.Latency.Kept.{
  LatencyEvent, samples, times_out, expires, becomes_unavailable, latency_step, latency_run,
  Settles,
}

-- Good below 100 ms, moderate below 250 ms, high below 500 ms.
abbrev pub InBand : Quality → ℕ → Type 0
InBand good micros = micros < 100000
InBand moderate micros = (100000 ≤ micros) × (micros < 250000)
InBand high micros = (250000 ≤ micros) × (micros < 500000)
InBand poor micros = 500000 ≤ micros

pub for_micros_iff : (micros : ℕ) (q : Quality) → (for_micros micros ≡ q) ↔ InBand q micros
unfolding for_micros
for_micros_iff micros good = ((λ h. ground arith), (λ h. ground arith))
for_micros_iff micros moderate = ((λ h. ground arith), (λ h. ground arith))
for_micros_iff micros high = ((λ h. ground arith), (λ h. ground arith))
for_micros_iff micros poor = ((λ h. ground arith), (λ h. ground arith))

-- The latency is in the band of the quality and none waits, or it is in another, which waits for
-- a second sample.
abbrev pub IsSettled : ConnectionLatency → Quality → ℕ → Type 0
IsSettled l q micros =
    (InBand q micros × (l.candidate ≡ none))
    ⊎ ((p : Quality) × InBand p micros × (l.candidate ≡ some p) × (p ≢ q))

pub Settles-IsSettled :
    (l : ConnectionLatency) (q : Quality) (micros : ℕ) → Settles l q micros → IsSettled l q micros
Settles-IsSettled l q micros (inl (band, settled)) = inl ((for_micros_iff micros q).0 band, settled)
Settles-IsSettled l q micros (inr (waits, other)) =
    inr (for_micros micros, (for_micros_iff micros (for_micros micros)).0 refl, waits, other)

-- Only samples that were not measured after this time.
abbrev pub NoNewer : ℕ → List LatencyEvent → Type 0
NoNewer time [] = Unit
NoNewer time (samples nanos at now ∷ es) = (at ≤ time) × NoNewer time es
NoNewer time (times_out now ∷ es) = ⊥
NoNewer time (expires ∷ es) = ⊥
NoNewer time (becomes_unavailable ∷ es) = ⊥

-- The history has a sample of this time, which came within ninety seconds of it, and nothing since but
-- samples that are not newer.
pub data LastSample (time : ℕ) : List LatencyEvent → Type 0 where
  this_one :
      {nanos now : ℕ} {es : List LatencyEvent}
      → now - time < 90000000000
      → NoNewer time es
      → LastSample time (samples nanos time now ∷ es)
  before :
      {e : LatencyEvent} {es : List LatencyEvent} → LastSample time es → LastSample time (e ∷ es)

-- What is measured stems from the last sample, or from what was measured before.
abbrev Stems : ℕ → List LatencyEvent → ConnectionLatency → Type 0
Stems time es l =
    LastSample time es ⊎ ((l.phase ≡ measured) × (l.measured_at ≡ some time) × NoNewer time es)

late-le : (at time : ℕ) (o : Option ℕ) → not_after at o ≡ true → o ≡ some time → at ≤ time
late-le at time none h e = ground arith
late-le at time (some previous) h e = ground arith

sample-Stems :
    (nanos at now time : ℕ) (es : List LatencyEvent) (l : ConnectionLatency)
    → (record_sample nanos at now l).phase ≡ measured
    → (record_sample nanos at now l).measured_at ≡ some time
    → NoNewer time es
    → Stems time (samples nanos at now ∷ es) l
unfolding record_sample
sample-Stems nanos at now time es l phase measured_at since =
    elim (Bool-cases (not_after at l.measured_at)) [
      | inl late ↦
          (let kept : l.measured_at ≡ some time = ground (arith, late, measured_at) in
            inr
              (ground (arith, late, phase), kept, (late-le at time l.measured_at late kept, since)))
      | inr newer ↦ elim (Bool-cases (leb sample_lifetime (now - at))) [
        | inl old ↦ ground (arith, newer, old, phase)
        | inr young ↦
            (let same : at ≡ time = ground (arith, newer, young, measured_at) in
              inl (
                subst (λ t. LastSample t (samples nanos at now ∷ es)) same
                  (this_one (ground (arith, young)) (subst (λ t. NoNewer t es) (sym same) since))))
      ]
    ]

latency_run-Stems :
    (es : List LatencyEvent) (l : ConnectionLatency) (time : ℕ)
    → (latency_run es l).phase ≡ measured
    → (latency_run es l).measured_at ≡ some time
    → Stems time es l
unfolding latency_run latency_step record_timeout expire make_unavailable
latency_run-Stems [] l time phase at = inr (phase, at, tt)
latency_run-Stems (samples nanos at now ∷ es) l time phase measured_at =
    elim (latency_run-Stems es (record_sample nanos at now l) time phase measured_at) [
      | inl found ↦ inl (before found)
      | inr (p, m, since) ↦ sample-Stems nanos at now time es l p m since
    ]
latency_run-Stems (times_out now ∷ es) l time phase at =
    elim (latency_run-Stems es (record_timeout now l) time phase at) [
      | inl found ↦ inl (before found)
      | inr (p, m, since) ↦ ground arith
    ]
latency_run-Stems (expires ∷ es) l time phase at =
    elim (latency_run-Stems es (expire l) time phase at) [
      | inl found ↦ inl (before found)
      | inr (p, m, since) ↦ ground arith
    ]
latency_run-Stems (becomes_unavailable ∷ es) l time phase at =
    elim (latency_run-Stems es (make_unavailable l) time phase at) [
      | inl found ↦ inl (before found)
      | inr (p, m, since) ↦ ground arith
    ]

pub latency_run-LastSample :
    (es : List LatencyEvent) (time : ℕ)
    → (latency_run es unmeasured).phase ≡ measured
    → (latency_run es unmeasured).measured_at ≡ some time
    → LastSample time es
latency_run-LastSample es time phase at = elim (latency_run-Stems es unmeasured time phase at) [
  | inl found ↦ found
  | inr (p, m, since) ↦ ground arith
]
