-- ===== src/Latency/Shown.antt =====
-- src/app/state/latency.rs: what a Tab shows after any history of its samples.
use ax_ssh.Prelude.{
  ℕ, ◌+◌, ◌-◌, ◌/◌, ◌^◌, ◌≤◌, ◌<◌, min, max, true, false, ◌||◌, ◌≡◌, ◌≢◌, ◌⊎◌, ◌↔◌, inl, inr, refl,
  ap, sym, ◌∙◌, subst, some, List, leb, arith, Bool-cases, Option-cases,
}
use ax_ssh.Latency.{
  sample_lifetime, LatencyPhase, measuring, measured, timed_out, stale, unavailable, Quality,
  for_micros, ConnectionLatency, unmeasured, is_old, not_after, with_sample, is_quality, is_fresh,
  sample_micros, blended, with_quality, record_sample, shown_state, micros_or_zero, shows_quality,
  latency_snapshot,
}
use ax_ssh.Latency.Bands.{
  InBand, for_micros_iff, IsSettled, Settles-IsSettled, LastSample, latency_run-LastSample,
}
use ax_ssh.Latency.Kept.{
  LatencyEvent, latency_run, latency_run-IsLatency, unmeasured-IsLatency, Settles, is_quality_iff,
  is_quality_self, sample_micros-in, blended-between,
}

shows_phase :
    (now : ℕ) (l : ConnectionLatency) (p : LatencyPhase) (q : Quality)
    → shown_state now l p ≡ shows_quality q
    → (p ≡ measured) × (is_old now l.observed_at ≡ false) × (l.quality ≡ some q)
shows_phase now l measuring q h = ground arith
shows_phase now l measured q h = (
  refl,
  ground arith,
  (elim (Option-cases l.quality) [
    | inl missing ↦ ground (arith, missing)
    | inr (p, there) ↦ ground (arith, there)
  ]),
)
shows_phase now l timed_out q h = ground arith
shows_phase now l stale q h = ground arith
shows_phase now l unavailable q h = ground arith

-- After any history of samples, timeouts, expiries and losses, a Tab shows a quality only within
-- ninety seconds of the time of a sample of the history, which came within ninety seconds of that time
-- itself, and since when there were only samples that are not newer; the quality is the band of the
-- smoothed latency (below 100, 250 and 500 ms), unless that is in another band and waits for a second
-- sample there; and the milliseconds are the smoothed latency, rounded up and bounded.
pub latency_run-latency_snapshot :
    (es : List LatencyEvent) (now : ℕ) (q : Quality)
    → (latency_snapshot now (latency_run es unmeasured)).0 ≡ shows_quality q
    → (micros : ℕ) × (time : ℕ) × ((latency_run es unmeasured).smoothed_micros ≡ some micros)
      × LastSample time es
      × (now - time < 90000000000)
      × IsSettled (latency_run es unmeasured) q micros
      × ((latency_snapshot now (latency_run es unmeasured)).1
          ≡ min ((micros + 999) / 1000) (2 ^ 31 - 1))
unfolding latency_snapshot
latency_run-latency_snapshot es now q h =
    let l = latency_run es unmeasured in
    let shown = shows_phase now l l.phase q h in
    let v = (latency_run-IsLatency es unmeasured unmeasured-IsLatency).measured shown.0 in
    let same : v.of_quality ≡ q = ground (arith, v.quality_at, shown.2) in
    (
      v.micros,
      v.time,
      v.micros_at,
      latency_run-LastSample es v.time shown.0 v.time_at,
      ground (arith, shown.1, v.observed),
      Settles-IsSettled l q v.micros (subst (λ p. Settles l p v.micros) same v.settles),
      ap (λ o. min ((micros_or_zero o + 999) / 1000) (2 ^ 31 - 1)) v.micros_at,
    )

with_quality-quality :
    (band : Quality) (m time : ℕ) (l : ConnectionLatency) (p q : Quality)
    → l.quality ≡ some p
    → p ≢ q
    → (with_quality true band m time l).quality ≡ some q
    → (l.candidate ≡ some q) × (band ≡ q)
with_quality-quality band m time l p q before other after =
    elim (Bool-cases (is_quality l.quality band || is_quality l.candidate band)) [
      | inl settled ↦ ground (arith, is_quality_iff l.quality band, is_quality_iff l.candidate band)
      | inr waits ↦ ground arith
    ]

-- A quality that waits is that of the latency that it waits with.
waits-InBand :
    (l : ConnectionLatency) (p q : Quality) (previous : ℕ)
    → Settles l p previous
    → p ≢ q
    → (l.candidate ≡ some q) ↔ InBand q previous
waits-InBand l p q previous (inl (band, settled)) other = (
  (λ h. ground (arith, settled, h)),
  (λ b. absurd (other (sym band ∙ (for_micros_iff previous q).1 b))),
)
waits-InBand l p q previous (inr (waits, differs)) other = (
  (λ h. (for_micros_iff previous q).0 (ground (arith, waits, h))),
  (λ b. waits ∙ ap some ((for_micros_iff previous q).1 b)),
)

with_quality-settles :
    (band : Quality) (m time : ℕ) (l : ConnectionLatency) (q : Quality)
    → l.candidate ≡ some q
    → band ≡ q
    → (with_quality true band m time l).quality ≡ some q
with_quality-settles band m time l q waits same =
    let found : is_quality l.candidate band ≡ true = rw (waits, same) (is_quality_self q) in
    ground (arith, found, same)

-- A sample that is not recorded is not newer than the last, or is ninety seconds old.
record_sample-cases :
    (nanos time now last previous : ℕ) (l : ConnectionLatency)
    → is_fresh now l ≡ true
    → l.measured_at ≡ some last
    → l.smoothed_micros ≡ some previous
    → (((record_sample nanos time now l).quality ≡ l.quality)
        × ((record_sample nanos time now l).smoothed_micros ≡ some previous)
        × ((time ≤ last) ⊎ (90000000000 ≤ now - time)))
      ⊎ ((last < time)
          × (now - time < 90000000000)
          × (record_sample nanos time now l
              ≡ with_sample true (blended (sample_micros nanos) (some previous)) time l))
unfolding record_sample
record_sample-cases nanos time now last previous l fresh at before =
    elim (Bool-cases (not_after time (some last))) [
      | inl late ↦ inl (rw (at, late) (refl, before, inl (ground (arith, late))))
      | inr newer ↦ elim (Bool-cases (leb sample_lifetime (now - time))) [
        | inl old ↦ inl (rw (at, newer, old) (refl, before, inr (ground (arith, old))))
        | inr young ↦ inr (
          ground (arith, newer),
          ground (arith, young),
          rw (at, newer, young, fresh, before) refl,
        )
      ]
    ]

-- After any history that leaves the connection measured (no timeout, expiry or loss since its last
-- sample), while that sample was measured less than ninety seconds ago, a new sample changes the
-- quality that is kept to another exactly if the sample is newer than the last and less than
-- ninety seconds old, and both the smoothed latency before it and the one after it are in the band
-- of that other quality.
pub record_sample-quality :
    (es : List LatencyEvent) (nanos time now last previous : ℕ) (p q : Quality)
    → (latency_run es unmeasured).phase ≡ measured
    → (latency_run es unmeasured).measured_at ≡ some last
    → now - last < 90000000000
    → (latency_run es unmeasured).smoothed_micros ≡ some previous
    → (latency_run es unmeasured).quality ≡ some p
    → p ≢ q
    → (m : ℕ) × ((record_sample nanos time now (latency_run es unmeasured)).smoothed_micros
        ≡ some m)
      × (((record_sample nanos time now (latency_run es unmeasured)).quality ≡ some q)
          ↔ ((last < time) × (now - time < 90000000000) × InBand q previous × InBand q m))
record_sample-quality es nanos time now last previous p q phase at recent before kept other =
    let l = latency_run es unmeasured in
    let v = (latency_run-IsLatency es unmeasured unmeasured-IsLatency).measured phase in
    let observed : l.observed_at ≡ some last = v.observed ∙ sym v.time_at ∙ at in
    let fresh : is_fresh now l ≡ true = rw (phase, observed) (ground (arith, recent)) in
    let settles : Settles l p previous =
      settled-as l v.of_quality p v.micros previous (some_inj (sym v.quality_at ∙ kept))
        (some_inj (sym v.micros_at ∙ before)) v.settles in
    let waits = waits-InBand l p q previous settles other in
    elim (record_sample-cases nanos time now last previous l fresh at before) [
      | inl (same, smooth, refused) ↦ (
        previous,
        smooth,
        (
          (λ h. absurd (other (some_inj (sym kept ∙ sym same ∙ h)))),
          (λ r. let a = r.0 in let b = r.1 in absurd (ground arith)),
        ),
      )
      | inr (newer, young, recorded) ↦
          (let m = blended (sample_micros nanos) (some previous) in
            let quality = ap (λ (k : ConnectionLatency). k.quality) recorded in
            (
              m,
              ap (λ (k : ConnectionLatency). k.smoothed_micros) recorded,
              (
                (λ h.
                    let changed =
                      with_quality-quality (for_micros m) m time l p q kept other
                        (sym quality ∙ h) in
                    (newer, young, waits.0 changed.0, (for_micros_iff m q).0 changed.1)),
                (λ r.
                    quality
                    ∙ with_quality-settles (for_micros m) m time l q (waits.1 r.2)
                        ((for_micros_iff m q).1 r.3)),
              ),
            ))
    ]
  where
    some_inj : {A : Type 0} {a b : A} → some a ≡ some b → a ≡ b
    some_inj e = ground arith

    settled-as :
        (l : ConnectionLatency) (p' p : Quality) (m' m : ℕ)
        → p' ≡ p
        → m' ≡ m
        → Settles l p' m'
        → Settles l p m
    settled-as l p' p m' m e f s = subst (λ q. Settles l q m) e (subst (λ n. Settles l p' n) f s)

-- A sample that is newer than the last and younger than ninety seconds leaves, while the last one is
-- fresh, a smoothed latency between that before it and the sample.
pub record_sample-between :
    (es : List LatencyEvent) (nanos time now previous : ℕ)
    → is_fresh now (latency_run es unmeasured) ≡ true
    → (latency_run es unmeasured).smoothed_micros ≡ some previous
    → not_after time (latency_run es unmeasured).measured_at ≡ false
    → now - time < sample_lifetime
    → (m : ℕ) × ((record_sample nanos time now (latency_run es unmeasured)).smoothed_micros
        ≡ some m)
      × (min previous (sample_micros nanos) ≤ m)
      × (m ≤ max previous (sample_micros nanos))
unfolding record_sample
record_sample-between es nanos time now previous fresh before newer young =
    let l = latency_run es unmeasured in
    let v = latency_run-IsLatency es unmeasured unmeasured-IsLatency in
    let bounds =
      blended-between (sample_micros nanos) previous (sample_micros-in nanos)
        (v.micros_in previous before) in
    let recent : leb sample_lifetime (now - time) ≡ false = ground arith in
    (
      blended (sample_micros nanos) (some previous),
      rw (newer, recent, fresh, before) refl,
      bounds.0,
      bounds.1,
    )
