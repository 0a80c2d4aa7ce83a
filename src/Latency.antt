-- ===== src/Latency.antt =====
-- src/app/state/latency.rs: the latency of a connection that a Tab shows. A time is a number of
-- nanoseconds, and the reading of the clock an argument; the text of the wall time is left out.
pub mod Kept
pub mod Bands
pub mod Shown
use ax_ssh.Prelude.{
  ℕ, ◌+◌, ◌-◌, ◌*◌, ◌/◌, ◌%◌, ◌^◌, min, Bool, true, false, not, ◌&&◌, ◌||◌, Option, none, some, ltb,
  leb, if◌then◌else◌,
}

-- Ninety seconds.
abbrev pub sample_lifetime : ℕ
sample_lifetime = 90000000000

pub data LatencyPhase : Type 0 where
  measuring measured timed_out stale unavailable : LatencyPhase

pub data Quality : Type 0 where
  good moderate high poor : Quality

unfoldable pub for_micros : ℕ → Quality
for_micros micros =
    if ltb micros 100000
    then good
    else if ltb micros 250000
    then moderate
    else if ltb micros 500000
    then high
    else poor

pub record ConnectionLatency : Type 0 where
  pub phase : LatencyPhase
  pub smoothed_micros : Option ℕ
  pub quality : Option Quality
  pub candidate : Option Quality
  pub measured_at : Option ℕ
  pub observed_at : Option ℕ

-- `ConnectionLatency::default`.
abbrev pub unmeasured : ConnectionLatency
unmeasured = record {
  phase = measuring;
  smoothed_micros = none;
  quality = none;
  candidate = none;
  measured_at = none;
  observed_at = none;
}

abbrev pub is_measured : LatencyPhase → Bool
is_measured measuring = false
is_measured measured = true
is_measured timed_out = false
is_measured stale = false
is_measured unavailable = false

-- `==`, on an `Option` of a quality and a quality.
abbrev pub is_quality : Option Quality → Quality → Bool
is_quality none q = false
is_quality (some good) good = true
is_quality (some good) moderate = false
is_quality (some good) high = false
is_quality (some good) poor = false
is_quality (some moderate) good = false
is_quality (some moderate) moderate = true
is_quality (some moderate) high = false
is_quality (some moderate) poor = false
is_quality (some high) good = false
is_quality (some high) moderate = false
is_quality (some high) high = true
is_quality (some high) poor = false
is_quality (some poor) good = false
is_quality (some poor) moderate = false
is_quality (some poor) high = false
is_quality (some poor) poor = true

-- `measured_at <= previous`.
abbrev pub not_after : ℕ → Option ℕ → Bool
not_after time none = false
not_after time (some previous) = leb time previous

-- `now.saturating_duration_since(at) < SAMPLE_LIFETIME`, of a time that may be missing.
abbrev pub is_recent : ℕ → Option ℕ → Bool
is_recent now none = false
is_recent now (some time) = ltb (now - time) sample_lifetime

abbrev pub is_fresh : ℕ → ConnectionLatency → Bool
is_fresh now l = is_measured l.phase && is_recent now l.observed_at

-- `sample.as_micros().min(u64::MAX as u128) as u64`.
abbrev pub sample_micros : ℕ → ℕ
sample_micros nanos = min (nanos / 1000) (2 ^ 64 - 1)

abbrev pub blended : ℕ → Option ℕ → ℕ
blended sample none = sample
blended sample (some previous) = ((previous * 4 + sample) / 5) % (2 ^ 64)

-- `smoothed`.
abbrev pub smoothed : Bool → ℕ → ConnectionLatency → ℕ
smoothed fresh sample l = if fresh then blended sample l.smoothed_micros else sample

-- The new sample, once it is smoothed and of a quality.
abbrev pub with_quality : Bool → Quality → ℕ → ℕ → ConnectionLatency → ConnectionLatency
with_quality fresh q micros time l =
    let settled = not fresh || is_quality l.quality q || is_quality l.candidate q in
    record {
      phase = measured;
      smoothed_micros = some micros;
      quality = if settled then some q else l.quality;
      candidate = if settled then none else some q;
      measured_at = some time;
      observed_at = some time;
    }

abbrev pub with_sample : Bool → ℕ → ℕ → ConnectionLatency → ConnectionLatency
with_sample fresh micros time l = with_quality fresh (for_micros micros) micros time l

unfoldable pub record_sample : ℕ → ℕ → ℕ → ConnectionLatency → ConnectionLatency
unfolding for_micros
record_sample sample time now l =
    if not_after time l.measured_at
    then l
    else if leb sample_lifetime (now - time)
    then record l { phase = stale }
    else with_sample (is_fresh now l) (smoothed (is_fresh now l) (sample_micros sample) l) time l

unfoldable pub record_timeout : ℕ → ConnectionLatency → ConnectionLatency
record_timeout now l = record l { phase = timed_out; observed_at = some now; candidate = none }

unfoldable pub expire : ConnectionLatency → ConnectionLatency
expire l = record l { phase = stale }

unfoldable pub make_unavailable : ConnectionLatency → ConnectionLatency
make_unavailable l = record l { phase = unavailable }

pub data ShownState : Type 0 where
  shows_quality : Quality → ShownState
  shows_measuring shows_timeout shows_stale shows_unavailable : ShownState

abbrev pub quality_or_measuring : Option Quality → ShownState
quality_or_measuring none = shows_measuring
quality_or_measuring (some q) = shows_quality q

abbrev pub is_old : ℕ → Option ℕ → Bool
is_old now none = false
is_old now (some time) = leb sample_lifetime (now - time)

-- `state` of the snapshot.
abbrev pub shown_state : ℕ → ConnectionLatency → LatencyPhase → ShownState
shown_state now l measuring = shows_measuring
shown_state now l measured =
    if is_old now l.observed_at then shows_stale else quality_or_measuring l.quality
shown_state now l timed_out = if is_old now l.observed_at then shows_stale else shows_timeout
shown_state now l stale = shows_stale
shown_state now l unavailable = shows_unavailable

abbrev pub micros_or_zero : Option ℕ → ℕ
micros_or_zero none = 0
micros_or_zero (some micros) = micros

-- The state and the milliseconds, which round up.
unfoldable pub latency_snapshot : ℕ → ConnectionLatency → ShownState × ℕ
latency_snapshot now l =
    (shown_state now l l.phase, min ((micros_or_zero l.smoothed_micros + 999) / 1000) (2 ^ 31 - 1))
