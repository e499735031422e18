-- ===== src/Examples/Timelines.antt =====
-- The theorems about telemetry at concrete inputs.
use load_forge.Common.{◌≡◌, refl, [], ◌∷◌, none, ok}
use load_forge.Common.Int.{pos}
use load_forge.Telemetry.Sample.{Metric, gauge_kind, machine, gauge}
use load_forge.Telemetry.Timeline.{
  Point, PhaseMark, BoundedTimeline, empty_timeline, append, append_to, adding, appending, marking,
  after_calls, not_later, kind_matches,
}
use load_forge.Telemetry.Timeline.Invariant.{IsTimeline, after_calls-IsTimeline}

abbrev load : Metric
load = record {
  name = 108 ∷ 46 ∷ 97 ∷ [];
  unit = 0;
  kind = gauge_kind;
  scope = machine;
  scope_index = 0;
  modulus = none;
  provider = [];
}

abbrev reading_at_7 : Point
reading_at_7 = record { timestamp_ns = pos 7; reading = gauge 3 }

abbrev settle : PhaseMark
settle = record { start_ns = pos 1; label = [] }

after_calls-IsTimeline_example : IsTimeline (
    after_calls
      (adding load ∷ appending 0 reading_at_7 ∷ appending 0 reading_at_7 ∷ marking settle ∷ [])
      (empty_timeline 1))
after_calls-IsTimeline_example =
    after_calls-IsTimeline 1
      (adding load ∷ appending 0 reading_at_7 ∷ appending 0 reading_at_7 ∷ marking settle ∷ [])

abbrev one_series : BoundedTimeline
one_series = record {
  capacity = 4;
  size = 0;
  series = record { metric = load; points = [] } ∷ [];
  phases = [];
}

reading_accepted : (append 0 reading_at_7 one_series).0 ≡ ok tt
unfolding append append_to not_later kind_matches
reading_accepted = refl
