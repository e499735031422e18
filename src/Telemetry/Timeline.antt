-- ===== src/Telemetry/Timeline.antt =====
-- telemetry/timeline/bounded_timeline.cpp: a timeline with room for so many points over all series.
-- A refusal is its fault, without the text.
pub mod Invariant
pub mod Refusals
pub mod Sizes
use load_forge.Common.{
  ℕ, zero, suc, ◌+◌, ◌-◌, ◌*◌, ◌%◌, ◌^◌, List, [], ◌∷◌, ◌++◌, length, get_elem?, set, Bool, true,
  false, not, ltb, leb, if◌then◌else◌, Option, none, some, Outcome, ok, err,
}
use load_forge.Common.Int.{ℤ, leb_ℤ}
use load_forge.Telemetry.Sample.{
  Metric, Kind, gauge_kind, counter_kind, Reading, unavailable, gauge, counter, same_series,
}

pub record Point : Type 0 where
  pub timestamp_ns : ℤ
  pub reading : Reading

pub record PhaseMark : Type 0 where
  pub start_ns : ℤ
  pub label : List ℕ

pub data TimelineFault : Type 0 where
  duplicate_series unknown_series out_of_order kind_mismatch no_capacity : TimelineFault

pub record Series : Type 0 where
  pub metric : Metric
  pub points : List Point

pub record BoundedTimeline : Type 0 where
  pub capacity : ℕ
  pub size : ℕ
  pub series : List Series
  pub phases : List PhaseMark

unfoldable pub empty_timeline : ℕ → BoundedTimeline
empty_timeline capacity = record { capacity = capacity; size = 0; series = []; phases = [] }

unfoldable pub kind_matches : Kind → Reading → Bool
kind_matches gauge_kind (gauge value) = true
kind_matches counter_kind (gauge value) = false
kind_matches counter_kind (counter raw) = true
kind_matches gauge_kind (counter raw) = false
kind_matches kind unavailable = true

-- `__builtin_mul_overflow` over size_t.
unfoldable pub saturating_multiply : ℕ → ℕ → ℕ
saturating_multiply lhs rhs = if ltb (lhs * rhs) (2 ^ 64) then lhs * rhs else 2 ^ 64 - 1

-- The loop of add_series: whether some series is the metric's.
unfoldable pub has_series : Metric → List Series → Bool
has_series metric [] = false
has_series metric (existing ∷ more) =
    if same_series existing.metric metric then true else has_series metric more

-- The id is cast to a uint32_t.
unfoldable pub add_series : Metric → BoundedTimeline → Outcome ℕ TimelineFault × BoundedTimeline
unfolding has_series
add_series metric timeline =
    if has_series metric timeline.series then (err duplicate_series, timeline) else (
      ok ((length timeline.series + 1 - 1) % 2 ^ 32),
      record timeline {
        series = timeline.series ++ (record { metric = metric; points = [] } ∷ []);
      },
    )

-- `!items.empty() && at <= items.back().<time>`.
unfoldable pub not_later : {A : Type 0} → (A → ℤ) → ℤ → List A → Bool
not_later time at [] = false
not_later time at (item ∷ []) = leb_ℤ at (time item)
not_later time at (item ∷ next ∷ items) = not_later time at (next ∷ items)

abbrev pub time_of : Point → ℤ
time_of point = point.timestamp_ns

abbrev pub start_of : PhaseMark → ℤ
start_of mark = mark.start_ns

unfoldable pub append_to :
    ℕ → Point → BoundedTimeline → Series → Outcome (Unit {0}) TimelineFault × BoundedTimeline
unfolding not_later kind_matches
append_to id point timeline target =
    if not_later time_of point.timestamp_ns target.points
    then (err out_of_order, timeline)
    else if not (kind_matches target.metric.kind point.reading)
    then (err kind_mismatch, timeline)
    else if leb timeline.capacity timeline.size
    then (err no_capacity, timeline)
    else (
      ok tt,
      record timeline {
        size = suc timeline.size;
        series = set timeline.series id (record target { points = target.points ++ (point ∷ []) });
      },
    )

unfoldable pub append :
    ℕ → Point → BoundedTimeline → Outcome (Unit {0}) TimelineFault × BoundedTimeline
unfolding append_to
append id point timeline = found (get_elem? timeline.series id)
  where
    found : Option Series → Outcome (Unit {0}) TimelineFault × BoundedTimeline
    found none = (err unknown_series, timeline)
    found (some target) = append_to id point timeline target

unfoldable pub mark_phase :
    PhaseMark → BoundedTimeline → Outcome (Unit {0}) TimelineFault × BoundedTimeline
unfolding not_later
mark_phase mark timeline =
    if not_later start_of mark.start_ns timeline.phases
    then (err out_of_order, timeline)
    else (ok tt, record timeline { phases = timeline.phases ++ (mark ∷ []) })

unfoldable pub run_capacity : (seconds hertz series : ℕ) → ℕ
unfolding saturating_multiply
run_capacity seconds hertz series = saturating_multiply (saturating_multiply seconds hertz) series

-- `point_bytes` is sizeof(Point).
unfoldable pub memory_bound_bytes : (point_bytes capacity : ℕ) → ℕ
unfolding saturating_multiply
memory_bound_bytes point_bytes capacity =
    saturating_multiply (saturating_multiply capacity point_bytes) 3

-- The calls that a run makes of its timeline, in order.
pub data Call : Type 0 where
  adding : Metric → Call
  appending : ℕ → Point → Call
  marking : PhaseMark → Call

unfoldable pub after_call : Call → BoundedTimeline → BoundedTimeline
unfolding add_series append mark_phase
after_call (adding metric) timeline = (add_series metric timeline).1
after_call (appending id point) timeline = (append id point timeline).1
after_call (marking mark) timeline = (mark_phase mark timeline).1

unfoldable pub after_calls : List Call → BoundedTimeline → BoundedTimeline
unfolding after_call
after_calls [] timeline = timeline
after_calls (call ∷ calls) timeline = after_calls calls (after_call call timeline)
