-- ===== src/Telemetry/Timeline/Invariant.antt =====
-- What every timeline keeps: order within a series, distinct series, and the count of its points
-- within its capacity.
use load_forge.Common.{
  ℕ, zero, suc, ◌+◌, ◌≤◌, ◌≡◌, refl, sym, ap, subst, ◌∙◌, List, [], ◌∷◌, ◌++◌, length, get_elem?,
  set, All, All-append, true, false, leb, some, arith, length-append, Bool-cases, Option-cases, inl,
  inr,
}
use load_forge.Common.Int.{ℤ, ◌<ℤ◌}
use load_forge.Telemetry.Sample.{Metric, same_series}
use load_forge.Telemetry.Timeline.{
  Point, PhaseMark, Series, BoundedTimeline, empty_timeline, kind_matches, has_series, add_series,
  not_later, time_of, start_of, append_to, append, mark_phase, Call, adding, appending, marking,
  after_call, after_calls,
}

abbrev pub IsIncreasing : {A : Type 0} → (A → ℤ) → List A → Type 0
IsIncreasing time [] = Unit {0}
IsIncreasing time (item ∷ []) = Unit {0}
IsIncreasing time (item ∷ next ∷ items) =
    (time item <ℤ time next) × IsIncreasing time (next ∷ items)

abbrev pub total_points : List Series → ℕ
total_points [] = 0
total_points (series ∷ more) = length series.points + total_points more

pub record IsSeries (series : Series) : Type 0 where
  pub ordered : IsIncreasing time_of series.points
  pub suited : All (λ (p : Point). kind_matches series.metric.kind p.reading ≡ true) series.points

abbrev Differs : Metric → Series → Type 0
Differs metric other = same_series metric other.metric ≡ false

abbrev pub IsDistinct : List Series → Type 0
IsDistinct [] = Unit {0}
IsDistinct (series ∷ more) = All (Differs series.metric) more × IsDistinct more

pub record IsTimeline (timeline : BoundedTimeline) : Type 0 where
  pub counted : timeline.size ≡ total_points timeline.series
  pub bounded : timeline.size ≤ timeline.capacity
  pub each : All IsSeries timeline.series
  pub distinct : IsDistinct timeline.series
  pub phased : IsIncreasing start_of timeline.phases

IsIncreasing-end :
    {A : Type 0} (time : A → ℤ) (items : List A) (item : A)
    → not_later time (time item) items ≡ false
    → IsIncreasing time items
    → IsIncreasing time (items ++ (item ∷ []))
unfolding not_later
IsIncreasing-end time [] item later ordered = tt
IsIncreasing-end time (last ∷ []) item later ordered = (ground arith, tt)
IsIncreasing-end time (first ∷ next ∷ items) item later ordered =
    (ordered.0, IsIncreasing-end time (next ∷ items) item later ordered.1)

module _ (P : Series → Type 0) where
  All-set :
      (series : List Series) (i : ℕ) (new : Series)
      → All P series
      → P new
      → All P (set series i new)
  All-set [] i new all holds = tt
  All-set (s ∷ series) zero new all holds = (holds, all.1)
  All-set (s ∷ series) (suc i) new all holds = (all.0, All-set series i new all.1 holds)

  All-get_elem? :
      (series : List Series) (i : ℕ) (found : Series)
      → get_elem? series i ≡ some found
      → All P series
      → P found
  All-get_elem? [] i found at all = cc
  All-get_elem? (s ∷ series) zero found at all = let same : s ≡ found = cc in subst P same all.0
  All-get_elem? (s ∷ series) (suc i) found at all = All-get_elem? series i found at all.1

IsDistinct-end :
    (series : List Series) (new : Series)
    → has_series new.metric series ≡ false
    → IsDistinct series
    → IsDistinct (series ++ (new ∷ []))
unfolding has_series
IsDistinct-end [] new absent distinct = (tt, tt)
IsDistinct-end (s ∷ series) new absent distinct =
    let this : same_series s.metric new.metric ≡ false = ground arith in
    let rest : has_series new.metric series ≡ false = ground arith in
    (
      All-append (Differs s.metric) series (new ∷ []) distinct.0 (this, tt),
      IsDistinct-end series new rest distinct.1,
    )

IsDistinct-set :
    (series : List Series) (i : ℕ) (found : Series) (points : List Point)
    → get_elem? series i ≡ some found
    → IsDistinct series
    → IsDistinct (set series i (record found { points = points }))
IsDistinct-set [] i found points at distinct = tt
IsDistinct-set (s ∷ series) zero found points at distinct =
    let same : s ≡ found = cc in
    (subst (λ (t : Series). All (Differs t.metric) series) same distinct.0, distinct.1)
IsDistinct-set (s ∷ series) (suc i) found points at distinct = (
  All-set (Differs s.metric) series i _ distinct.0
      (All-get_elem? (Differs s.metric) series i found at distinct.0),
  IsDistinct-set series i found points at distinct.1,
)

total_set :
    (series : List Series) (i : ℕ) (found : Series) (point : Point)
    → get_elem? series i ≡ some found
    → total_points (set series i (record found { points = found.points ++ (point ∷ []) }))
      ≡ suc (total_points series)
total_set [] i found point at = cc
total_set (s ∷ series) zero found point at =
    let same : s ≡ found = cc in
    let points : length s.points ≡ length found.points =
      ap (λ (t : Series). length t.points) same in
    omega (arith, points, length-append found.points (point ∷ []))
total_set (s ∷ series) (suc i) found point at = omega (arith, total_set series i found point at)

empty_timeline-IsTimeline : (capacity : ℕ) → IsTimeline (empty_timeline capacity)
unfolding empty_timeline
empty_timeline-IsTimeline capacity = record {
  counted = refl;
  bounded = omega arith;
  each = tt;
  distinct = tt;
  phased = tt;
}

total_end :
    (series : List Series) (metric : Metric)
    → total_points (series ++ (record { metric = metric; points = [] } ∷ [])) ≡ total_points series
total_end [] metric = omega arith
total_end (s ∷ series) metric = omega (arith, total_end series metric)

add_series-IsTimeline :
    (metric : Metric) (timeline : BoundedTimeline)
    → IsTimeline timeline
    → IsTimeline (add_series metric timeline).1
unfolding add_series
add_series-IsTimeline metric timeline kept = elim (Bool-cases (has_series metric timeline.series)) [
  | inl there ↦ simp there kept
  | inr absent ↦ simp absent record {
    counted = kept.counted ∙ sym (total_end timeline.series metric);
    bounded = kept.bounded;
    each =
        All-append IsSeries timeline.series _ kept.each (record { ordered = tt; suited = tt }, tt);
    distinct = IsDistinct-end timeline.series _ absent kept.distinct;
    phased = kept.phased;
  }
]

mark_phase-IsTimeline :
    (mark : PhaseMark) (timeline : BoundedTimeline)
    → IsTimeline timeline
    → IsTimeline (mark_phase mark timeline).1
unfolding mark_phase
mark_phase-IsTimeline mark timeline kept =
    elim (Bool-cases (not_later start_of mark.start_ns timeline.phases)) [
      | inl early ↦ simp early kept
      | inr later ↦ simp later record {
        counted = kept.counted;
        bounded = kept.bounded;
        each = kept.each;
        distinct = kept.distinct;
        phased = IsIncreasing-end start_of timeline.phases mark later kept.phased;
      }
    ]

append_to-IsTimeline :
    (id : ℕ) (point : Point) (timeline : BoundedTimeline) (target : Series)
    → get_elem? timeline.series id ≡ some target
    → IsTimeline timeline
    → IsTimeline (append_to id point timeline target).1
unfolding append_to
append_to-IsTimeline id point timeline target at kept =
    elim (Bool-cases (not_later time_of point.timestamp_ns target.points)) [
      | inl early ↦ simp early kept
      | inr later ↦ elim (Bool-cases (kind_matches target.metric.kind point.reading)) [
        | inr unsuited ↦ simp (later, unsuited) kept
        | inl suits ↦ elim (Bool-cases (leb timeline.capacity timeline.size)) [
          | inl full ↦ simp (later, suits, full) kept
          | inr room ↦ simp (later, suits, room) (grown later suits room)
        ]
      ]
    ]
  where
    old : IsSeries target
    old = All-get_elem? IsSeries timeline.series id target at kept.each

    grown :
        not_later time_of point.timestamp_ns target.points ≡ false
        → kind_matches target.metric.kind point.reading ≡ true
        → leb timeline.capacity timeline.size ≡ false
        → IsTimeline record timeline {
          size = suc timeline.size;
          series =
              set timeline.series id (record target { points = target.points ++ (point ∷ []) });
        }
    grown later suits room = record {
      counted = ap suc kept.counted ∙ sym (total_set timeline.series id target point at);
      bounded = ground arith;
      each = All-set IsSeries timeline.series id _ kept.each record {
        ordered = IsIncreasing-end time_of target.points point later old.ordered;
        suited = All-append _ target.points (point ∷ []) old.suited (suits, tt);
      };
      distinct = IsDistinct-set timeline.series id target _ at kept.distinct;
      phased = kept.phased;
    }

append-IsTimeline :
    (id : ℕ) (point : Point) (timeline : BoundedTimeline)
    → IsTimeline timeline
    → IsTimeline (append id point timeline).1
unfolding append
append-IsTimeline id point timeline kept = elim (Option-cases (get_elem? timeline.series id)) [
  | inl absent ↦ simp absent kept
  | inr found ↦ simp found.1 (append_to-IsTimeline id point timeline found.0 found.1 kept)
]

after_call-IsTimeline :
    (call : Call) (timeline : BoundedTimeline)
    → IsTimeline timeline
    → IsTimeline (after_call call timeline)
unfolding after_call
after_call-IsTimeline (adding metric) timeline kept = add_series-IsTimeline metric timeline kept
after_call-IsTimeline (appending id point) timeline kept = append-IsTimeline id point timeline kept
after_call-IsTimeline (marking mark) timeline kept = mark_phase-IsTimeline mark timeline kept

after_calls_keeps :
    (calls : List Call) (timeline : BoundedTimeline)
    → IsTimeline timeline
    → IsTimeline (after_calls calls timeline)
unfolding after_calls
after_calls_keeps [] timeline kept = kept
after_calls_keeps (call ∷ calls) timeline kept =
    after_calls_keeps calls (after_call call timeline) (after_call-IsTimeline call timeline kept)

-- Whatever calls a run makes of its timeline, in whatever order, it holds as many points as it counts
-- and no more than its capacity, the points of a series and the phases are in strictly increasing
-- order of time, every reading suits its series, and no two series are the same.
pub after_calls-IsTimeline :
    (capacity : ℕ) (calls : List Call) → IsTimeline (after_calls calls (empty_timeline capacity))
after_calls-IsTimeline capacity calls =
    after_calls_keeps calls (empty_timeline capacity) (empty_timeline-IsTimeline capacity)
