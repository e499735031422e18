-- ===== src/Telemetry/Timeline/Refusals.antt =====
-- What a refused call of the timeline leaves, and what an accepted one adds.
use load_forge.Common.{
  ℕ, suc, ◌≡◌, refl, [], ◌∷◌, ◌++◌, get_elem?, set, some, ok, err, arith, Option-cases, inl, inr,
}
use load_forge.Telemetry.Sample.{Metric}
use load_forge.Telemetry.Timeline.{
  Point, PhaseMark, Series, BoundedTimeline, TimelineFault, add_series, append_to, append,
  mark_phase,
}

append_to_refused :
    (id : ℕ) (point : Point) (timeline : BoundedTimeline) (target : Series) (fault : TimelineFault)
    → (append_to id point timeline target).0 ≡ err fault
    → (append_to id point timeline target).1 ≡ timeline
unfolding append_to
append_to_refused id point timeline target fault refused = ground arith

append_refused :
    (id : ℕ) (point : Point) (timeline : BoundedTimeline) (fault : TimelineFault)
    → (append id point timeline).0 ≡ err fault
    → (append id point timeline).1 ≡ timeline
unfolding append
append_refused id point timeline fault = elim (Option-cases (get_elem? timeline.series id)) [
  | inl absent ↦ simp absent (λ refused. refl)
  | inr found ↦ simp found.1 (append_to_refused id point timeline found.0 fault)
]

append_to_done :
    (id : ℕ) (point : Point) (timeline : BoundedTimeline) (target : Series)
    → (append_to id point timeline target).0 ≡ ok tt
    → ((append_to id point timeline target).1.series
        ≡ set timeline.series id (record target { points = target.points ++ (point ∷ []) }))
      × ((append_to id point timeline target).1.size ≡ suc timeline.size)
unfolding append_to
append_to_done id point timeline target done = ground arith

-- Every refusal leaves the timeline as it was, of a series, of a point and of a phase.
pub refused-unchanged :
    (metric : Metric) (id : ℕ) (point : Point) (mark : PhaseMark) (timeline : BoundedTimeline)
    (fault : TimelineFault)
    → ((add_series metric timeline).0 ≡ err fault → (add_series metric timeline).1 ≡ timeline)
      × ((append id point timeline).0 ≡ err fault → (append id point timeline).1 ≡ timeline)
      × ((mark_phase mark timeline).0 ≡ err fault → (mark_phase mark timeline).1 ≡ timeline)
unfolding add_series mark_phase
refused-unchanged metric id point mark timeline fault =
    (ground arith, append_refused id point timeline fault, ground arith)

-- An accepted point is one of its series more, at the end, and every other series is what it was.
pub append-points :
    (id : ℕ) (point : Point) (timeline : BoundedTimeline)
    → (append id point timeline).0 ≡ ok tt
    → (target : Series) × (get_elem? timeline.series id ≡ some target)
      × ((append id point timeline).1.series
          ≡ set timeline.series id (record target { points = target.points ++ (point ∷ []) }))
      × ((append id point timeline).1.size ≡ suc timeline.size)
unfolding append
append-points id point timeline = elim (Option-cases (get_elem? timeline.series id)) [
  | inl absent ↦ simp absent (λ done. cc)
  | inr found ↦ simp found.1 (λ done.
      let added = append_to_done id point timeline found.0 done in
      (found.0, refl, added.0, added.1))
]
