-- ===== src/Incidents/Review.antt =====
-- `IncidentEventEngine.review` of src/sentinel_edge/incidents/engine.py.
use sentinel_edge.Prelude.{◌==◌, if◌then◌else◌, Result, lookup, not, none, some, ok, err}
use sentinel_edge.Domain.Kinds.Equality.{hazard_eq}
use sentinel_edge.Domain.Records.{IncidentReviewState, ReviewAction}
use sentinel_edge.Storage.Journal.Writes.{record_review}
use sentinel_edge.Incidents.{Engine, EngineError, Externals, store, review_target_not_current}

module _ {Float : Type 0} (ex : Externals Float) where
  unfoldable pub review :
      ReviewAction → Engine Float → Result EngineError IncidentReviewState × Engine Float
  review a e = elim (lookup a.hazard e.current) [
    | none ↦ (err review_target_not_current, e)
    | some c ↦
        let (outcome, s) = record_review ex.authority_digest a e.journal in
        if not (c.incident_id == a.incident_id)
        then (err review_target_not_current, e)
        else elim outcome [
          | ok state ↦ (ok state, record e { journal = s })
          | err x ↦ (err (store x), e)
        ]
  ]
