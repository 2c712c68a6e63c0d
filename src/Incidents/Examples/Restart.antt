-- ===== src/Incidents/Examples/Restart.antt =====
-- The journal's view of the incident of the examples, and a restart.
use sentinel_edge.Prelude.{length, nat_eq, lookup, ℕ, String, ◌≡◌, refl, true, List, [], ◌∷◌}
use sentinel_edge.Domain.Kinds.{HazardKind}
use sentinel_edge.Domain.Kinds.Equality.{hazard_eq}
use sentinel_edge.Storage.Journal.Reads.{latest_of, max_version, of_version}
use sentinel_edge.Incidents.{init}
use sentinel_edge.Incidents.Projection.{IsProjected, apply_analysis-IsProjected}
use sentinel_edge.Storage.Journal.{AuthorityPayload, empty_store}
use sentinel_edge.Incidents.Conformance.{projection_conformance}
use sentinel_edge.Incidents.Conformance.Histories.{apply_all, histories-conform}
use sentinel_edge.Incidents.Restart.{init-restores}
use sentinel_edge.Domain.Records.{AnalysisResult}
use sentinel_edge.Incidents.Examples.{
  hundredths_only, plain, smoke, late_flames, blinded, empty_engine, one,
}

empty-IsProjected : IsProjected empty_engine
unfolding latest_of max_version of_version
empty-IsProjected h = (refl, refl)

apply_analysis-IsProjected_example : IsProjected one
apply_analysis-IsProjected_example =
    apply_analysis-IsProjected hundredths_only plain smoke 110 empty_engine empty-IsProjected

one-IsProjected : IsProjected one
one-IsProjected =
    apply_analysis-IsProjected hundredths_only plain smoke 110 empty_engine empty-IsProjected

init-restores_example :
    lookup HazardKind.wildfire (init one.journal 8).current ≡ lookup HazardKind.wildfire one.current
init-restores_example = init-restores one 8 HazardKind.wildfire one-IsProjected

-- The second analysis repeats the first, the third is late.
abbrev history : List (AnalysisResult ℕ × ℕ)
history = (smoke, 110) ∷ (smoke, 120) ∷ (late_flames, 130) ∷ (blinded, 310) ∷ []

abbrev pub text : AuthorityPayload ℕ → String
text p = "authority"

histories-conform_example :
    let e = apply_all hundredths_only plain history (init empty_store 3) in
    projection_conformance plain.authority_digest text e ≡ record {
      valid = true;
      authority_watermark = length e.journal.authority_events;
      failures = [];
    }
histories-conform_example = histories-conform hundredths_only plain text history 3
