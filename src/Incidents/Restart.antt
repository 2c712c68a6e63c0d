-- ===== src/Incidents/Restart.antt =====
-- The engine after a restart: `__init__` on the store of a running engine (src/sentinel_edge/incidents/engine.py).
use sentinel_edge.Prelude.{
  if◌then◌else◌, nat_eq, Dict, lookup, insert, lookup-insert, ℕ, ◌≡◌, refl, ap, ◌∙◌, Bool, true,
  false, Option, none, some, List, [], ◌∷◌, ◌++◌,
}
use sentinel_edge.Domain.Kinds.{HazardKind}
use sentinel_edge.Domain.Kinds.Equality.{hazard_eq, same_hazard}
use sentinel_edge.Domain.Records.{IncidentRecord}
use sentinel_edge.Storage.Journal.{JournalStore}
use sentinel_edge.Storage.Journal.Reads.{latest_of, latest_by_hazard}
use sentinel_edge.Incidents.{Engine, by_hazard, init}
use sentinel_edge.Incidents.Projection.{Shown, IsProjected}

if_same {ℓ} : {A : Type ℓ} (b : Bool) (x : A) → x ≡ (if b then x else x)
if_same true x = refl
if_same false x = refl

module _ {Float : Type 0} where
  by_hazard-append :
      (xs ys : List (IncidentRecord Float)) (d : Dict HazardKind (IncidentRecord Float))
      → by_hazard (xs ++ ys) d ≡ by_hazard ys (by_hazard xs d)
  unfolding by_hazard
  by_hazard-append [] ys d = refl
  by_hazard-append (r ∷ xs) ys d = by_hazard-append xs ys (insert r.hazard r d)

  abbrev or_else :
      Option (IncidentRecord Float) → Option (IncidentRecord Float) → Option (IncidentRecord Float)
  or_else none o = o
  or_else (some c) o = some c

  -- Loading the latest records of a hazard sets that hazard's entry and no other.
  by_hazard-latest_of :
      (j h : HazardKind) (o : Option (IncidentRecord Float)) (s : JournalStore Float)
      (d : Dict HazardKind (IncidentRecord Float))
      → Shown h o s
      → lookup j (by_hazard (latest_of s h) d)
        ≡ (if same_hazard j h then or_else o (lookup j d) else lookup j d)
  unfolding by_hazard
  by_hazard-latest_of j h none s d k =
      ap (λ l. lookup j (by_hazard l d)) k.0 ∙ if_same (same_hazard j h) (lookup j d)
  by_hazard-latest_of j h (some c) s d k =
      ap (λ l. lookup j (by_hazard l d)) k.0
      ∙ lookup-insert j c.hazard c d
      ∙ ap (λ i. if same_hazard j i then some c else lookup j d) k.2

  or_else-none : (o : Option (IncidentRecord Float)) → or_else o none ≡ o
  or_else-none none = refl
  or_else-none (some c) = refl

  -- One hazard's step of the load.
  abbrev step :
      HazardKind
      → (HazardKind → Option (IncidentRecord Float))
      → HazardKind
      → Option (IncidentRecord Float)
      → Option (IncidentRecord Float)
  step j o h rest = if same_hazard j h then or_else (o h) rest else rest

  step-all :
      (o : HazardKind → Option (IncidentRecord Float)) (h : HazardKind)
      → step h o HazardKind.wildfire (
          step h o HazardKind.landslide
            (step h o HazardKind.flood (step h o HazardKind.earthquake none)))
        ≡ o h
  step-all o HazardKind.wildfire = or_else-none (o HazardKind.wildfire)
  step-all o HazardKind.flood = or_else-none (o HazardKind.flood)
  step-all o HazardKind.earthquake = or_else-none (o HazardKind.earthquake)
  step-all o HazardKind.landslide = or_else-none (o HazardKind.landslide)

  -- An engine that is started on the store of an engine whose current records are the journal's
  -- latest has the same current record for every hazard.
  pub init-restores :
      (e : Engine Float) (budget : ℕ) (h : HazardKind)
      → IsProjected e
      → lookup h (init e.journal budget).current ≡ lookup h e.current
  unfolding init latest_by_hazard
  init-restores e budget h k =
      let s = e.journal in
      let now = λ (i : HazardKind). lookup i e.current in
      let load = λ (i : HazardKind) (d : Dict HazardKind (IncidentRecord Float)).
        by_hazard (latest_of s i) d in
      let loaded = λ (i : HazardKind) (d : Dict HazardKind (IncidentRecord Float)).
        by_hazard-latest_of h i (now i) s d (k i) in
      let d1 = load HazardKind.earthquake [] in
      let d2 = load HazardKind.flood d1 in
      let d3 = load HazardKind.landslide d2 in
      let rest = latest_of s HazardKind.landslide ++ latest_of s HazardKind.wildfire in
      ap (lookup h) (
        by_hazard-append (latest_of s HazardKind.earthquake) (latest_of s HazardKind.flood ++ rest)
          []
        ∙ by_hazard-append (latest_of s HazardKind.flood) rest d1
        ∙ by_hazard-append (latest_of s HazardKind.landslide) (latest_of s HazardKind.wildfire) d2)
      ∙ loaded HazardKind.wildfire d3
      ∙ ap (step h now HazardKind.wildfire) (loaded HazardKind.landslide d2)
      ∙ ap (λ o. step h now HazardKind.wildfire (step h now HazardKind.landslide o))
          (loaded HazardKind.flood d1)
      ∙ ap
          (λ o.
            step h now HazardKind.wildfire
              (step h now HazardKind.landslide (step h now HazardKind.flood o)))
          (loaded HazardKind.earthquake [])
      ∙ step-all now h
