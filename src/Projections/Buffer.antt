-- ===== src/Projections/Buffer.antt =====
-- `ProjectionClientBuffer` of src/sentinel_edge/projections/service.py, over any type of projections.
pub mod Deliveries
use sentinel_edge.Prelude.{
  ltb, leb, if◌then◌else◌, length, ℕ, zero, suc, Bool, true, false, Option, none, some, List, [],
  ◌∷◌, ◌++◌,
}

pub record ClientBuffer (A : Type 0) : Type 0 where
  pub capacity : ℕ
  pub items : List A
  pub resync_required : Bool

-- The answer of `offer`.
pub data Offered : Type 0 where
  queued resync : Offered

module _ {A : Type 0} where
  -- `__init__`; none is the refusal of an empty buffer.
  unfoldable pub create : ℕ → Option (ClientBuffer A)
  create capacity =
      if ltb capacity 1
      then none
      else some (record { capacity = capacity; items = []; resync_required = false })

  unfoldable pub offer : A → ClientBuffer A → Offered × ClientBuffer A
  offer p b =
      if b.resync_required
      then (resync, b)
      else if leb b.capacity (length b.items)
      then (resync, record b { items = []; resync_required = true })
      else (queued, record b { items = b.items ++ p ∷ [] })

  -- As many items from the front as there are, and the rest.
  abbrev pub take_front : ℕ → List A → List A × List A
  take_front zero l = ([], l)
  take_front (suc n) [] = ([], [])
  take_front (suc n) (x ∷ l) = let (front, back) = take_front n l in (x ∷ front, back)

  abbrev pub drain_count : Option ℕ → ClientBuffer A → ℕ
  drain_count none b = length b.items
  drain_count (some n) b = n

  -- Without a limit all items leave; a negative limit counts as 0.
  unfoldable pub drain : Option ℕ → ClientBuffer A → List A × ClientBuffer A
  drain limit b =
      let (front, back) = take_front (drain_count limit b) b.items in
      if b.resync_required then ([], b) else (front, record b { items = back })

  unfoldable pub reset_after_resync : ClientBuffer A → ClientBuffer A
  reset_after_resync b = record b { items = []; resync_required = false }
