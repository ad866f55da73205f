-- ===== src/Facade/Filter.antt =====
-- `onlyTypes` under the routing worker.
use instructed.Prelude.{
  ℕ, String, Bool, ◌≡◌, refl, ap, ◌∙◌, inl, inr, none, some, List, [], ◌∷◌, ◌++◌, Bool-cases,
  select,
}
use instructed.Types.{RecordedEvent}
use instructed.Workers.Routing.{RoutingFn, RoutedBatch, routed, route_one_batch}
use instructed.Workers.Routing.Batch.{decided, decision_of, last_cursor, route_one_batch-Complete}
use instructed.Facade.{has_type, only_types}

module _ {D : Type 0} (types : List String) (inner : RoutingFn D) where
  abbrev pub of_types : List (RecordedEvent D) → List (RecordedEvent D)
  of_types = select (λ e. has_type e.type types)

  decided-only_types :
      (batch : List (RecordedEvent D))
      → decided (only_types types inner) batch ≡ decided inner (of_types batch)
  unfolding select
  decided-only_types [] = refl
  decided-only_types (e ∷ es) = elim (Bool-cases (has_type e.type types)) [
    | inl listed ↦ rw listed (ap (λ l. decision_of inner e (inner e) ++ l) (decided-only_types es))
    | inr other ↦ rw other (decided-only_types es)
  ]

  -- Under `onlyTypes` a batch that is routed has the decisions of `inner` on the events of the listed types
  -- alone, and still the cursor passes the events of the other types.
  pub route_one_batch-only_types :
      (halted : ℕ → Bool) (batch : List (RecordedEvent D)) {b : RoutedBatch}
      → route_one_batch (only_types types inner) halted batch ≡ routed b
      → (b.decisions ≡ decided inner (of_types batch)) × (some b.cursor_to ≡ last_cursor none batch)
  route_one_batch-only_types halted batch h =
      let (_, decisions, cursor) =
        route_one_batch-Complete (only_types types inner) halted batch h in
      (decisions ∙ decided-only_types batch, cursor)
