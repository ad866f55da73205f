-- ===== src/Workers/Routing/Batch.antt =====
-- The batches that `routeOneBatch` (workers/routing/routing-worker.ts) routes.
use instructed.Prelude.{
  ℕ, suc, String, Bool, true, false, ◌≡◌, refl, sym, ap, ◌∙◌, ◌⊎◌, inl, inr, Option, none, some,
  List, [], ◌∷◌, ◌++◌,
}
use mathlib.Core.List.{append-nil, append_assoc}
use instructed.Result.{Result, ok, throw, stuck}
use instructed.Types.{RecordedEvent}
use instructed.Workers.Routing.{
  RoutingDecision, ignore, partition, malformed, RoutingFn, RouteDecision, RoutedBatch, Routed,
  routed, finish, after_route, unless_halted, route_from, route_one_batch,
}

-- The number of the last event, after a cursor.
abbrev pub last_cursor : {D : Type 0} → Option ℕ → List (RecordedEvent D) → Option ℕ
last_cursor cursor [] = cursor
last_cursor cursor (e ∷ es) = last_cursor (some e.event_number) es

module _ {D : Type 0} (route_fn : RoutingFn D) where
  abbrev pub decision_of : RecordedEvent D → Result RoutingDecision → List RouteDecision
  decision_of event (ok (partition key)) =
      record { partition_key = key; event_number = event.event_number } ∷ []
  decision_of event _ = []

  -- The decisions of the events that are not ignored, in order.
  abbrev pub decided : List (RecordedEvent D) → List RouteDecision
  decided [] = []
  decided (e ∷ es) = decision_of e (route_fn e) ++ decided es

  abbrev pub IsDecision : Result RoutingDecision → Type 0
  IsDecision r = (r ≡ ok ignore) ⊎ ((key : String) × (r ≡ ok (partition key)))

  -- Every event has a decision.
  abbrev pub AllDecided : List (RecordedEvent D) → Type 0
  AllDecided [] = Unit
  AllDecided (e ∷ es) = IsDecision (route_fn e) × AllDecided es

  abbrev pub Complete :
      List RouteDecision → Option ℕ → List (RecordedEvent D) → RoutedBatch → Type 0
  Complete before cursor batch b =
      AllDecided batch
      × (b.decisions ≡ before ++ decided batch)
      × (some b.cursor_to ≡ last_cursor cursor batch)

  module _ (halted : ℕ → Bool) where
    ends :
        (before : List RouteDecision) (cursor : Option ℕ) {b : RoutedBatch}
        → finish route_fn halted before cursor ≡ routed b
        → Complete before cursor [] b
    ends before none h = cc
    ends before (some c) {b} h =
        let e : record { decisions = before; cursor_to = c } ≡ b = cc in
        (
          tt,
          ap (λ x. x.decisions) (sym e) ∙ sym (append-nil before),
          ap (λ x. some x.cursor_to) (sym e),
        )

    -- One event of a batch that is routed.
    step :
        (next : List RouteDecision → Routed) (before : List RouteDecision) (e : RecordedEvent D)
        (halts halts' : Bool) (r : Result RoutingDecision) {b : RoutedBatch}
        → unless_halted route_fn halted halts (after_route route_fn halted next before e halts' r)
          ≡ routed b
        → IsDecision r × (next (before ++ decision_of e r) ≡ routed b)
    step next before e true halts' r h = cc
    step next before e false halts' (throw _) h = cc
    step next before e false halts' stuck h = cc
    step next before e false true (ok d) h = cc
    step next before e false false (ok ignore) h = (inl refl, rw append-nil h)
    step next before e false false (ok malformed) h = cc
    step next before e false false (ok (partition key)) h = (inr (key, refl), h)

    route_from-Complete :
        (i : ℕ) (before : List RouteDecision) (cursor : Option ℕ) (batch : List (RecordedEvent D))
        {b : RoutedBatch}
        → route_from route_fn halted i before cursor batch ≡ routed b
        → Complete before cursor batch b
    unfolding route_from
    route_from-Complete i before cursor [] h = ends before cursor h
    route_from-Complete i before cursor (e ∷ es) h =
        let next = λ (more : List RouteDecision).
          route_from route_fn halted (suc (suc i)) more (some e.event_number) es in
        let (decided_first, rest) = step next before e (halted i) (halted (suc i)) (route_fn e) h in
        let (others, decisions, cursor_to) =
          route_from-Complete (suc (suc i)) (before ++ decision_of e (route_fn e))
            (some e.event_number) es rest in
        (
          (decided_first, others),
          decisions ∙ append_assoc before (decision_of e (route_fn e)) (decided es),
          cursor_to,
        )

    -- A batch that is committed skips nothing: each of its events had a decision, the decisions that are
    -- sent are those of the events that are not ignored, in order, and the cursor goes to the number of
    -- the last event.
    pub route_one_batch-Complete :
        (batch : List (RecordedEvent D)) {b : RoutedBatch}
        → route_one_batch route_fn halted batch ≡ routed b
        → Complete [] none batch b
    unfolding route_one_batch
    route_one_batch-Complete batch h = route_from-Complete 0 [] none batch h

  goes_on :
      (next : List RouteDecision → Routed) (before : List RouteDecision) (e : RecordedEvent D)
      (r : Result RoutingDecision)
      → IsDecision r
      → after_route route_fn (λ _. false) next before e false r ≡ next (before ++ decision_of e r)
  goes_on next before e r (inl h) = rw (h, append-nil) refl
  goes_on next before e r (inr (key, h)) = rw h refl

  route_from-routed :
      (i : ℕ) (before : List RouteDecision) (cursor : ℕ) (batch : List (RecordedEvent D))
      → AllDecided batch
      → (c : ℕ) × (route_from route_fn (λ _. false) i before (some cursor) batch
          ≡ routed (record { decisions = before ++ decided batch; cursor_to = c }))
  unfolding route_from
  route_from-routed i before cursor [] h = (cursor, rw append-nil refl)
  route_from-routed i before cursor (e ∷ es) h =
      let next = λ (more : List RouteDecision).
        route_from route_fn (λ _. false) (suc (suc i)) more (some e.event_number) es in
      let (c, rest) =
        route_from-routed (suc (suc i)) (before ++ decision_of e (route_fn e)) e.event_number es
          h.1 in
      (
        c,
        goes_on next before e (route_fn e) h.0
            ∙ rest
            ∙ ap (λ l. routed (record { decisions = l; cursor_to = c }))
                (append_assoc before (decision_of e (route_fn e)) (decided es)),
      )

  -- Without a stop, a batch that is not empty and whose events all have a decision is routed.
  pub route_one_batch-routed :
      (e : RecordedEvent D) (es : List (RecordedEvent D))
      → AllDecided (e ∷ es)
      → (b : RoutedBatch) × (route_one_batch route_fn (λ _. false) (e ∷ es) ≡ routed b)
  unfolding route_one_batch route_from
  route_one_batch-routed e es h =
      let next = λ (more : List RouteDecision).
        route_from route_fn (λ _. false) 2 more (some e.event_number) es in
      let (c, rest) = route_from-routed 2 (decision_of e (route_fn e)) e.event_number es h.1 in
      (_, goes_on next [] e (route_fn e) h.0 ∙ rest)
