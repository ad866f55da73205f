-- ===== src/Workers/Routing/Ascending.antt =====
-- The decisions that the routing worker commits (sdks/typescript/src/workers/routing/routing-worker.ts) on
-- events in the order of `$all`.
use instructed.Prelude.{
  ℕ, suc, ◌≤◌, ◌<◌, ◌≡◌, refl, sym, subst, Bool, true, false, Option, none, some, List, [], ◌∷◌,
  ◌++◌, map, arith,
}
use instructed.Result.{Result, ok, throw, stuck}
use instructed.Types.{RecordedEvent}
use instructed.Client.Queue.{decision_payload}
use instructed.Store.Queue.{Decision}
use instructed.Store.Queue.Route.{Ahead}
use instructed.Workers.Routing.{
  RoutingFn, RoutingDecision, ignore, partition, malformed, RouteDecision, RoutedBatch, routed,
  after_route, unless_halted, route_from, route_one_batch,
}

-- Event numbers that grow, the first of them after `last_seen`.
abbrev pub Ascending : {D : Type 0} → ℕ → List (RecordedEvent D) → Type 0
Ascending last_seen [] = Unit
Ascending last_seen (e ∷ es) = (last_seen < e.event_number) × Ascending e.event_number es

-- The decisions as they are sent.
abbrev pub payloads : List RouteDecision → List Decision
payloads = map decision_payload

Ahead-later :
    (last_seen cursor later : ℕ) (ds : List RouteDecision)
    → cursor ≤ later
    → Ahead last_seen cursor (payloads ds)
    → Ahead last_seen later (payloads ds)
Ahead-later last_seen cursor later [] le h = tt
Ahead-later last_seen cursor later (d ∷ ds) le h =
    (h.0, omega (arith, le, h.1), Ahead-later last_seen cursor later ds le h.2)

Ahead-append :
    (last_seen cursor : ℕ) (ds : List RouteDecision) (d : RouteDecision)
    → last_seen < d.event_number
    → d.event_number ≤ cursor
    → Ahead last_seen cursor (payloads ds)
    → Ahead last_seen cursor (payloads (ds ++ d ∷ []))
Ahead-append last_seen cursor [] d low high h = (low, high, tt)
Ahead-append last_seen cursor (x ∷ ds) d low high h =
    (h.0, h.1, Ahead-append last_seen cursor ds d low high h.2)

module _ {D : Type 0} (route_fn : RoutingFn D) (halted : ℕ → Bool) (last_seen : ℕ) where
  -- What is known of the decisions made when the cursor is at `seen`.
  route_from-Ahead :
      (i : ℕ) (ds : List RouteDecision) (cursor : Option ℕ) (seen : ℕ) (es : List (RecordedEvent D))
      {b : RoutedBatch}
      → ((c : ℕ) → cursor ≡ some c → c ≡ seen)
      → last_seen ≤ seen
      → Ahead last_seen seen (payloads ds)
      → Ascending seen es
      → route_from route_fn halted i ds cursor es ≡ routed b
      → Ahead last_seen b.cursor_to (payloads b.decisions)
  unfolding route_from
  route_from-Ahead i ds none seen [] at low ahead grows h = absurd cc
  route_from-Ahead i ds (some c) seen [] {b} at low ahead grows h =
      let own : b ≡ record { decisions = ds; cursor_to = c } = cc in
      subst (λ (z : RoutedBatch). Ahead last_seen z.cursor_to (payloads z.decisions)) (sym own)
        (subst (λ z. Ahead last_seen z (payloads ds)) (sym (at c refl)) ahead)
  route_from-Ahead i ds cursor seen (e ∷ es) {b} at low ahead grows h =
      turn (halted i) (halted (suc i)) (route_fn e) h (λ more made ih.
        route_from-Ahead (suc (suc i)) more (some e.event_number) e.event_number es (λ c q. cc)
          (omega (arith, low, grows.0)) made grows.1 ih)
    where
      turn :
          (s t : Bool) (r : Result RoutingDecision)
          → unless_halted route_fn halted s (
              after_route route_fn halted
                (λ more. route_from route_fn halted (suc (suc i)) more (some e.event_number) es)
                ds
                e
                t
                r)
            ≡ routed b
          → ((more : List RouteDecision)
              → Ahead last_seen e.event_number (payloads more)
              → route_from route_fn halted (suc (suc i)) more (some e.event_number) es ≡ routed b
              → Ahead last_seen b.cursor_to (payloads b.decisions))
          → Ahead last_seen b.cursor_to (payloads b.decisions)
      turn true t r q ih = absurd cc
      turn false t (throw x) q ih = absurd cc
      turn false t stuck q ih = absurd cc
      turn false true (ok d) q ih = absurd cc
      turn false false (ok ignore) q ih =
          ih ds (Ahead-later last_seen seen e.event_number ds (omega (arith, grows.0)) ahead) q
      turn false false (ok malformed) q ih = absurd cc
      turn false false (ok (partition key)) q ih =
          ih _
            (Ahead-append last_seen e.event_number ds _ (omega (arith, low, grows.0)) (omega arith)
              (Ahead-later last_seen seen e.event_number ds (omega (arith, grows.0)) ahead))
            q

  -- On events whose numbers grow from above `last_seen`, the decisions of a routed batch are
  -- on numbers above `last_seen` and up to the cursor that is committed with them, as the
  -- queue's order asks of them.
  pub route_one_batch-Ahead :
      (batch : List (RecordedEvent D)) (b : RoutedBatch)
      → Ascending last_seen batch
      → route_one_batch route_fn halted batch ≡ routed b
      → Ahead last_seen b.cursor_to (payloads b.decisions)
  unfolding route_one_batch
  route_one_batch-Ahead batch b grows h =
      route_from-Ahead 0 [] none last_seen batch (λ c q. absurd cc) (omega arith) tt grows h
