-- ===== src/Session.antt =====
-- A worker's view of the shared store. Each procedure call is one transaction; `others` lists what
-- the other sessions commit before the first, second, … call of this one, so that every
-- interleaving of whole transactions is a value of it. `drawn` counts the UUIDs that
-- `crypto.randomUUID()` has given.
use instructed.Prelude.{ℕ, String, Bool, List, [], ◌∷◌}
use instructed.Errors.MapPg.{MapPgErrorContext, map_pg_error}
use instructed.Result.{Result, ok, throw, stuck}
use instructed.Store.{Store}

pub record Session (D S : Type 0) : Type 0 where
  pub store : Store D S
  pub others : List (Store D S → Store D S)
  pub drawn : ℕ

-- What the server and the runtime bring: which texts the type `uuid` accepts, and the UUIDs drawn.
pub record Platform : Type 0 where
  pub is_uuid : String → Bool
  pub random_uuid : ℕ → String

abbrev pub Io : Type 0 → Type 0 → Type 0 → Type 0
Io D S A = Session D S → Result A × Session D S

-- The result of a query, with the driver's error translated.
abbrev pub translate : {A : Type 0} → MapPgErrorContext → Result A → Result A
translate ctx (ok a) = ok a
translate ctx (throw e) = throw (map_pg_error e ctx)
translate ctx stuck = stuck

module _ {D S : Type 0} where
  abbrev pub resume : List (Store D S → Store D S) → Session D S → Session D S
  resume [] w = w
  resume (f ∷ fs) w = record w { store = f w.store; others = fs }

  -- The other sessions' commits up to this call.
  unfoldable pub interfere : Session D S → Session D S
  interfere w = resume w.others w

  module _ {A : Type 0} where
    abbrev pub settle :
        MapPgErrorContext → Result (A × Store D S) → Session D S → Result A × Session D S
    settle ctx (ok (a, s)) w = (ok a, record w { store = s })
    settle ctx (throw e) w = (throw (map_pg_error e ctx), w)
    settle ctx stuck w = (stuck, w)

    -- `Client.run`, of a procedure that only reads.
    unfoldable pub run_query : MapPgErrorContext → (Store D S → Result A) → Io D S A
    unfolding interfere
    run_query ctx query w = let w' = interfere w in (translate ctx (query w'.store), w')

    -- `Client.run`, of a procedure that writes.
    unfoldable pub run : MapPgErrorContext → (Store D S → Result (A × Store D S)) → Io D S A
    unfolding interfere
    run ctx procedure w = let w' = interfere w in settle ctx (procedure w'.store) w'
