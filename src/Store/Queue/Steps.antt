-- ===== src/Store/Queue/Steps.antt =====
-- Sequences of calls on subscriptions and work items (sql/instructed.sql), by any number of workers.
use instructed.Prelude.{ℕ, ◌<◌, ◌≡◌, sym, subst, Bool, true, String, Option, some, List, [], arith}
use instructed.Types.{SnapshotInput}
use instructed.Result.{ok}
use instructed.Store.{SubscriptionRow, claimed, done, ItemKey, WorkItem, Store}
use instructed.Store.Subscriptions.{
  StartFrom, ClaimRow, subscription_of, claim_subscription, release_subscription,
  delete_subscription,
}
use instructed.Store.Queue.{Decision, RouteBatchRow, ClaimedRow, same_partition, find_item, checks}
use instructed.Store.Queue.Calls.{
  route_batch, claim_work_item, extend_work_item_claim, complete_work_item_projection,
  complete_work_item_pm, complete_pm_instance, fail_work_item,
}
use instructed.Store.Queue.Order.{IsQueue, is_filled}
use instructed.Store.Queue.Settled.{
  IsSettled, elsewhere-IsSettled, claim_work_item-IsSettled, extend_work_item_claim-IsSettled,
  complete_work_item_projection-IsSettled, complete_work_item_pm-IsSettled,
  fail_work_item-IsSettled,
}
use instructed.Store.Queue.Cursor.{
  release_subscription-IsSettled, delete_subscription-IsSettled, complete_pm_instance-IsSettled,
}
use instructed.Store.Queue.Lease.{claim_subscription-IsSettled}
use instructed.Store.Queue.Route.{Ahead, route_batch-IsSettled}

-- One call that returned, of any worker; or anything that leaves the two tables alone: an append, a
-- snapshot, the passing of time, a lock taken or given up.
pub data Step {D S : Type 0} (s s' : Store D S) : Type 0 where
  claims_subscription :
      (u name worker : String) (seconds : ℕ) (from : StartFrom) (x : ClaimRow)
      → claim_subscription u name worker seconds from s ≡ ok (x, s')
      → Step s s'
  releases_subscription :
      (u name worker : String) → release_subscription u name worker s ≡ ok (tt, s') → Step s s'
  deletes_subscription : (u name : String) → delete_subscription u name s ≡ ok (tt, s') → Step s s'
  routes :
      (u name worker : String) (cursor : ℕ) (ds : List Decision) (r : SubscriptionRow)
      (x : RouteBatchRow)
      → route_batch u name worker cursor ds s ≡ ok (x, s')
      → subscription_of u name s ≡ some r
      → Ahead r.last_seen cursor ds
      → Step s s'
  claims_item :
      (u name worker : String) (seconds : ℕ) (c : Option ClaimedRow)
      → claim_work_item u name worker seconds s ≡ ok (c, s')
      → Step s s'
  extends :
      (worker : String) (k : ItemKey) (seconds at : ℕ)
      → extend_work_item_claim worker k seconds s ≡ ok (at, s')
      → Step s s'
  completes_projection :
      (worker : String) (k : ItemKey)
      → complete_work_item_projection worker k s ≡ ok (tt, s')
      → Step s s'
  completes_pm :
      (worker : String) (k : ItemKey) (x : SnapshotInput S)
      → complete_work_item_pm worker k x s ≡ ok (tt, s')
      → Step s s'
  completes_instance :
      (u name partition uuid : String) (x : ℕ × Bool)
      → complete_pm_instance u name partition uuid s ≡ ok (x, s')
      → Step s s'
  fails :
      (worker : String) (k : ItemKey) (text : Option String)
      → fail_work_item worker k text s ≡ ok (tt, s')
      → Step s s'
  elsewhere : s'.subscriptions ≡ s.subscriptions → s'.work_items ≡ s.work_items → Step s s'

-- The stores that calls reach from one without work items.
pub data Reached {D S : Type 0} : Store D S → Type 0 where
  fresh : (s : Store D S) → s.work_items ≡ [] → Reached s
  after : (s s' : Store D S) → Reached s → Step s s' → Reached s'

module _ {D S : Type 0} where
  Step-IsSettled : {s s' : Store D S} → Step s s' → IsSettled s → IsSettled s'
  Step-IsSettled {s} {s'} (claims_subscription u name worker seconds from x h) =
      claim_subscription-IsSettled u name worker seconds from s h
  Step-IsSettled {s} {s'} (releases_subscription u name worker h) =
      release_subscription-IsSettled u name worker s h
  Step-IsSettled {s} {s'} (deletes_subscription u name h) = delete_subscription-IsSettled u name s h
  Step-IsSettled {s} {s'} (routes u name worker cursor ds r x h there ahead) =
      route_batch-IsSettled u name worker cursor ds s r h there ahead
  Step-IsSettled {s} {s'} (claims_item u name worker seconds c h) =
      claim_work_item-IsSettled u name worker seconds s c h
  Step-IsSettled {s} {s'} (extends worker k seconds at h) =
      extend_work_item_claim-IsSettled worker k seconds at s h
  Step-IsSettled {s} {s'} (completes_projection worker k h) =
      complete_work_item_projection-IsSettled worker k s h
  Step-IsSettled {s} {s'} (completes_pm worker k x h) =
      complete_work_item_pm-IsSettled worker k x s h
  Step-IsSettled {s} {s'} (completes_instance u name partition uuid x h) =
      complete_pm_instance-IsSettled u name partition uuid s h
  Step-IsSettled {s} {s'} (fails worker k text h) = fail_work_item-IsSettled worker k text s h
  Step-IsSettled {s} {s'} (elsewhere same_subscriptions same_items) =
      elsewhere-IsSettled s s' same_subscriptions same_items

  empty-IsSettled : (s : Store D S) → s.work_items ≡ [] → IsSettled s
  unfolding find_item
  empty-IsSettled s e = record {
    queue = subst IsQueue (sym e) (record {
      unique = tt;
      filled = λ k i h. absurd cc;
      in_order = λ k k' i j h h' same before held. absurd cc;
    });
    behind = λ k i h.
        let none_there : find_item k [] ≡ some i = subst (λ l. find_item k l ≡ some i) e h in
        absurd cc;
  }

  pub Reached-IsSettled : {s : Store D S} → Reached s → IsSettled s
  Reached-IsSettled (fresh s e) = empty-IsSettled s e
  Reached-IsSettled (after s s' before step) = Step-IsSettled step (Reached-IsSettled before)

  -- From a store without work items, whatever calls any number of workers make on
  -- subscriptions and items, in whatever order, as long as each batch is routed after its
  -- subscription's cursor and up to the new one: where an item is claimed, every item of its
  -- partition with a lower event number that is still there is done.
  pub Reached-in_order :
      (s : Store D S) (k k' : ItemKey) (i j : WorkItem)
      → Reached s
      → find_item k s.work_items ≡ some i
      → find_item k' s.work_items ≡ some j
      → same_partition k k' ≡ true
      → k.event_number < k'.event_number
      → j.state ≡ claimed
      → i.state ≡ done
  Reached-in_order s k k' i j reached = (Reached-IsSettled reached).queue.in_order k k' i j

  -- A row that such calls leave satisfies the CHECK constraints of its table.
  pub Reached-checks :
      (s : Store D S) (k : ItemKey) (i : WorkItem)
      → Reached s
      → find_item k s.work_items ≡ some i
      → checks i ≡ true
  unfolding is_filled checks
  Reached-checks s k i reached found =
      let filled = (Reached-IsSettled reached).queue.filled k i found in ground (arith, filled)
