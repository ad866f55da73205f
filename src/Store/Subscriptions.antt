-- ===== src/Store/Subscriptions.antt =====
-- The leases on subscriptions: `claim_subscription`, `release_subscription` and `delete_subscription` of
-- sql/instructed.sql. The parameters are not null, as the SDK's types say. A call is one transaction, so
-- the row it looks up is the row it updates; another transaction shows in the rows held locked.
pub mod Leases
use instructed.Prelude.{
  ℕ, ◌+◌, ◌≡◌, String, ◌==◌, ◌<>◌, Bool, true, false, not, ◌&&◌, Option, none, some, List, [], ◌∷◌,
  ltb, leb, beq, if◌then◌else◌, select, get_or_else,
}
use instructed.Prelude.Int.{ℤ, pos, negsuc}
use instructed.Errors.{Thrown}
use instructed.Result.{Result, ok, throw, throw_if, ◌>>=◌, ◌>>◌}
use instructed.Store.{SubscriptionRow, WorkItem, StreamRow, Store, stream_version, raise}

-- `p_options->>'start_from'`; a number is what the cast to `bigint` gives.
pub data StartFrom : Type 0 where
  origin current : StartFrom
  number : ℤ → StartFrom

pub data ClaimOutcome : Type 0 where
  claimed already_claimed : ClaimOutcome

pub record ClaimRow : Type 0 where
  pub result : ClaimOutcome
  pub last_seen : ℕ
  pub claimed_by : Option String
  pub claim_expires_at : Option ℕ

-- The row of a stream in `streams`; `$all` is the seed row.
unfoldable pub stream_head : {D S : Type 0} → String → Store D S → Option ℕ
stream_head u s = if u == "$all" then some s.all_version else stream_version u s.streams

unfoldable pub keyed : String → String → SubscriptionRow → Bool
keyed u name r = (r.stream_uuid == u) && (r.subscription_name == name)

unfoldable pub find_subscription : String → String → List SubscriptionRow → Option SubscriptionRow
find_subscription u name [] = none
find_subscription u name (r ∷ rs) = if keyed u name r then some r else find_subscription u name rs

-- `update subscriptions set … where stream_id = … and subscription_name = …`
unfoldable pub update_subscription :
    String
    → String
    → (SubscriptionRow → SubscriptionRow)
    → List SubscriptionRow
    → List SubscriptionRow
update_subscription u name f [] = []
update_subscription u name f (r ∷ rs) =
    let rest = update_subscription u name f rs in if keyed u name r then f r ∷ rest else r ∷ rest

abbrev pub names : String → Option String → Bool
names worker none = false
names worker (some holder) = holder == worker

abbrev pub is_after : ℕ → Option ℕ → Bool
is_after now none = false
is_after now (some at) = ltb now at

-- A live lease of a worker other than `worker`; either column may be null.
unfoldable pub held_by_other : String → ℕ → SubscriptionRow → Bool
held_by_other worker now r = held r.claimed_by
  where
    held : Option String → Bool
    held none = false
    held (some holder) = not (holder == worker) && is_after now r.claim_expires_at

abbrev pub reported : ClaimOutcome → SubscriptionRow → ClaimRow
reported outcome r = record {
  result = outcome;
  last_seen = r.last_seen;
  claimed_by = r.claimed_by;
  claim_expires_at = r.claim_expires_at;
}

-- The cursor of a new subscription; `head` is the stream's version.
abbrev pub initial_cursor : StartFrom → ℕ → Result ℕ
initial_cursor origin head = ok 0
initial_cursor current head = ok head
initial_cursor (number (pos n)) head = ok n
initial_cursor (number (negsuc n)) head =
    throw (raise "22023" "claim_subscription: start_from must be non-negative")

abbrev pub leased : String → ℕ → SubscriptionRow → SubscriptionRow
leased worker expires r = record r { claimed_by = some worker; claim_expires_at = some expires }

abbrev pub require_text : String → String → Result (Unit {0})
require_text text message = throw_if (text == "") (raise "22023" message)

abbrev pub subscription_missing : String → String → String → Thrown
subscription_missing procedure u name =
    raise "IS020" (procedure <> ": subscription " <> name <> " on " <> u <> " not found")

abbrev pub lease_lost : String → Option String → String → Thrown
lease_lost procedure holder worker = raise "IS022" (
    procedure
    <> ": lease lost (holder="
    <> get_or_else holder "<none>"
    <> ", caller="
    <> worker
    <> ")")

-- The row of a subscription: IS020 where the stream or the subscription is not there.
abbrev pub found_on :
    String → String → String → Option ℕ → Option SubscriptionRow → Result SubscriptionRow
found_on procedure u name none r =
    throw (raise "IS020" (procedure <> ": subscription not found (no such stream)"))
found_on procedure u name (some head) none = throw (subscription_missing procedure u name)
found_on procedure u name (some head) (some r) = ok r

abbrev pub require_holder : String → String → SubscriptionRow → Result (Unit {0})
require_holder procedure worker r =
    throw_if (not (names worker r.claimed_by)) (lease_lost procedure r.claimed_by worker)

module _ {D S : Type 0} where
  unfoldable pub subscription_of : String → String → Store D S → Option SubscriptionRow
  subscription_of u name s = find_subscription u name s.subscriptions

  abbrev pub create_subscription :
      String → String → String → ℕ → Store D S → ℕ → Result (ClaimRow × Store D S)
  create_subscription u name worker expires s cursor =
      let row : SubscriptionRow = record {
        stream_uuid = u;
        subscription_name = name;
        last_seen = cursor;
        claimed_by = some worker;
        claim_expires_at = some expires;
        created_at = s.now;
      } in
      ok (reported claimed row, record s { subscriptions = row ∷ s.subscriptions })

  abbrev pub take_lease :
      String → String → String → ℕ → Store D S → SubscriptionRow → Result (ClaimRow × Store D S)
  take_lease u name worker expires s r = ok (
    reported claimed (leased worker expires r),
    record s { subscriptions = update_subscription u name (leased worker expires) s.subscriptions },
  )

  -- What follows the look-up of the row: the first claim, or the checks before and under its lock.
  abbrev pub claim_row :
      String
      → String
      → String
      → ℕ
      → StartFrom
      → ℕ
      → Store D S
      → Option SubscriptionRow
      → Result (ClaimRow × Store D S)
  claim_row u name worker expires from head s none =
      initial_cursor from head >>= create_subscription u name worker expires s
  claim_row u name worker expires from head s (some r) =
      if held_by_other worker s.now r
      then ok (reported already_claimed r, s)
      else if s.subscription_locked r
      then ok (reported already_claimed r, s)
      else take_lease u name worker expires s r

  abbrev pub claim_on :
      String
      → String
      → String
      → ℕ
      → StartFrom
      → Store D S
      → Option ℕ
      → Result (ClaimRow × Store D S)
  claim_on u name worker expires from s none =
      throw (raise "IS003" ("claim_subscription: stream " <> u <> " not found"))
  claim_on u name worker expires from s (some head) =
      claim_row u name worker expires from head s (subscription_of u name s)

  unfoldable pub claim_subscription :
      String → String → String → ℕ → StartFrom → Store D S → Result (ClaimRow × Store D S)
  unfolding stream_head subscription_of
  claim_subscription u name worker lease_seconds from s = do
    require_text name "claim_subscription: p_subscription_name is null/empty"
    require_text worker "claim_subscription: p_worker_id is null/empty"
    throw_if (beq lease_seconds 0)
        (raise "22023" "claim_subscription: p_lease_seconds must be a positive integer")
    claim_on u name worker (s.now + lease_seconds) from s (stream_head u s)

  unfoldable pub require_subscription :
      String → String → String → Store D S → Result SubscriptionRow
  require_subscription procedure u name s =
      found_on procedure u name (stream_head u s) (subscription_of u name s)

  unfoldable pub release_subscription :
      String → String → String → Store D S → Result (Unit {0} × Store D S)
  release_subscription u name worker s = do
    require_text name "release_subscription: p_subscription_name is null/empty"
    require_text worker "release_subscription: p_worker_id is null/empty"
    r ← require_subscription "release_subscription" u name s
    require_holder "release_subscription" worker r
    ok (
      tt,
      record s {
        subscriptions =
            update_subscription u name
              (λ q. record q { claimed_by = none; claim_expires_at = none }) s.subscriptions;
      },
    )

  -- The work items go with the row (`on delete cascade`).
  unfoldable pub delete_subscription : String → String → Store D S → Result (Unit {0} × Store D S)
  delete_subscription u name s = do
    require_text name "delete_subscription: p_subscription_name is null/empty"
    _ ← require_subscription "delete_subscription" u name s
    ok (
      tt,
      record s {
        subscriptions = select (λ r. not (keyed u name r)) s.subscriptions;
        work_items =
            select
              (λ (i : WorkItem).
                not ((i.key.stream_uuid == u) && (i.key.subscription_name == name)))
              s.work_items;
      },
    )

  -- Whether a subscription is found does not depend on who asks.
  pub require_subscription-any :
      (p q u name : String) (s : Store D S) {r : SubscriptionRow}
      → require_subscription p u name s ≡ ok r
      → require_subscription q u name s ≡ ok r
  unfolding require_subscription
  require_subscription-any p q u name s {r} h = any (stream_head u s) (subscription_of u name s) h
    where
      any :
          (head : Option ℕ) (o : Option SubscriptionRow)
          → found_on p u name head o ≡ ok r
          → found_on q u name head o ≡ ok r
      any none o h = absurd cc
      any (some head) none h = absurd cc
      any (some head) (some x) h = h
