-- ===== src/Events/Streams.antt =====
-- Streams of Redis and their consumer groups, as its client shows them. A call that reports an error
-- may have been carried out.
pub mod Moves
use gigmile_test.Prelude.{
  ℕ, ◌-◌, ◌≤◌, ◌<◌, String, ◌≡◌, ◌≢◌, ◌⊎◌, true, Option, none, some, List, [], ◌∷◌, ◌++◌, str_eq,
  length, drop, codes, if◌then◌else◌,
}
use gigmile_test.Prelude.Int.{ℤ}
use gigmile_test.Domain.Errors.{Error, error_text, is_redis_nil}
use gigmile_test.Result.{Result, ok, err}
use gigmile_test.Events.Event.{EventText}

-- The fields of an entry; `data` may be missing in one that another program added.
pub record Values : Type 0 where
  pub event_id : String
  pub event_type : String
  pub aggregate_id : String
  pub occurred_at : ℤ
  pub data_text : Option EventText

pub record Message : Type 0 where
  pub id : String
  pub values : Values

-- What was not delivered to the group yet, and what was delivered and not acknowledged.
pub record Group : Type 0 where
  pub unread : List Message
  pub pending : List Message

pub record Stream : Type 0 where
  pub entries : List Message
  pub groups : String → Option Group

abbrev pub put_stream : String → Stream → (String → Stream) → String → Stream
put_stream key s all j = if str_eq key j then s else all j

abbrev pub put_group : String → String → Group → (String → Stream) → String → Stream
put_group key name g all =
    put_stream key
      (record (all key) { groups = λ h. if str_eq name h then some g else (all key).groups h }) all

-- XADD with a bound: the oldest `n` entries are dropped, from what no group has read yet as well.
abbrev pub shortened : ℕ → ℕ → Message → Option Group → Option Group
shortened n len m none = none
shortened n len m (some g) =
    some (record g { unread = drop (n - (len - length g.unread)) (g.unread ++ m ∷ []) })

abbrev pub extended : ℕ → Message → Stream → Stream
extended n m s = record {
  entries = drop n (s.entries ++ m ∷ []);
  groups = λ h. shortened n (length s.entries) m (s.groups h);
}

-- Nothing is dropped from a stream that is shorter than the bound.
pub record Adds (key : String) (bound : ℕ) (m : Message) (before after : String → Stream)
    : Type 0 where
  pub dropped : ℕ
  pub short : length (before key).entries < bound → dropped ≡ 0
  pub streams : after ≡ put_stream key (extended dropped m (before key)) before

abbrev pub IsAdded :
    String → ℕ → Values → (String → Stream) → Result String → (String → Stream) → Type 0
IsAdded key bound v before (ok id) after =
    Adds key bound (record { id = id; values = v }) before after
IsAdded key bound v before (err e) after =
    (after ≡ before)
    ⊎ ((id : String) × Adds key bound (record { id = id; values = v }) before after)

-- XGROUP CREATE … 0 MKSTREAM: the group has everything to read.
abbrev pub created : String → String → (String → Stream) → String → Stream
created key name before =
    put_group key name (record { unread = (before key).entries; pending = [] }) before

-- the error of a group that is there already
abbrev pub IsBusy : Error → Type 0
IsBusy e = error_text e ≡ codes "BUSYGROUP Consumer Group name already exists"

abbrev pub IsCreated :
    String → String → (String → Stream) → Result (Unit {0}) → (String → Stream) → Type 0
IsCreated key name before (ok _) after =
    ((before key).groups name ≡ none) × (after ≡ created key name before)
IsCreated key name before (err e) after =
    ((after ≡ before) × (IsBusy e → (before key).groups name ≢ none))
    ⊎ ((¬ IsBusy e) × ((before key).groups name ≡ none) × (after ≡ created key name before))

-- The first unread messages go to a consumer and are pending.
pub record Delivers (key name : String) (count : ℕ) (ms : List Message)
    (before after : String → Stream) : Type 0 where
  pub group : Group
  pub rest : List Message
  pub there : (before key).groups name ≡ some group
  pub unread : group.unread ≡ ms ++ rest
  pub few : length ms ≤ count
  pub streams :
      after ≡ put_group key name (record { unread = rest; pending = group.pending ++ ms }) before

abbrev pub concat : List (List Message) → List Message
concat [] = []
concat (ms ∷ rest) = ms ++ concat rest

-- XREADGROUP … >: the messages of each stream that was asked for, or `redis.Nil` where the wait for
-- one ended
abbrev pub IsDelivered :
    String
    → String
    → ℕ
    → (String → Stream)
    → Result (List (List Message))
    → (String → Stream)
    → Type 0
IsDelivered key name count before (ok streams) after =
    Delivers key name count (concat streams) before after
IsDelivered key name count before (err e) after =
    (after ≡ before)
    ⊎ ((is_redis_nil e ≢ true) × (ms : List Message) × Delivers key name count ms before after)

abbrev pub without : String → List Message → List Message
without id [] = []
without id (m ∷ ms) = if str_eq id m.id then without id ms else m ∷ without id ms

-- XACK: the message is no longer pending. Nothing happens where there is no group.
pub record Acks (key name id : String) (before after : String → Stream) : Type 0 where
  pub group : Group
  pub there : (before key).groups name ≡ some group
  pub streams :
      after ≡ put_group key name (record group { pending = without id group.pending }) before

abbrev pub IsAcked :
    String → String → String → (String → Stream) → Result ℕ → (String → Stream) → Type 0
IsAcked key name id before (ok n) after =
    (((before key).groups name ≡ none) × (after ≡ before)) ⊎ Acks key name id before after
IsAcked key name id before (err e) after = (after ≡ before) ⊎ Acks key name id before after

pub record Streams : Type 1 where
  pub Log : Type 0
  pub streams : Log → String → Stream
  -- the bound on the length, then the fields
  pub xadd : String → ℕ → Values → Log → Result String × Log
  pub xadd_adds :
      (key : String) (bound : ℕ) (v : Values) (l : Log)
      → IsAdded key bound v (streams l) (xadd key bound v l).0 (streams (xadd key bound v l).1)
  pub xgroup_create : String → String → Log → Result (Unit {0}) × Log
  pub xgroup_create_creates :
      (key name : String) (l : Log)
      → IsCreated key name
          (streams l)
          (xgroup_create key name l).0
          (streams (xgroup_create key name l).1)
  -- the stream, the identifier to read from, the group, the consumer, and how many messages at
  -- most: `>` stands for what no consumer was given yet, others for what the consumer has pending
  pub xread_group : String → String → String → String → ℕ → Log → Result (List (List Message)) × Log
  pub xread_group_delivers :
      (key name consumer : String) (count : ℕ) (l : Log)
      → IsDelivered key name count
          (streams l)
          (xread_group key ">" name consumer count l).0
          (streams (xread_group key ">" name consumer count l).1)
  pub xack : String → String → String → Log → Result ℕ × Log
  pub xack_acks :
      (key name id : String) (l : Log)
      → IsAcked key name id (streams l) (xack key name id l).0 (streams (xack key name id l).1)
