-- ===== src/Memory/Streams.antt =====
-- Streams in memory that keep the promises of `Streams`. The identifier of an entry is that of its
-- event.
use gigmile_test.Prelude.{
  ℕ, suc, ◌-◌, ◌≤◌, ◌<◌, String, ◌≡◌, refl, sym, ◌∙◌, inl, inr, Option, none, some, List, [], ◌∷◌,
  ◌++◌, arith, length, take, drop, length-take, take-append-drop, str_eq, if◌then◌else◌,
}
use mathlib.Core.List.{append-nil}
use gigmile_test.Domain.Errors.{external, redis_nil}
use gigmile_test.Result.{Result, ok, err}
use gigmile_test.Events.Streams.{
  Streams, Stream, Group, Message, put_stream, put_group, extended, created, without, concat,
  IsCreated, IsDelivered, IsAcked,
}
use gigmile_test.Events.Worker.Told.{IsServing}

abbrev pub Log : Type 0
Log = String → Stream

abbrev pub create : Option Group → String → String → Log → Result (Unit {0}) × Log
create none key name st = (ok tt, created key name st)
create (some g) key name st = (err (external "BUSYGROUP Consumer Group name already exists"), st)

pub create-IsCreated :
    (o : Option Group) (key name : String) (st : Log)
    → (st key).groups name ≡ o
    → IsCreated key name st (create o key name st).0 (create o key name st).1
create-IsCreated none key name st h = (h, refl)
create-IsCreated (some g) key name st h = inl (refl, λ busy absent. cc (h, absent))

abbrev pub deliver :
    Group → List Message → String → String → ℕ → Log → Result (List (List Message)) × Log
deliver g [] key name count st = (err redis_nil, st)
deliver g (m ∷ ms) key name count st = (
  ok (take count (m ∷ ms) ∷ []),
  put_group key name
      (record { unread = drop count (m ∷ ms); pending = g.pending ++ (take count (m ∷ ms) ++ []) })
      st,
)

abbrev pub read : Option Group → String → String → ℕ → Log → Result (List (List Message)) × Log
read none key name count st = (err (external "NOGROUP"), st)
read (some g) key name count st = deliver g g.unread key name count st

taken : (count : ℕ) (ms : List Message) → ms ≡ (take count ms ++ []) ++ drop count ms
taken count ms = rw (append-nil (take count ms)) (sym (take-append-drop count ms))

few_taken : (count : ℕ) (ms : List Message) → length (take count ms ++ []) ≤ count
few_taken count ms = rw (append-nil (take count ms)) (omega (arith, length-take count ms))

deliver-IsDelivered :
    (g : Group) (ms : List Message) (key name : String) (count : ℕ) (st : Log)
    → (st key).groups name ≡ some g
    → g.unread ≡ ms
    → IsDelivered key name count st
        (deliver g ms key name count st).0
        (deliver g ms key name count st).1
deliver-IsDelivered g [] key name count st there h = inl refl
deliver-IsDelivered g (m ∷ ms) key name count st there h = record {
  group = g;
  rest = drop count (m ∷ ms);
  there = there;
  unread = h ∙ taken count (m ∷ ms);
  few = few_taken count (m ∷ ms);
  streams = refl;
}

pub read-IsDelivered :
    (o : Option Group) (key name : String) (count : ℕ) (st : Log)
    → (st key).groups name ≡ o
    → IsDelivered key name count st (read o key name count st).0 (read o key name count st).1
read-IsDelivered none key name count st h = inl refl
read-IsDelivered (some g) key name count st h =
    deliver-IsDelivered g g.unread key name count st h refl

abbrev pub acknowledge : Option Group → String → String → String → Log → Result ℕ × Log
acknowledge none key name id st = (ok 0, st)
acknowledge (some g) key name id st =
    (ok 1, put_group key name (record g { pending = without id g.pending }) st)

pub acknowledge-IsAcked :
    (o : Option Group) (key name id : String) (st : Log)
    → (st key).groups name ≡ o
    → IsAcked key name id st (acknowledge o key name id st).0 (acknowledge o key name id st).1
acknowledge-IsAcked none key name id st h = inl (h, refl)
acknowledge-IsAcked (some g) key name id st h =
    inr (record { group = g; there = h; streams = refl })

abbrev pub memory_streams : Streams
memory_streams = record {
  Log = Log;
  streams = λ st. st;
  xadd = λ key bound v st. (
    ok v.event_id,
    put_stream key
        (extended (suc (length (st key).entries) - bound) (record { id = v.event_id; values = v })
          (st key))
        st,
  );
  xadd_adds = λ key bound v st. record {
    dropped = suc (length (st key).entries) - bound;
    short = λ h. omega arith;
    streams = refl;
  };
  xgroup_create = λ key name st. create ((st key).groups name) key name st;
  xgroup_create_creates = λ key name st. create-IsCreated ((st key).groups name) key name st refl;
  xread_group = λ key id name consumer count st.
      if str_eq id ">" then read ((st key).groups name) key name count st else (ok [], st);
  xread_group_delivers =
      λ key name consumer count st. read-IsDelivered ((st key).groups name) key name count st refl;
  xack = λ key name id st. acknowledge ((st key).groups name) key name id st;
  xack_acks = λ key name id st. acknowledge-IsAcked ((st key).groups name) key name id st refl;
}

deliver_serves :
    (g : Group) (ms : List Message) (key name : String) (count : ℕ) (st : Log)
    → 0 < length ms
    → (lists : List (List Message)) × ((deliver g ms key name count st).0 ≡ ok lists)
      × (concat lists ≡ take count ms)
deliver_serves g [] key name count st h = absurd (omega arith)
deliver_serves g (m ∷ ms) key name count st h =
    (take count (m ∷ ms) ∷ [], refl, append-nil (take count (m ∷ ms)))

pub memory_streams-IsServing : IsServing memory_streams
memory_streams-IsServing = record {
  xadd = λ key bound v l. (v.event_id, refl);
  xread_group = λ key group consumer count l g there h.
      rw there (deliver_serves g g.unread key group count l h);
}
