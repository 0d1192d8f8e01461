-- ===== src/Events/Streams/Moves.antt =====
-- What the commands do to one group: messages move from the unread to the pending, and leave those
-- when they are acknowledged.
use gigmile_test.Prelude.{
  ℕ, String, ◌≡◌, refl, sym, ap, ◌∙◌, inl, inr, false, some, List, [], ◌∷◌, ◌++◌, str_eq, eq_iff,
  Bool-cases,
}
use mathlib.Core.List.{Memᴰ, append_assoc}
use mathlib.Core.List.Memᴰ.{append_left, append_right, append_cases, cases_cons}
use gigmile_test.Events.Streams.{Message, Group, Stream, put_group, Delivers, Acks, without}

abbrev pub held : Group → List Message
held g = g.pending ++ g.unread

pub put_group_same :
    (key name : String) (g : Group) (st : String → Stream)
    → ((put_group key name g st) key).groups name ≡ some g
put_group_same key name g st = rw ((eq_iff key key).1 refl, (eq_iff name name).1 refl) refl

pub put_group_other :
    (key key' name : String) (g : Group) (st : String → Stream)
    → str_eq key key' ≡ false
    → (put_group key name g st) key' ≡ st key'
put_group_other key key' name g st other = rw other refl

without-mem : (id : String) (ms : List Message) (x : Message) → Memᴰ x (without id ms) → Memᴰ x ms
without-mem id (m ∷ ms) x h = elim (Bool-cases (str_eq id m.id)) [
  | inl same ↦ Memᴰ.tail (without-mem id ms x (rw same at h))
  | inr other ↦ elim (cases_cons {b = m} (rw other at h)) [
    | inl e ↦ Memᴰ.head e
    | inr there ↦ Memᴰ.tail (without-mem id ms x there)
  ]
]
without-mem id [] x h = h

mem-without :
    (id : String) (ms : List Message) (x : Message)
    → str_eq id x.id ≡ false
    → Memᴰ x ms
    → Memᴰ x (without id ms)
mem-without id (m ∷ ms) x other h = elim (cases_cons h) [
  | inl e ↦ rw (← e, other) (Memᴰ.head refl)
  | inr there ↦ elim (Bool-cases (str_eq id m.id)) [
    | inl same ↦ rw same (mem-without id ms x other there)
    | inr kept ↦ rw kept (Memᴰ.tail (mem-without id ms x other there))
  ]
]
mem-without id [] x other h = h

-- The group `name` of the stream `key` is there, and holds messages of `all` only.
pub record IsWatched (all : List Message) (key name : String) (st : String → Stream) : Type 0 where
  pub group : Group
  pub there : (st key).groups name ≡ some group
  pub within : (x : Message) → Memᴰ x (held group) → Memᴰ x all

-- A message is unread or pending.
abbrev pub IsHeld : Message → String → String → (String → Stream) → Type 0
IsHeld m key name st = (group : Group) × ((st key).groups name ≡ some group) × Memᴰ m (held group)

-- A delivery moves messages inside the group.
pub Delivers-same :
    (key name : String) (count : ℕ) (ms : List Message) (st st' : String → Stream)
    → Delivers key name count ms st st'
    → (g g' : Group) × ((st key).groups name ≡ some g)
      × ((st' key).groups name ≡ some g')
      × (held g' ≡ held g)
      × ((x : Message) → Memᴰ x ms → Memᴰ x (held g))
Delivers-same key name count ms st st' d = (
  d.group,
  record { unread = d.rest; pending = d.group.pending ++ ms },
  d.there,
  rw d.streams (put_group_same key name _ st),
  append_assoc d.group.pending ms d.rest
      ∙ ap (λ (u : List Message). d.group.pending ++ u) (sym d.unread),
  λ x h. append_right d.group.pending (rw d.unread (append_left d.rest h)),
)

-- The group is still there, and under the condition `D` the message is still held.
pub record Preserves (all : List Message) (key name : String) (m : Message) (D : Type 0)
    (st st' : String → Stream) : Type 0 where
  pub watched : IsWatched all key name st → IsWatched all key name st'
  pub still : D → IsHeld m key name st → IsHeld m key name st'

module _ (all : List Message) (key name : String) (m : Message) where
  elsewhere :
      (D : Type 0) (st st' : String → Stream) → st' key ≡ st key → Preserves all key name m D st st'
  elsewhere D st st' same = record {
    watched = λ w. record { group = w.group; there = rw same w.there; within = w.within };
    still = λ d h. (h.0, rw same h.1, h.2);
  }

  same_group :
      (st : String → Stream) (g g' : Group)
      → (st key).groups name ≡ some g
      → (st key).groups name ≡ some g'
      → g ≡ g'
  same_group st g g' h h' = cc (h, h')

  -- The group of the watched stream changes.
  changed :
      (D : Type 0) (st st' : String → Stream) (g g' : Group)
      → (st key).groups name ≡ some g
      → (st' key).groups name ≡ some g'
      → ((x : Message) → Memᴰ x (held g') → Memᴰ x (held g))
      → (D → Memᴰ m (held g) → Memᴰ m (held g'))
      → Preserves all key name m D st st'
  changed D st st' g g' there there' fewer kept = record {
    watched = λ w. record {
      group = g';
      there = there';
      within = λ x h. w.within x (rw (← same_group st g w.group there w.there) (fewer x h));
    };
    still = λ d h. (g', there', kept d (rw (same_group st g h.0 there h.1) h.2));
  }

  pub Delivers-Preserves :
      (key' : String) (count : ℕ) (ms : List Message) (st st' : String → Stream)
      → Delivers key' name count ms st st'
      → Preserves all key name m Unit st st'
  Delivers-Preserves key' count ms st st' d = elim (Bool-cases (str_eq key' key)) [
    | inl same ↦
        let h : Delivers key name count ms st st' = rw (← (eq_iff key' key).0 same) d in
        let (g, g', there, there', e, _) = Delivers-same key name count ms st st' h in
        changed Unit st st' g g' there there' (λ x there. rw (← e) there) (λ d there. rw e there)
    | inr other ↦
        elsewhere _ st st'
          (ap (λ (s : String → Stream). s key) d.streams ∙ put_group_other key' key name _ st other)
  ]

  -- Another message of the group, or one of another stream, is acknowledged.
  pub Acks-Preserves :
      (key' id : String) (st st' : String → Stream)
      → Acks key' name id st st'
      → Preserves all key name m (key' ≡ key → str_eq id m.id ≡ false) st st'
  Acks-Preserves key' id st st' a = elim (Bool-cases (str_eq key' key)) [
    | inl same ↦
        let e = (eq_iff key' key).0 same in
        changed _ st st' a.group (record a.group { pending = without id a.group.pending })
          (rw (← e) a.there) (rw a.streams (rw e (put_group_same key name _ st)))
          (λ x h. elim (append_cases (without id a.group.pending) h) [
            | inl p ↦ append_left _ (without-mem id a.group.pending x p)
            | inr u ↦ append_right a.group.pending u
          ])
          (λ different h. elim (append_cases a.group.pending h) [
            | inl p ↦ append_left _ (mem-without id a.group.pending m (different e) p)
            | inr u ↦ append_right (without id a.group.pending) u
          ])
    | inr other ↦
        elsewhere _ st st'
          (ap (λ (s : String → Stream). s key) a.streams ∙ put_group_other key' key name _ st other)
  ]

  pub Preserves-same : (st st' : String → Stream) → st' ≡ st → Preserves all key name m Unit st st'
  Preserves-same st st' same = elsewhere Unit st st' (ap (λ (s : String → Stream). s key) same)

  -- What a delivery from the watched stream brings was held.
  pub Delivers-within :
      (key' : String) (count : ℕ) (ms : List Message) (st st' : String → Stream)
      → Delivers key' name count ms st st'
      → IsWatched all key name st
      → (n : Message) → Memᴰ n ms
      → key' ≡ key
      → Memᴰ n all
  Delivers-within key' count ms st st' d w n there same =
      let h : Delivers key name count ms st st' = rw (← same) d in
      let (g, g', found, _, _, old) = Delivers-same key name count ms st st' h in
      w.within n (rw (← same_group st g w.group found w.there) (old n there))
