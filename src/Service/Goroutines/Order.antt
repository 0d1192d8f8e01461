-- ===== src/Service/Goroutines/Order.antt =====
-- The goroutines in any order.
use gigmile_test.Prelude.{◌≡◌, refl, ◌∙◌, inl, inr, List, ◌∷◌, ◌++◌}
use mathlib.Core.List.{Memᴰ}
use mathlib.Core.List.Memᴰ.{append_left, append_right, append_cases}
use gigmile_test.Env.{Env}
use gigmile_test.World.{State, Ref, Task, cache_customer, cache_payment}
use gigmile_test.World.Rules.{IsWithin-refl, tables_of, entries_of}
use gigmile_test.Service.Coherence.{Agrees, IsCoherent, kept-IsCoherent}
use gigmile_test.Service.Goroutines.{Runs, customer_cached, payment_cached}
use gigmile_test.Service.Goroutines.Fills.{
  IsFilled, run_cache_customer-IsFilled, run_cache_payment-IsFilled,
}

tasks_left :
    (task : Task) (before after : List Task) (x : Task)
    → Memᴰ x (before ++ after)
    → Memᴰ x (before ++ (task ∷ after))
tasks_left task before after x h = elim (append_cases before h) [
  | inl b ↦ append_left _ b
  | inr a ↦ append_right before (Memᴰ.tail a)
]

module _ {env : Env} where
  -- Every object that a goroutine will store agrees with its row.
  abbrev pub TasksAgree : State env → Type 0
  TasksAgree s =
      (r : Ref)
      → Memᴰ (cache_customer r) s.tasks
      → Agrees (s.heap r).id (tables_of s).customers (s.heap r)

  -- Any number of goroutines have run, one after the other, in any order.
  pub data Reached (s : State env) : State env → Type 0 where
    start : Reached s s
    step : (t u : State env) → Reached s t → Runs t u → Reached s u

  -- What the run of one goroutine leaves, from the state without it.
  record IsLeft (s t : State env) : Type 0 where
    agrees : TasksAgree t
    coherent : IsCoherent t
    tables : tables_of t ≡ tables_of s

  left :
      (task : Task) (before after : List Task) (s t : State env)
      → s.tasks ≡ before ++ (task ∷ after)
      → IsFilled (record s { tasks = before ++ after }) t
      → TasksAgree s
      → IsCoherent s
      → IsLeft s t
  left task before after s t started filled agrees h = record {
    agrees = λ r there.
        rw (filled.heap, filled.tables)
          (agrees r (
            rw started
              (tasks_left task before after (cache_customer r) (rw filled.tasks at there))));
    coherent = filled.coherent (
        kept-IsCoherent s (record s { tasks = before ++ after }) refl (IsWithin-refl (entries_of s))
          h);
    tables = filled.tables;
  }

  run-IsLeft : (s t : State env) → Runs s t → TasksAgree s → IsCoherent s → IsLeft s t
  run-IsLeft s t (customer_cached r before after started) agrees h =
      left (cache_customer r) before after s t started
        (run_cache_customer-IsFilled r (record s { tasks = before ++ after })
          (agrees r (rw started (append_right before (Memᴰ.head refl)))))
        agrees h
  run-IsLeft s t (payment_cached p before after started) agrees h =
      left (cache_payment p) before after s t started
        (run_cache_payment-IsFilled p (record s { tasks = before ++ after })) agrees h

  reached-IsLeft : (s t : State env) → Reached s t → TasksAgree s → IsCoherent s → IsLeft s t
  reached-IsLeft s t start agrees h = record { agrees = agrees; coherent = h; tables = refl }
  reached-IsLeft s t (step u t' before run) agrees h =
      let i = reached-IsLeft s u before agrees h in
      let k = run-IsLeft u t run i.agrees i.coherent in
      record { agrees = k.agrees; coherent = k.coherent; tables = k.tables ∙ i.tables }

  -- On a coherent state, where every customer that a started goroutine holds agrees with its row,
  -- the goroutines that fill the cache may run in any order, as many of them as like: the cache
  -- stays coherent and no table is written to.
  pub goroutines-IsCoherent :
      (s t : State env)
      → IsCoherent s
      → TasksAgree s
      → Reached s t
      → IsCoherent t × (tables_of t ≡ tables_of s)
  goroutines-IsCoherent s t h agrees reached =
      let i = reached-IsLeft s t reached agrees h in (i.coherent, i.tables)
