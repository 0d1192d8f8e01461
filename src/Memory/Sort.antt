-- ===== src/Memory/Sort.antt =====
-- The order by date, the latest first, of the payments of a database in memory.
use mathlib.Core.List.{Permᴰ}
use mathlib.Core.List.Permᴰ as Permᴰ
use gigmile_test.Prelude.{
  ◌≡◌, refl, inl, inr, true, false, List, [], ◌∷◌, arith, all, Bool-cases, if◌then◌else◌,
}
use gigmile_test.Persistence.{PaymentModel}
use gigmile_test.Env.Database.{IsLatestFirst, is_not_after, IsOrdering}

abbrev pub insert_by_date : PaymentModel → List PaymentModel → List PaymentModel
insert_by_date m [] = m ∷ []
insert_by_date m (x ∷ xs) = if is_not_after m x then m ∷ x ∷ xs else x ∷ insert_by_date m xs

abbrev pub by_date : List PaymentModel → List PaymentModel
by_date [] = []
by_date (m ∷ ms) = insert_by_date m (by_date ms)

insert-Perm : (m : PaymentModel) (xs : List PaymentModel) → Permᴰ (m ∷ xs) (insert_by_date m xs)
insert-Perm m [] = Permᴰ.refl (m ∷ [])
insert-Perm m (x ∷ xs) = elim (Bool-cases (is_not_after m x)) [
  | inl first ↦ rw first (Permᴰ.refl (m ∷ x ∷ xs))
  | inr later ↦ rw later (Permᴰ.trans (Permᴰ.swap refl refl) (Permᴰ.cons refl (insert-Perm m xs)))
]

by_date-Perm : (ms : List PaymentModel) → Permᴰ ms (by_date ms)
by_date-Perm [] = Permᴰ.refl []
by_date-Perm (m ∷ ms) = Permᴰ.trans (Permᴰ.cons refl (by_date-Perm ms)) (insert-Perm m (by_date ms))

after_all :
    (m x : PaymentModel) (xs : List PaymentModel)
    → is_not_after m x ≡ true
    → all (is_not_after x) xs ≡ true
    → all (is_not_after m) xs ≡ true
after_all m x [] h k = refl
after_all m x (y ∷ ys) h k = grind (arith, after_all m x ys)

insert-all :
    (x m : PaymentModel) (xs : List PaymentModel)
    → is_not_after x m ≡ true
    → all (is_not_after x) xs ≡ true
    → all (is_not_after x) (insert_by_date m xs) ≡ true
insert-all x m [] h k = rw h refl
insert-all x m (y ∷ ys) h k = elim (Bool-cases (is_not_after m y)) [
  | inl first ↦ rw (first, h) k
  | inr later ↦ rw later (grind (arith, insert-all x m ys))
]

later_after : (m x : PaymentModel) → is_not_after m x ≡ false → is_not_after x m ≡ true
later_after m x h = ground arith

insert-IsLatestFirst :
    (m : PaymentModel) (xs : List PaymentModel)
    → IsLatestFirst xs
    → IsLatestFirst (insert_by_date m xs)
insert-IsLatestFirst m [] h = (refl, tt)
insert-IsLatestFirst m (x ∷ xs) h = elim (Bool-cases (is_not_after m x)) [
  | inl first ↦ rw first (rw first (after_all m x xs first h.0), h)
  | inr later ↦
      rw later (insert-all x m xs (later_after m x later) h.0, insert-IsLatestFirst m xs h.1)
]

by_date-IsLatestFirst : (ms : List PaymentModel) → IsLatestFirst (by_date ms)
by_date-IsLatestFirst [] = tt
by_date-IsLatestFirst (m ∷ ms) = insert-IsLatestFirst m (by_date ms) (by_date-IsLatestFirst ms)

pub by_date-IsOrdering : (ms : List PaymentModel) → IsOrdering ms (by_date ms)
by_date-IsOrdering ms = record {
  same_rows = by_date-Perm ms;
  latest_first = by_date-IsLatestFirst ms;
}
