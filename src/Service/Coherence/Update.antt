-- ===== src/Service/Coherence/Update.antt =====
-- The copies of a customer when the row's version is counted up.
use gigmile_test.Prelude.{
  String, ◌-◌, ◌<◌, ◌≤◌, ◌^◌, ◌≡◌, refl, ◌∙◌, sym, ◌⊎◌, inl, inr, some, true, false, arith, str_eq,
  eq_iff, Bool-cases,
}
use mathlib.Core.Path.{subst}
use gigmile_test.Prelude.Int.{ℤ, pos, pos_part, neg_part, add64, wrap64, ◌+ℤ◌, ◌<ℤ◌}
use gigmile_test.Domain.Customer.{Customer}
use gigmile_test.Persistence.{CustomerModel, customer_to_domain}
use gigmile_test.Env.Database.{put_customer}
use gigmile_test.Service.Coherence.{Rows, Agrees}

-- The version can be counted up within an int64.
abbrev pub HasRoom : CustomerModel → Type 0
HasRoom m = (pos_part m.version < 2 ^ 63 - 1) × (neg_part m.version ≤ 2 ^ 63)

add64_grows : (v : ℤ) → pos_part v < 2 ^ 63 - 1 → neg_part v ≤ 2 ^ 63 → v <ℤ add64 v (pos 1)
unfolding add64 wrap64 ◌+ℤ◌
add64_grows v h k = ground arith

lt_irrefl : (v : ℤ) → ¬ (v <ℤ v)
lt_irrefl v h = omega arith

module _ (rows : Rows) (k : String) (row row' : CustomerModel) (there : rows k ≡ some row)
    (counted : row'.version ≡ add64 row.version (pos 1)) where
  put_self : (id : String) → str_eq k id ≡ true → put_customer k row' rows id ≡ some row'
  put_self id same = rw same refl

  put_other : (id : String) → str_eq k id ≡ false → put_customer k row' rows id ≡ rows id
  put_other id other = rw other refl

  -- A row after the write is the new one, or was there before.
  pub written_row :
      (id : String) (m : CustomerModel)
      → put_customer k row' rows id ≡ some m
      → ((k ≡ id) × (m ≡ row')) ⊎ (rows id ≡ some m)
  written_row id m h = elim (Bool-cases (str_eq k id)) [
    | inl same ↦ inl ((eq_iff k id).0 same, cc (put_self id same))
    | inr other ↦ inr (sym (put_other id other) ∙ h)
  ]

  stale :
      (id : String) (c : Customer)
      → HasRoom row
      → k ≡ id
      → Agrees id rows c
      → c.version <ℤ row'.version
  stale id c room e a = rw counted (
      omega (
        arith,
        add64_grows row.version room.0 room.1,
        a.not_newer row (subst (λ (x : String). rows x ≡ some row) e there),
      ))

  -- An older copy stays one: the new row has a version that no copy has.
  pub old-Agrees :
      (id : String) (c : Customer)
      → HasRoom row
      → Agrees id rows c
      → Agrees id (put_customer k row' rows) c
  old-Agrees id c room a = record {
    same_id = a.same_id;
    not_newer = λ m h. elim (written_row id m h) [
      | inl (e, new) ↦ rw new (omega (arith, stale id c room e a))
      | inr old ↦ a.not_newer m old
    ];
    same = λ m h v. elim (written_row id m h) [
      | inl (e, new) ↦ absurd (
          lt_irrefl c.version
            (subst (λ (x : ℤ). c.version <ℤ x) (rw new at v) (stale id c room e a)))
      | inr old ↦ a.same m old v
    ];
  }

  -- A copy of the new row agrees with it.
  pub new-Agrees :
      (id : String) (c : Customer)
      → k ≡ id
      → c.id ≡ id
      → c.version ≡ row'.version
      → customer_to_domain row' ≡ c
      → Agrees id (put_customer k row' rows) c
  new-Agrees id c e same_id same_version copy = record {
    same_id = same_id;
    not_newer = λ m h. let e' : m ≡ row' = is_new m h in rw e' (rw same_version (omega arith));
    same = λ m h v. let e' : m ≡ row' = is_new m h in rw e' copy;
  }
    where
      new_row : put_customer k row' rows id ≡ some row'
      new_row = put_self id ((eq_iff k id).1 e)

      is_new : (m : CustomerModel) → put_customer k row' rows id ≡ some m → m ≡ row'
      is_new m h = cc new_row
