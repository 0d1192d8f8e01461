-- ===== src/Env/Columns.antt =====
-- What the columns of migrations/001_create_tables.sql and of the gorm tags in
-- internal/infrastructure/persistence/models.go hold: VARCHAR(50), VARCHAR(100) and VARCHAR(20),
-- TIMESTAMP, and texts that are compared by utf8mb4_unicode_ci.
use gigmile_test.Prelude.{
  ℕ, ◌≤◌, String, Bool, ◌&&◌, ◌||◌, ◌≡◌, ◌⊎◌, true, some, [], leb, length, all, codes,
}
use gigmile_test.Prelude.Int.{pos, leb_ℤ}
use gigmile_test.Domain.Time.{Time}
use gigmile_test.Persistence.{CustomerModel, PaymentModel}
use gigmile_test.Env.Database.{Tables, has_reference, select}

-- a digit or a capital letter of ASCII: the collation tells two such texts apart if they differ
abbrev pub is_capital_or_digit : ℕ → Bool
is_capital_or_digit c = (leb 48 c && leb c 57) || (leb 65 c && leb c 90)

-- a text of at most `n` digits and capital letters
abbrev pub is_plain : ℕ → String → Bool
is_plain n text = leb (length (codes text)) n && all is_capital_or_digit (codes text)

-- An instant that a TIMESTAMP holds in every time zone without summer time: from the second of
-- January 1970 to the eighteenth of January 2038.
abbrev pub is_stamp : Time → Bool
is_stamp t = leb_ℤ (pos 62135683200000000000) t && leb_ℤ t (pos 64282982400000000000)

-- The columns of a payment that come from a client hold its fields.
pub record Fits (id ref : String) (at : Time) : Type 0 where
  pub customer : is_plain 50 id ≡ true
  pub reference : is_plain 100 ref ≡ true
  pub date : is_stamp at ≡ true

-- The references recorded are such that the collation tells them apart.
abbrev pub has_plain_reference : PaymentModel → Bool
has_plain_reference m = is_plain 100 m.transaction_reference

abbrev pub ArePlain : Tables → Type 0
ArePlain t = all has_plain_reference t.payments ≡ true

-- A payment that nothing in the schema stands against: its fields fit, its customer has a row, and
-- its reference is in no other.
pub record IsInsertable (id ref : String) (at : Time) (t : Tables) : Type 0 where
  pub fits : Fits id ref at
  pub plain : ArePlain t
  pub owner : CustomerModel
  pub there : t.customers id ≡ some owner
  pub new : select (has_reference ref) t.payments ≡ []

-- A change of a row of a customer that its columns hold.
pub record IsUpdatable (before after : CustomerModel) : Type 0 where
  pub date : (d : Time) → after.last_payment_date ≡ some d → is_stamp d ≡ true
  pub status : (after.status ≡ before.status) ⊎ (length (codes after.status) ≤ 20)
