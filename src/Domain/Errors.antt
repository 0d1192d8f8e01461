-- ===== src/Domain/Errors.antt =====
-- The error values of internal/domain, internal/infrastructure/repository and the drivers.
use gigmile_test.Prelude.{ℕ, String, Bool, true, false, List, ◌++◌, codes}

-- Go compares errors by identity: each package variable is a constructor of its own, and what
-- `errors.New` or `fmt.Errorf` makes on the spot equals none of them.
pub data Error : Type 0 where
  -- domain/customer.go, domain/payment.go
  invalid_customer_id invalid_amount invalid_transaction_ref duplicate_transaction : Error
  insufficient_balance asset_already_owned optimistic_lock : Error
  -- repository/mysql/repositories.go
  customer_not_found payment_not_found : Error
  -- repository/redis
  redis_customer_not_found redis_version_mismatch redis_payment_not_found : Error
  -- `gorm.ErrRecordNotFound`, `gorm.ErrDuplicatedKey`, `redis.Nil`
  gorm_record_not_found gorm_duplicated_key redis_nil : Error
  -- any other error of a driver or a server, with its text
  external : String → Error
  -- `errors.New(text)`
  message : String → Error
  -- `fmt.Errorf("text: %w", err)`
  wrap : String → Error → Error

-- `err == domain.ErrOptimisticLock`
abbrev pub is_optimistic_lock : Error → Bool
is_optimistic_lock optimistic_lock = true
is_optimistic_lock _ = false

-- `err == domain.ErrDuplicateTransaction`
abbrev pub is_duplicate_transaction : Error → Bool
is_duplicate_transaction duplicate_transaction = true
is_duplicate_transaction _ = false

-- `err == redis.Nil`
abbrev pub is_redis_nil : Error → Bool
is_redis_nil redis_nil = true
is_redis_nil _ = false

-- `errors.Is(err, gorm.ErrRecordNotFound)` looks through the wrapped errors.
unfoldable pub is_record_not_found : Error → Bool
is_record_not_found gorm_record_not_found = true
is_record_not_found (wrap text e) = is_record_not_found e
is_record_not_found _ = false

-- `errors.Is(err, gorm.ErrDuplicatedKey)`
unfoldable pub is_duplicated_key : Error → Bool
is_duplicated_key gorm_duplicated_key = true
is_duplicated_key (wrap text e) = is_duplicated_key e
is_duplicated_key _ = false

-- `err.Error()`
unfoldable pub error_text : Error → List ℕ
error_text invalid_customer_id = codes "invalid customer ID"
error_text invalid_amount = codes "invalid transaction amount"
error_text invalid_transaction_ref = codes "invalid transaction reference"
error_text duplicate_transaction = codes "duplicate transaction"
error_text insufficient_balance = codes "insufficient balance for operation"
error_text asset_already_owned = codes "asset already fully owned"
error_text optimistic_lock = codes "version mismatch - optimistic lock failed"
error_text customer_not_found = codes "customer not found"
error_text payment_not_found = codes "payment not found"
error_text redis_customer_not_found = codes "customer not found"
error_text redis_version_mismatch = codes "version mismatch - optimistic lock failed"
error_text redis_payment_not_found = codes "payment not found"
error_text gorm_record_not_found = codes "record not found"
error_text gorm_duplicated_key = codes "duplicated key not allowed"
error_text redis_nil = codes "redis: nil"
error_text (external text) = codes text
error_text (message text) = codes text
error_text (wrap text e) = codes text ++ codes ": " ++ error_text e
