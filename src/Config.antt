-- ===== src/Config.antt =====
-- internal/config/config.go, over the process's environment: the text of a variable, which is empty
-- where it is not set.
use Prim.Native.String.{◌++◌}
use gigmile_test.Prelude.{
  ℕ, ◌-◌, ◌^◌, ◌==◌, List, [], ◌∷◌, String, ◌≡◌, ◌≢◌, refl, inl, inr, false, Option, none, some,
  arith, codes, str_eq, eq_iff, Bool-cases, Option-cases, if◌then◌else◌,
}
use gigmile_test.Prelude.Int.{ℤ, pos, IsInt64}
use gigmile_test.Stdlib.Atoi.{atoi, within, positive, negative, magnitude_of}

pub record ServerConfig : Type 0 where
  pub port : String
  pub host : String

pub record RedisConfig : Type 0 where
  pub host : String
  pub port : String
  pub password : String
  pub db : ℤ
  pub pool_size : ℤ

pub record MysqlConfig : Type 0 where
  pub host : String
  pub user : String
  pub password : String
  pub database : String

pub record Config : Type 0 where
  pub server : ServerConfig
  pub redis : RedisConfig
  pub mysql : MysqlConfig

abbrev pub parsed_or : ℤ → Option ℤ → ℤ
parsed_or default_value none = default_value
parsed_or default_value (some value) = value

module _ (environ : String → String) where
  unfoldable pub get_env : String → String → String
  get_env key default_value = if str_eq (environ key) "" then default_value else environ key

  unfoldable pub get_env_as_int : String → ℤ → ℤ
  get_env_as_int key default_value =
      if str_eq (environ key) ""
      then default_value
      else parsed_or default_value (atoi (codes (environ key)))

  unfoldable pub load : Config
  load = record {
    server = record { port = get_env "SERVER_PORT" "8072"; host = get_env "SERVER_HOST" "0.0.0.0" };
    redis = record {
      host = get_env "REDIS_HOST" "localhost";
      port = get_env "REDIS_PORT" "6379";
      password = get_env "REDIS_PASSWORD" "";
      db = get_env_as_int "REDIS_DB" (pos 0);
      pool_size = get_env_as_int "REDIS_POOL_SIZE" (pos 100);
    };
    mysql = record {
      host = get_env "MYSQL_HOST" "localhost:3306";
      user = get_env "MYSQL_USER" "gigmile";
      password = get_env "MYSQL_PASSWORD" "gigmile123";
      database = get_env "MYSQL_DATABASE" "gigmile";
    };
  }

-- cmd/api/main.go: the name of the database, and the addresses.
unfoldable pub dsn : MysqlConfig → String
dsn c =
    c.user
    ++ (":"
        ++ (c.password
            ++ ("@tcp(" ++ (c.host ++ (")/" ++ (c.database ++ "?parseTime=true&loc=Local"))))))

unfoldable pub address : String → String → String
address host port = host ++ (":" ++ port)

within_fits : (x : Option ℕ) (n : ℤ) → positive (within (2 ^ 63 - 1) x) ≡ some n → IsInt64 n
within_fits none n h = absurd (cc h)
within_fits (some m) n h = ground arith

negative_fits : (x : Option ℕ) (n : ℤ) → negative (within (2 ^ 63) x) ≡ some n → IsInt64 n
negative_fits none n h = absurd (cc h)
negative_fits (some m) n h = ground arith

atoi-IsInt64 : (s : List ℕ) (n : ℤ) → atoi s ≡ some n → IsInt64 n
unfolding atoi
atoi-IsInt64 [] n h = absurd (cc h)
atoi-IsInt64 (c ∷ s) n h = elim (Bool-cases (c == b'-')) [
  | inl minus ↦ negative_fits (magnitude_of s) n (rw minus at h)
  | inr no_minus ↦ elim (Bool-cases (c == b'+')) [
    | inl plus ↦ within_fits (magnitude_of s) n (rw (no_minus, plus) at h)
    | inr no_plus ↦ within_fits (magnitude_of (c ∷ s)) n (rw (no_minus, no_plus) at h)
  ]
]

parsed-IsInt64 :
    (fallback : ℤ) (s : List ℕ) → IsInt64 fallback → IsInt64 (parsed_or fallback (atoi s))
parsed-IsInt64 fallback s fits = elim (Option-cases (atoi s)) [
  | inl bad ↦ rw bad fits
  | inr (n, good) ↦ rw good (atoi-IsInt64 s n good)
]

-- A configuration that the program can start with: no address or name is empty, and the numbers fit.
pub record IsUsable (c : Config) : Type 0 where
  pub port : c.server.port ≢ ""
  pub host : c.server.host ≢ ""
  pub redis_host : c.redis.host ≢ ""
  pub redis_port : c.redis.port ≢ ""
  pub mysql_host : c.mysql.host ≢ ""
  pub user : c.mysql.user ≢ ""
  pub password : c.mysql.password ≢ ""
  pub database : c.mysql.database ≢ ""
  pub db : IsInt64 c.redis.db
  pub pool_size : IsInt64 c.redis.pool_size

module _ (environ : String → String) where
  get_env-given :
      (key default_value : String)
      → str_eq default_value "" ≡ false
      → get_env environ key default_value ≢ ""
  unfolding get_env
  get_env-given key default_value given empty = elim (Bool-cases (str_eq (environ key) "")) [
    | inl unset ↦ absurd (cc ((eq_iff default_value "").1 (rw unset at empty), given))
    | inr set ↦ absurd (cc ((eq_iff (environ key) "").1 (rw set at empty), set))
  ]

  get_env_as_int-IsInt64 :
      (key : String) (default_value : ℤ)
      → IsInt64 default_value
      → IsInt64 (get_env_as_int environ key default_value)
  unfolding get_env_as_int
  get_env_as_int-IsInt64 key default_value fits = elim (Bool-cases (str_eq (environ key) "")) [
    | inl unset ↦ rw unset fits
    | inr set ↦ rw set (parsed-IsInt64 default_value (codes (environ key)) fits)
  ]

  -- Whatever the environment holds, no address, port or name in the configuration is empty and no
  -- password of MySQL, and both numbers are in int64.
  pub load-IsUsable : IsUsable (load environ)
  unfolding load
  load-IsUsable = record {
    port = get_env-given "SERVER_PORT" "8072" refl;
    host = get_env-given "SERVER_HOST" "0.0.0.0" refl;
    redis_host = get_env-given "REDIS_HOST" "localhost" refl;
    redis_port = get_env-given "REDIS_PORT" "6379" refl;
    mysql_host = get_env-given "MYSQL_HOST" "localhost:3306" refl;
    user = get_env-given "MYSQL_USER" "gigmile" refl;
    password = get_env-given "MYSQL_PASSWORD" "gigmile123" refl;
    database = get_env-given "MYSQL_DATABASE" "gigmile" refl;
    db = get_env_as_int-IsInt64 "REDIS_DB" (pos 0) (omega arith, omega arith);
    pool_size = get_env_as_int-IsInt64 "REDIS_POOL_SIZE" (pos 100) (omega arith, omega arith);
  }
