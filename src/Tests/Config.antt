-- ===== src/Tests/Config.antt =====
-- A process with one variable that is no number.
use gigmile_test.Prelude.{String, ◌≡◌, refl, str_eq, if◌then◌else◌}
use gigmile_test.Prelude.Int.{pos}
use gigmile_test.Config.{IsUsable, load, load-IsUsable, get_env, get_env_as_int, dsn, address}
use gigmile_test.Stdlib.Atoi.{atoi}

abbrev environ : String → String
environ key =
    if str_eq key "REDIS_DB" then "two" else if str_eq key "REDIS_POOL_SIZE" then "20" else ""

load-IsUsable_example : IsUsable (load environ)
load-IsUsable_example = load-IsUsable environ

settings :
    ((load environ).redis.db ≡ pos 0)
    × ((load environ).redis.pool_size ≡ pos 20)
    × (dsn (load environ).mysql
        ≡ "gigmile:gigmile123@tcp(localhost:3306)/gigmile?parseTime=true&loc=Local")
    × (address (load environ).server.host (load environ).server.port ≡ "0.0.0.0:8072")
unfolding load get_env get_env_as_int atoi dsn address
settings = (refl, refl, refl, refl)
