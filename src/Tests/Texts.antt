-- ===== src/Tests/Texts.antt =====
-- The texts of errors.
use gigmile_test.Prelude.{◌≡◌, ◌↔◌, true, codes}
use gigmile_test.Mysql.Duplicate.{contains}
use gigmile_test.Mysql.Duplicate.Contains.{IsPart, contains_iff}

contains_iff_example :
    (contains (codes "Error 1062 (23000): Duplicate entry 'VPAY1'") (codes "Duplicate entry")
      ≡ true)
    ↔ IsPart (codes "Duplicate entry") (codes "Error 1062 (23000): Duplicate entry 'VPAY1'")
contains_iff_example =
    contains_iff (codes "Error 1062 (23000): Duplicate entry 'VPAY1'") (codes "Duplicate entry")
