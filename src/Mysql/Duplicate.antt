-- ===== src/Mysql/Duplicate.antt =====
-- `isDuplicateError`, `contains` and `indexOf` of repository/mysql/payment_repository.go. A text is
-- the list of its bytes.
pub mod Contains
use gigmile_test.Prelude.{
  ℕ, zero, suc, ◌+◌, ◌-◌, ◌≤◌, ◌<◌, ◌≡◌, refl, String, Bool, true, false, ◌&&◌, ◌||◌, Option, none,
  some, List, [], ◌∷◌, ◌++◌, arith, ltb, leb, ◌==◌, length, take, drop, codes, if◌then◌else◌,
}
use gigmile_test.Domain.Errors.{Error, is_duplicated_key, error_text}

-- `s == t`
abbrev pub eq_text : List ℕ → List ℕ → Bool
eq_text [] [] = true
eq_text (x ∷ xs) (y ∷ ys) = x == y && eq_text xs ys
eq_text _ _ = false

-- The loop of `indexOf`, with `rounds` rounds left at index `i`.
unfoldable pub index_from : ℕ → ℕ → List ℕ → List ℕ → Option ℕ
index_from zero i s substr = none
index_from (suc rounds) i s substr =
    let rest = index_from rounds (i + 1) s substr in
    if eq_text (take (length substr) (drop i s)) substr then some i else rest

-- -1 is `none`. The loop runs while i <= len(s) - len(substr), and not at all where that is negative.
unfoldable pub index_of : List ℕ → List ℕ → Option ℕ
unfolding index_from
index_of s substr = index_from (length s + 1 - length substr) 0 s substr

abbrev pub is_found : Option ℕ → Bool
is_found none = false
is_found (some i) = true

unfoldable pub contains : List ℕ → List ℕ → Bool
unfolding index_of
contains s substr =
    leb (length substr) (length s)
    && (eq_text s substr
        || ltb (length substr) (length s)
          && (eq_text (take (length substr) s) substr
              || eq_text (drop (length s - length substr) s) substr
              || is_found (index_of s substr)))

-- `err` is not nil: the caller has tested that.
unfoldable pub is_duplicate_error : Error → Bool
unfolding contains is_duplicated_key
is_duplicate_error e =
    is_duplicated_key e
    || ltb 0 (length (error_text e))
      && (contains (error_text e) (codes "Duplicate entry")
          || contains (error_text e) (codes "UNIQUE constraint"))
