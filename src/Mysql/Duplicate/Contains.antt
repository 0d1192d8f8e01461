-- ===== src/Mysql/Duplicate/Contains.antt =====
-- `contains` is the search for a part of a text.
use mathlib.Core.List.{append-nil}
use gigmile_test.Prelude.{
  ℕ, zero, suc, ◌+◌, ◌-◌, ◌≤◌, ◌<◌, ◌≡◌, refl, sym, ap, ◌∙◌, ◌↔◌, inl, inr, true, false, List, [],
  ◌∷◌, ◌++◌, arith, length, take, drop, Bool-cases, length-append, take-append-drop,
  drop-length-append, take-length-append,
}
use gigmile_test.Mysql.Duplicate.{eq_text, index_from, index_of, is_found, contains}

-- `part` stands in `text`.
abbrev pub IsPart : List ℕ → List ℕ → Type 0
IsPart part text = (before after : List ℕ) × (text ≡ before ++ (part ++ after))

eq_text_refl : (x : List ℕ) → eq_text x x ≡ true
eq_text_refl [] = refl
eq_text_refl (x ∷ xs) = grind (arith, eq_text_refl xs)

eq_of_eq_text : (x y : List ℕ) → eq_text x y ≡ true → x ≡ y
eq_of_eq_text [] [] h = refl
eq_of_eq_text [] (y ∷ ys) h = absurd (ground arith)
eq_of_eq_text (x ∷ xs) [] h = absurd (ground arith)
eq_of_eq_text (x ∷ xs) (y ∷ ys) h = grind (arith, eq_of_eq_text xs ys)

-- a window of the text
window : (i n : ℕ) (s part : List ℕ) → eq_text (take n (drop i s)) part ≡ true → IsPart part s
window i n s part h = (
  take i s,
  drop n (drop i s),
  sym (
      ap (λ (x : List ℕ). take i s ++ x)
        (ap (λ (x : List ℕ). x ++ drop n (drop i s)) (sym (eq_of_eq_text _ _ h))
          ∙ take-append-drop n (drop i s))
      ∙ take-append-drop i s),
)

-- the loop finds a window only where there is one
index_from-IsPart :
    (rounds i : ℕ) (s part : List ℕ) → is_found (index_from rounds i s part) ≡ true → IsPart part s
unfolding index_from
index_from-IsPart zero i s part h = absurd (ground arith)
index_from-IsPart (suc rounds) i s part h =
    elim (Bool-cases (eq_text (take (length part) (drop i s)) part)) [
      | inl here ↦ window i (length part) s part here
      | inr other ↦ index_from-IsPart rounds (i + 1) s part (rw other at h)
    ]

-- and finds one that is among its rounds
found_within :
    (rounds i j : ℕ) (s part : List ℕ)
    → i ≤ j
    → j < i + rounds
    → eq_text (take (length part) (drop j s)) part ≡ true
    → is_found (index_from rounds i s part) ≡ true
unfolding index_from
found_within zero i j s part h k there = absurd (omega arith)
found_within (suc rounds) i j s part h k there =
    elim (Bool-cases (eq_text (take (length part) (drop i s)) part)) [
      | inl here ↦ rw here refl
      | inr other ↦
          rw other (found_within rounds (i + 1) j s part (later other) (omega arith) there)
    ]
  where
    later : eq_text (take (length part) (drop i s)) part ≡ false → i + 1 ≤ j
    later other = grind arith

part_length :
    (s part before after : List ℕ)
    → s ≡ before ++ (part ++ after)
    → length s ≡ length before + (length part + length after)
part_length s part before after e = rw e (
    length-append before (part ++ after)
    ∙ ap (λ (n : ℕ). length before + n) (length-append part after))

part_window :
    (s part before after : List ℕ)
    → s ≡ before ++ (part ++ after)
    → eq_text (take (length part) (drop (length before) s)) part ≡ true
part_window s part before after e =
    rw (e, drop-length-append before (part ++ after), take-length-append part after)
      (eq_text_refl part)

part_found :
    (s part before after : List ℕ)
    → s ≡ before ++ (part ++ after)
    → is_found (index_of s part) ≡ true
unfolding index_of
part_found s part before after e =
    let n = part_length s part before after e in
    found_within (length s + 1 - length part) 0 (length before) s part (omega arith) (omega arith)
      (part_window s part before after e)

none_of : (x : List ℕ) → length x ≡ 0 → x ≡ []
none_of [] h = refl
none_of (y ∷ x) h = absurd (omega arith)

at_end : (k : ℕ) (s part : List ℕ) → eq_text (drop k s) part ≡ true → s ≡ take k s ++ (part ++ [])
at_end k s part h =
    sym (take-append-drop k s)
    ∙ ap (λ (x : List ℕ). take k s ++ x) (eq_of_eq_text (drop k s) part h ∙ sym (append-nil part))

whole :
    (s part before after : List ℕ)
    → s ≡ before ++ (part ++ after)
    → length s ≤ length part
    → eq_text s part ≡ true
whole s part before after e h =
    let n = part_length s part before after e in
    rw (e, none_of before (omega arith), none_of after (omega arith), append-nil part)
      (eq_text_refl part)

contains_part : (s part : List ℕ) → IsPart part s → contains s part ≡ true
unfolding contains
contains_part s part (before, after, e) = ground (
  arith,
  part_length s part before after e,
  part_found s part before after e,
  whole s part before after e,
)

contains-IsPart : (s part : List ℕ) → contains s part ≡ true → IsPart part s
unfolding contains index_of
contains-IsPart s part h = elim (Bool-cases (eq_text s part)) [
  | inl same ↦ ([], [], eq_of_eq_text s part same ∙ sym (append-nil part))
  | inr other ↦ elim (Bool-cases (eq_text (take (length part) s) part)) [
    | inl start ↦ window 0 (length part) s part start
    | inr later ↦ elim (Bool-cases (eq_text (drop (length s - length part) s) part)) [
      | inl end ↦ (take (length s - length part) s, [], at_end (length s - length part) s part end)
      | inr inside ↦ index_from-IsPart (length s + 1 - length part) 0 s part (ground arith)
    ]
  ]
]

-- `contains` answers yes exactly when the second text stands somewhere in the first.
pub contains_iff : (s part : List ℕ) → (contains s part ≡ true) ↔ IsPart part s
contains_iff s part = (contains-IsPart s part, contains_part s part)
