-- ===== src/Tests/HelperRuns.antt =====
-- The theorems on the registry and on the sliding window at concrete inputs.
use aiocflib.Prelude.{
  ℕ, ◌≡◌, ◌≢◌, refl, Bool, true, [], ◌∷◌, ◌++◌, Option, some, ok, err, value_error, arith, lookup,
  bytes_eq, of_some, List, ◌<◌, ◌%◌, length, ◌^◌, ◌+◌, All, ◌-◌, ◌/◌,
}
use aiocflib.Crazyflie.Names.{Text}
use aiocflib.Utils.Registry.{Registry, find, register, register-find, is_taken}
use aiocflib.Utils.Statistics.{
  Numbers, add_all, sliding_window_mean, window_of, initial, add_all-window_of,
}

abbrev all_true : ℕ → Bool
all_true n = true

-- The key "a" has the value 7, and "b" is free.
abbrev one_item : Registry ℕ
one_item = (97 ∷ [], 7) ∷ []

register-find_example :
    (after : Registry ℕ) × (register all_true (98 ∷ []) 8 one_item ≡ ok (8, after))
    × ((default : Option ℕ) → find all_true (98 ∷ []) default after ≡ ok 8)
    × ((other : Text) (default : Option ℕ)
        → (98 ∷ []) ≢ other
        → find all_true other default after ≡ find all_true other default one_item)
    × (all_true 8 ≡ true → (again : ℕ) → register all_true (98 ∷ []) again after ≡ err value_error)
unfolding is_taken lookup bytes_eq
register-find_example = register-find all_true (98 ∷ []) 8 one_item refl

-- Numbers of 16 bits that wrap around.
abbrev total : List ℕ → ℕ
total [] = 0
total (x ∷ xs) = x + total xs

abbrev words : Numbers ℕ
words = record {
  sum_of = λ xs. total xs % 2 ^ 16;
  plus = λ x y. (x + y) % 2 ^ 16;
  minus = λ x y. (x + (2 ^ 16 - y)) % 2 ^ 16;
  divide = λ x n. x / n;
}

abbrev IsWord : ℕ → Type 0
IsWord x = x < 2 ^ 16

total-append : (xs : List ℕ) (x : ℕ) → total (xs ++ x ∷ []) ≡ total xs + x
total-append [] x = omega arith
total-append (y ∷ xs) x = omega (arith, total-append xs x)

words-adds :
    (xs : List ℕ) (x : ℕ)
    → length xs < 2
    → All IsWord xs
    → IsWord x
    → words.plus (words.sum_of xs) x ≡ words.sum_of (xs ++ x ∷ [])
words-adds xs x short h k = omega (arith, total-append xs x)

words-slides :
    (y : ℕ) (xs : List ℕ) (x : ℕ)
    → length (y ∷ xs) ≡ 2
    → All IsWord (y ∷ xs)
    → IsWord x
    → words.plus (words.sum_of (y ∷ xs)) (words.minus x y) ≡ words.sum_of (xs ++ x ∷ [])
words-slides y xs x full h k = omega (arith, total-append xs x, h.0, k)

filled_with_five : (x : ℕ) → some 5 ≡ some x → IsWord x
filled_with_five x e = of_some IsWord e (omega arith)

add_all-window_of_example :
    add_all words (sliding_window_mean words 2 (some 5)) (1 ∷ 2 ∷ 3 ∷ [])
    ≡ ok (window_of words (some 5) 2 (initial (some 5) 2 ++ 1 ∷ 2 ∷ 3 ∷ []))
add_all-window_of_example =
    add_all-window_of words IsWord (some 5) 2 (1 ∷ 2 ∷ 3 ∷ []) (omega arith) words-adds words-slides
      filled_with_five (omega arith, (omega arith, (omega arith, tt)))

slid :
    add_all words (sliding_window_mean words 2 (some 5)) (1 ∷ 2 ∷ 3 ∷ [])
    ≡ ok (record { fill = some 5; window_size = 2; values = 2 ∷ 3 ∷ []; sum = 5 })
unfolding add_all sliding_window_mean
slid = refl
