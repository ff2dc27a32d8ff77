-- ===== src/Utils/Statistics.antt =====
-- `SlidingWindowMean` of aiocflib/utils/statistics.py. The arithmetic of floats is a parameter.
use aiocflib.Prelude.{
  ℕ, zero, suc, ◌+◌, ◌-◌, ◌≤◌, ◌<◌, ◌≡◌, ◌==◌, refl, sym, ap, ◌∙◌, List, [], ◌∷◌, ◌++◌, Option,
  none, some, Result, ok, err, bind, index_error, zero_division_error, ltb, if◌then◌else◌, length,
  drop, replicate, append_assoc, append-nil, length-append, length-drop, length-replicate,
  drop-drop, arith, false, true, dec_lt, All,
}

-- What is used of the numbers: `float(sum(values))`, `+`, `-` and the division by a count. They may round.
pub record Numbers (F : Type 0) : Type 0 where
  pub sum_of : List F → F
  pub plus : F → F → F
  pub minus : F → F → F
  pub divide : F → ℕ → F

pub record SlidingWindowMean (F : Type 0) : Type 0 where
  pub fill : Option F
  pub window_size : ℕ
  pub values : List F
  pub sum : F

-- What the deque holds at first.
abbrev pub initial : {F : Type 0} → Option F → ℕ → List F
initial none n = []
initial (some x) n = replicate n x

-- `append` of a deque with a greatest length
unfoldable pub append_bounded : {F : Type 0} → ℕ → List F → F → List F
append_bounded n xs x =
    let longer = xs ++ x ∷ [] in if ltb n (length longer) then drop 1 longer else longer

-- `self._data[0]`
abbrev pub first : {F : Type 0} → List F → Result F
first [] = err index_error
first (x ∷ xs) = ok x

module _ {F : Type 0} (numbers : Numbers F) where
  open numbers use {sum_of, plus, minus, divide}

  unfoldable pub reset : SlidingWindowMean F → SlidingWindowMean F
  reset m =
      let values = initial m.fill m.window_size in record m { values = values; sum = sum_of values }

  unfoldable pub sliding_window_mean : ℕ → Option F → SlidingWindowMean F
  unfolding reset
  sliding_window_mean window_size fill =
      reset (record { fill = fill; window_size = window_size; values = []; sum = sum_of [] })

  -- The new sum, when the window is full and when it is not.
  unfoldable pub new_sum : ℕ → List F → F → F → Result F
  new_sum window_size values sum x =
      if length values == window_size
      then bind (first values) (λ old. ok (plus sum (minus x old)))
      else ok (plus sum x)

  unfoldable pub add : SlidingWindowMean F → F → Result (F × SlidingWindowMean F)
  unfolding new_sum append_bounded
  add m x =
      bind (new_sum m.window_size m.values m.sum x)
        (λ s. ok (s, record m { values = append_bounded m.window_size m.values x; sum = s }))

  unfoldable pub mean : SlidingWindowMean F → Result F
  mean m =
      if length m.values == 0 then err zero_division_error else ok (divide m.sum (length m.values))

  -- Several values, one after the other.
  unfoldable pub add_all : SlidingWindowMean F → List F → Result (SlidingWindowMean F)
  unfolding add
  add_all m [] = ok m
  add_all m (x ∷ xs) = bind (add m x) (λ r. add_all r.1 xs)

-- The last `n` values of a list.
abbrev pub last : {F : Type 0} → ℕ → List F → List F
last n xs = drop (length xs - n) xs

drop_before :
    {F : Type 0} (k : ℕ) (xs ys : List F) → k ≤ length xs → drop k (xs ++ ys) ≡ drop k xs ++ ys
drop_before zero xs ys h = refl
drop_before (suc k) [] ys h = absurd (omega (arith, h))
drop_before (suc k) (x ∷ xs) ys h = drop_before k xs ys (omega (arith, h))

append_bounded-last :
    {F : Type 0} (n : ℕ) (xs : List F) (x : F)
    → append_bounded n (last n xs) x ≡ last n (xs ++ x ∷ [])
unfolding append_bounded
append_bounded-last n xs x = elim (dec_lt (length xs) n) [
  | yes p ↦
      let nothing : length xs - n ≡ 0 = omega (arith, p) in
      let nothing' : length (xs ++ x ∷ []) - n ≡ 0 = omega (arith, p, length-append xs (x ∷ [])) in
      let room : ltb n (length (xs ++ x ∷ [])) ≡ false =
        ground (arith, p, length-append xs (x ∷ [])) in
      rw (nothing, nothing') (rw room refl)
  | no p ↦
      let k = length xs - n in
      let more : length (xs ++ x ∷ []) - n ≡ k + 1 = omega (arith, p, length-append xs (x ∷ [])) in
      let both = drop_before k xs (x ∷ []) (omega arith) in
      let full : ltb n (length (drop k xs ++ x ∷ [])) ≡ true =
        ground (arith, p, length-append (drop k xs) (x ∷ []), length-drop k xs) in
      rw (full, more) (ap (drop 1) (sym both) ∙ drop-drop k 1 (xs ++ x ∷ []))
]

All-drop : {F : Type 0} (P : F → Type 0) (n : ℕ) (xs : List F) → All P xs → All P (drop n xs)
All-drop P zero xs h = h
All-drop P (suc n) [] h = h
All-drop P (suc n) (x ∷ xs) h = All-drop P n xs h.1

All-append : {F : Type 0} (P : F → Type 0) (xs ys : List F) → All P xs → All P ys → All P (xs ++ ys)
All-append P [] ys h k = k
All-append P (x ∷ xs) ys h k = (h.0, All-append P xs ys h.1 k)

All-initial :
    {F : Type 0} (P : F → Type 0) (fill : Option F) (n : ℕ)
    → ((x : F) → fill ≡ some x → P x)
    → All P (initial fill n)
All-initial P none n h = tt
All-initial P (some x) zero h = tt
All-initial P (some x) (suc n) h = (h x refl, All-initial P (some x) n h)

length-last : {F : Type 0} (n : ℕ) (xs : List F) → length (last n xs) ≤ n
length-last n xs = omega (arith, length-drop (length xs - n) xs)

length-initial : {F : Type 0} (fill : Option F) (n : ℕ) → length (initial fill n) ≤ n
length-initial none n = omega arith
length-initial (some x) n = omega (arith, length-replicate n x)

module _ {F : Type 0} (numbers : Numbers F) where
  open numbers use {sum_of, plus, minus}

  -- The window with the last values of a history and with their sum.
  abbrev pub window_of : Option F → ℕ → List F → SlidingWindowMean F
  window_of fill n history = record {
    fill = fill;
    window_size = n;
    values = last n history;
    sum = sum_of (last n history);
  }

  module _ (P : F → Type 0) (n : ℕ) (some_room : 0 < n)
      (adds : (xs : List F) (x : F)
        → length xs < n
        → All P xs
        → P x
        → plus (sum_of xs) x ≡ sum_of (xs ++ x ∷ []))
      (slides : (y : F) (xs : List F) (x : F)
        → length (y ∷ xs) ≡ n
        → All P (y ∷ xs)
        → P x
        → plus (sum_of (y ∷ xs)) (minus x y) ≡ sum_of (xs ++ x ∷ [])) where
    -- The sum of the window after `x` has been added to a window `xs` that is full, or that is not.
    new_sum-sum_of :
        (xs : List F) (x : F)
        → length xs ≤ n
        → All P xs
        → P x
        → new_sum numbers n xs (sum_of xs) x ≡ ok (sum_of (append_bounded n xs x))
    unfolding new_sum append_bounded
    new_sum-sum_of [] x short h k =
        let free : (0 == n) ≡ false = ground (arith, some_room) in
        let room : ltb n 1 ≡ false = ground (arith, some_room) in
        rw (free, room) (ap ok (adds [] x some_room tt k))
    new_sum-sum_of (y ∷ xs) x short h k = elim (dec_lt (length (y ∷ xs)) n) [
      | yes p ↦
          let free : (length (y ∷ xs) == n) ≡ false = ground (arith, p) in
          let room : ltb n (length ((y ∷ xs) ++ x ∷ [])) ≡ false =
            ground (arith, p, length-append xs (x ∷ [])) in
          rw (free, room) (ap ok (adds (y ∷ xs) x p h k))
      | no p ↦
          let full : (length (y ∷ xs) == n) ≡ true = ground (arith, p, short) in
          let over : ltb n (length ((y ∷ xs) ++ x ∷ [])) ≡ true =
            ground (arith, p, length-append xs (x ∷ [])) in
          rw (full, over) (ap ok (slides y xs x (omega (arith, p, short)) h k))
    ]

    add-window_of :
        (fill : Option F) (history : List F) (x : F)
        → All P history
        → P x
        → add numbers (window_of fill n history) x
          ≡ ok (sum_of (last n (history ++ x ∷ [])), window_of fill n (history ++ x ∷ []))
    unfolding add
    add-window_of fill history x h k =
        let kept = All-drop P (length history - n) history h in
        rw
          (
            new_sum-sum_of (last n history) x (length-last n history) kept k,
            append_bounded-last n history x,
          )
          refl

    add_all-from :
        (fill : Option F) (history xs : List F)
        → All P history
        → All P xs
        → add_all numbers (window_of fill n history) xs ≡ ok (window_of fill n (history ++ xs))
    unfolding add_all
    add_all-from fill history [] h k = rw (append-nil history)
    add_all-from fill history (x ∷ xs) h k = rw (add-window_of fill history x h k.0) (
        add_all-from fill (history ++ x ∷ []) xs (All-append P history (x ∷ []) h (k.0, tt)) k.1
        ∙ ap (λ ys. ok (window_of fill n ys)) (append_assoc history (x ∷ []) xs))

  -- For values (those with `P`) on which the arithmetic is exact in windows of `n` values: adding a value to
  -- the sum of a window that is not full, and adding the difference of a value and the first one to the
  -- sum of a full window, gives the sum of the new window. Floats that are rounded are no such values.
  -- A calculator with a window of `n` values, which is not 0, that is fed with such values then holds
  -- the last `n` of them, behind the values that it was filled with, and its running sum is the sum of
  -- what it holds.
  pub add_all-window_of :
      (P : F → Type 0) (fill : Option F) (n : ℕ) (xs : List F)
      → 0 < n
      → ((ys : List F) (x : F)
          → length ys < n
          → All P ys
          → P x
          → plus (sum_of ys) x ≡ sum_of (ys ++ x ∷ []))
      → ((y : F) (ys : List F) (x : F)
          → length (y ∷ ys) ≡ n
          → All P (y ∷ ys)
          → P x
          → plus (sum_of (y ∷ ys)) (minus x y) ≡ sum_of (ys ++ x ∷ []))
      → ((x : F) → fill ≡ some x → P x)
      → All P xs
      → add_all numbers (sliding_window_mean numbers n fill) xs
        ≡ ok (window_of fill n (initial fill n ++ xs))
  unfolding sliding_window_mean reset
  add_all-window_of P fill n xs h adds slides filled k =
      let all : length (initial fill n) - n ≡ 0 = omega (arith, length-initial fill n) in
      let start : sliding_window_mean numbers n fill ≡ window_of fill n (initial fill n) =
        rw all refl in
      ap (λ m. add_all numbers m xs) start
      ∙ add_all-from P n h adds slides fill (initial fill n) xs (All-initial P fill n filled) k
