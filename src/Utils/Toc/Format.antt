-- ===== src/Utils/Toc/Format.antt =====
-- The file format of the cache on the filesystem, and what a lookup finds after a store.
use aiocflib.Prelude.{
  ℕ, zero, suc, ◌+◌, ◌*◌, ◌/◌, ◌%◌, ◌≤◌, ◌≡◌, ◌≢◌, ◌↔◌, refl, ◌∙◌, Bool, true, false, List, [], ◌∷◌,
  ◌++◌, Option, some, ok, ltb, Bytes, All, length, drop, length-append, length-drop, take-append,
  drop-append, Bool-cases, inl, inr, arith,
}
use aiocflib.Utils.Toc.{
  Text, max_item_length, item_bytes, items_bytes, file_bytes, read_items, parse_file, FileCache,
  Files, path_for_hash, set_file, find, has, store,
}

-- Items that the two bytes of a length can describe.
abbrev pub Fits : Bytes → Type 0
Fits item = length item ≤ max_item_length

item_bytes-Fits :
    (item : Bytes)
    → Fits item
    → item_bytes item ≡ ok ((length item % 256) ∷ (length item / 256) ∷ item)
unfolding item_bytes
item_bytes-Fits item h = ground arith

read_none : (n : ℕ) → read_items n [] ≡ ok []
unfolding read_items
read_none zero = refl
read_none (suc n) = refl

-- The loop needs no more fuel than there are bytes.
pub read_items_enough :
    (n m : ℕ) (bs : Bytes) → length bs ≤ n → length bs ≤ m → read_items n bs ≡ read_items m bs
unfolding read_items
read_items_enough zero zero bs h k = refl
read_items_enough zero (suc m) [] h k = refl
read_items_enough zero (suc m) (b ∷ bs) h k = absurd (omega arith)
read_items_enough (suc n) zero [] h k = refl
read_items_enough (suc n) zero (b ∷ bs) h k = absurd (omega arith)
read_items_enough (suc n) (suc m) [] h k = refl
read_items_enough (suc n) (suc m) (b ∷ []) h k = refl
read_items_enough (suc n) (suc m) (b ∷ c ∷ bs) h k =
    let size : ℕ = b + 256 * c in
    let rest : read_items n (drop size bs) ≡ read_items m (drop size bs) =
      read_items_enough n m (drop size bs) (omega (arith, h, length-drop size bs))
        (omega (arith, k, length-drop size bs)) in
    rw (rest, read_items)

read_one :
    (n : ℕ) (item rest : Bytes) (items : List Bytes)
    → read_items n rest ≡ ok items
    → read_items (suc n) ((length item % 256) ∷ (length item / 256) ∷ (item ++ rest))
      ≡ ok (item ∷ items)
unfolding read_items
read_one n item rest items h =
    let size : length item % 256 + 256 * (length item / 256) ≡ length item = omega arith in
    let long : ltb (length (item ++ rest)) (length item) ≡ false =
      ground (arith, length-append item rest) in
    rw (size, long, take-append item rest, drop-append item rest, h)

read_next :
    (item bs : Bytes) (items : List Bytes)
    → ((n : ℕ) → length bs ≤ n → read_items n bs ≡ ok items)
    → (n : ℕ) → length ((length item % 256) ∷ (length item / 256) ∷ (item ++ bs)) ≤ n
    → read_items n ((length item % 256) ∷ (length item / 256) ∷ (item ++ bs)) ≡ ok (item ∷ items)
read_next item bs items back zero h = absurd (omega arith)
read_next item bs items back (suc n) h =
    read_one n item bs items (back n (omega (arith, length-append item bs)))

-- What is written for items that fit is read back.
items_bytes-read_items :
    (items : List Bytes)
    → All Fits items
    → (bs : Bytes) × (items_bytes items ≡ ok bs)
      × ((n : ℕ) → length bs ≤ n → read_items n bs ≡ ok items)
unfolding items_bytes
items_bytes-read_items [] h = ([], refl, λ n k. read_none n)
items_bytes-read_items (item ∷ items) h =
    let (bs, e, back) = items_bytes-read_items items h.1 in
    (
      (length item % 256) ∷ (length item / 256) ∷ (item ++ bs),
      rw (item_bytes-Fits item h.0, e),
      read_next item bs items back,
    )

-- A file of items of at most 65535 bytes each is read back as these items.
pub file_bytes-parse_file :
    (items : List Bytes)
    → All Fits items
    → (bs : Bytes) × (file_bytes items ≡ ok bs) × (parse_file bs ≡ ok items)
unfolding file_bytes parse_file
file_bytes-parse_file items h =
    let (bs, e, back) = items_bytes-read_items items h in
    (1 ∷ bs, rw e, back (length bs) (omega arith))

module _ {FilePath : Type 0} (join : FilePath → Text → FilePath)
    (same_path : FilePath → FilePath → Bool)
    (same_path_iff : (p q : FilePath) → (same_path p q ≡ true) ↔ (p ≡ q)) where
  store_fits :
      (c : FileCache FilePath) (hash : Bytes) (namespace : Option Text) (items : List Bytes)
      (fs : Files FilePath) (p : FilePath) (bs : Bytes)
      → c.read_only ≡ false
      → path_for_hash join same_path c hash namespace ≡ ok p
      → file_bytes items ≡ ok bs
      → store join same_path c hash items namespace fs
        ≡ (ok tt, set_file join same_path p (some bs) fs)
  unfolding store
  store_fits c hash namespace items fs p bs writable e written =
      ground (arith, writable, e, written)

  set_file_lem :
      (p : FilePath) (bs : Option Bytes) (fs : Files FilePath)
      → ((set_file join same_path p bs fs).content p ≡ bs)
        × ((q : FilePath) → q ≢ p → (set_file join same_path p bs fs).content q ≡ fs.content q)
  unfolding set_file
  set_file_lem p bs fs =
      let same : same_path p p ≡ true = (same_path_iff p p).1 refl in
      (
        rw same,
        λ q ne. elim (Bool-cases (same_path q p)) [
          | inl t ↦ absurd (ne ((same_path_iff q p).0 t))
          | inr t ↦ rw t
        ],
      )

  find_file :
      (c : FileCache FilePath) (hash : Bytes) (namespace : Option Text) (fs : Files FilePath)
      (p : FilePath) (bs : Bytes)
      → path_for_hash join same_path c hash namespace ≡ ok p
      → fs.content p ≡ some bs
      → ((find join same_path c hash namespace fs).0 ≡ parse_file bs)
        × ((has join same_path c hash namespace fs).0 ≡ ok true)
  unfolding find has
  find_file c hash namespace fs p bs e k = (ground (arith, e, k), ground (arith, e, k))

  -- On a configured cache that is not read-only, items of at most 65535 bytes each can be stored under any
  -- hash and namespace. The store succeeds, `find` with the same hash and namespace then gives these items
  -- and `has` is true, and no other file has changed.
  pub store-find :
      (c : FileCache FilePath) (hash : Bytes) (namespace : Option Text) (items : List Bytes)
      (fs : Files FilePath) (p : FilePath)
      → c.read_only ≡ false
      → path_for_hash join same_path c hash namespace ≡ ok p
      → All Fits items
      → let fs' = (store join same_path c hash items namespace fs).1 in
        ((store join same_path c hash items namespace fs).0 ≡ ok tt)
        × ((find join same_path c hash namespace fs').0 ≡ ok items)
        × ((has join same_path c hash namespace fs').0 ≡ ok true)
        × ((q : FilePath) → q ≢ p → fs'.content q ≡ fs.content q)
  store-find c hash namespace items fs p writable e h =
      let (bs, written, back) = file_bytes-parse_file items h in
      let fs' = set_file join same_path p (some bs) fs in
      let (there, others) = set_file_lem p (some bs) fs in
      let (found, has_it) = find_file c hash namespace fs' p bs e there in
      rw (store_fits c hash namespace items fs p bs writable e written)
        (refl, found ∙ back, has_it, others)
