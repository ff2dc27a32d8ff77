-- ===== src/Tests/TocRuns.antt =====
-- The theorems on the caches of tables at concrete inputs.
use aiocflib.Prelude.{
  ℕ, ◌≡◌, ◌≢◌, ◌⊎◌, refl, true, false, List, [], ◌∷◌, ◌++◌, Option, none, some, Result, ok, Bytes,
  bytes_eq, bytes_eq_iff, replicate, pack_uint, arith,
}
use aiocflib.Prelude.Exec.{Exec}
use aiocflib.Utils.Toc.{Text, FileCache, Files, path_for_hash, find, has, store}
use aiocflib.Utils.Toc.Format.{store-find}
use aiocflib.Utils.Toc.Namespaces.{MemoryCache, memory_find, memory_has, memory_store, memory_cache}
use aiocflib.Utils.Toc.Namespaces.InMemory.{memory_store-find}
use aiocflib.Utils.Toc.Fetching.{fetch_gracefully, fetch_gracefully-again}

abbrev join : Text → Text → Text
join p q = p ++ 47 ∷ q

abbrev folder_cache : FileCache Text
folder_cache = record { folder = some (97 ∷ []); read_only = false }

abbrev no_files : Files Text
no_files = record { content = λ q. none }

abbrev two_items : List Bytes
two_items = (1 ∷ 2 ∷ []) ∷ [] ∷ []

-- "a/p/0a.bin"
abbrev stored_path : Text
stored_path = 97 ∷ 47 ∷ 112 ∷ 47 ∷ 48 ∷ 97 ∷ 46 ∷ 98 ∷ 105 ∷ 110 ∷ []

stored_path_lem :
    path_for_hash join bytes_eq folder_cache (10 ∷ []) (some (112 ∷ [])) ≡ ok stored_path
unfolding path_for_hash
stored_path_lem = refl

store-find_example :
    let fs' = (store join bytes_eq folder_cache (10 ∷ []) two_items (some (112 ∷ [])) no_files).1 in
    ((store join bytes_eq folder_cache (10 ∷ []) two_items (some (112 ∷ [])) no_files).0 ≡ ok tt)
    × ((find join bytes_eq folder_cache (10 ∷ []) (some (112 ∷ [])) fs').0 ≡ ok two_items)
    × ((has join bytes_eq folder_cache (10 ∷ []) (some (112 ∷ [])) fs').0 ≡ ok true)
    × ((q : Text) → q ≢ stored_path → fs'.content q ≡ none)
store-find_example =
    store-find join bytes_eq bytes_eq_iff folder_cache (10 ∷ []) (some (112 ∷ [])) two_items
      no_files stored_path refl stored_path_lem (omega arith, (omega arith, tt))

abbrev long_item : Bytes
long_item = replicate 65536 0

abbrev empty_memory : MemoryCache
empty_memory = record { namespaces = [] }

memory_store-find_example :
    let c' = (memory_store (10 ∷ []) two_items (some (112 ∷ [])) empty_memory).1 in
    ((memory_find (10 ∷ []) (some (112 ∷ [])) c').0 ≡ ok two_items)
    × ((memory_has (10 ∷ []) (some (112 ∷ [])) c').0 ≡ ok true)
    × ((hash' : Bytes) (namespace' : Option Text)
        → ((10 ∷ []) ≢ hash') ⊎ (some (112 ∷ []) ≢ namespace')
        → (memory_find hash' namespace' c').0 ≡ (memory_find hash' namespace' empty_memory).0)
memory_store-find_example = memory_store-find (10 ∷ []) two_items (some (112 ∷ [])) empty_memory

abbrev two_in_table : Exec MemoryCache (ℕ × ℕ)
two_in_table s = (ok (2, 7), s)

abbrev item_at : ℕ → Exec MemoryCache Bytes
item_at i s = (ok (i ∷ []), s)

abbrev decoded : Bytes → ℕ → Result Bytes
decoded bs i = ok bs

first_fetch :
    (fetch_gracefully two_in_table item_at decoded ok (some memory_cache) empty_memory).0
    ≡ ok ((0 ∷ []) ∷ (1 ∷ []) ∷ [])
unfolding fetch_gracefully memory_cache pack_uint
first_fetch = refl

memory_finds :
    (hash : Bytes) (items : List Bytes) (t : MemoryCache)
    → (memory_cache.find hash none (memory_cache.store hash items none t).1).0 ≡ ok items
unfolding memory_cache
memory_finds hash items t = (memory_store-find hash items none t).0

memory_keeps : (hash : Bytes) (t : MemoryCache) → (memory_cache.find hash none t).1 ≡ t
unfolding memory_cache memory_find
memory_keeps hash t = refl

fetch_gracefully-again_example :
    let s' =
      (fetch_gracefully two_in_table item_at decoded ok (some memory_cache) empty_memory).1 in
    fetch_gracefully two_in_table item_at decoded ok (some memory_cache) s'
    ≡ (ok ((0 ∷ []) ∷ (1 ∷ []) ∷ []), s')
fetch_gracefully-again_example =
    fetch_gracefully-again two_in_table item_at decoded ok memory_cache 2 7
      ((0 ∷ []) ∷ (1 ∷ []) ∷ []) empty_memory memory_finds memory_keeps (λ t. refl)
      (λ i s x h. (x, refl, refl)) first_fetch
