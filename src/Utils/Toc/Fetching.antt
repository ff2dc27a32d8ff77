-- ===== src/Utils/Toc/Fetching.antt =====
-- `fetch_table_of_contents_gracefully` of aiocflib/utils/toc.py: the cache first, the device otherwise.
-- `S` is the state of the device and of the cache; the lock that keeps two fetches of one table apart has
-- no part in a single fetch.
use aiocflib.Prelude.{
  ℕ, zero, suc, ◌≡◌, refl, ap, ◌∙◌, List, [], ◌∷◌, Option, none, some, Result, ok, err, bind, of_ok,
  Option-cases, Result-cases, inl, inr, Bytes, pack_uint, arith,
}
use aiocflib.Prelude.Exec.{Exec, pure, lift, ◌>>=◌, continue-ok}
use aiocflib.Utils.Toc.Namespaces.{TocCache}

module _ {S T : Type 0} (info : Exec S (ℕ × ℕ)) (fetch_one : ℕ → Exec S T)
    (from_bytes : Bytes → ℕ → Result T) (to_bytes : T → Result Bytes) where
  -- `[from_bytes(data, id) for id, data in enumerate(items)]`, from the number `id` on
  unfoldable pub decode_items : ℕ → List Bytes → Result (List T)
  decode_items id [] = ok []
  decode_items id (bs ∷ items) =
      let rest = decode_items (suc id) items in
      bind (from_bytes bs id) (λ x. bind rest (λ xs. ok (x ∷ xs)))

  unfoldable pub encode_items : List T → Result (List Bytes)
  encode_items [] = ok []
  encode_items (x ∷ xs) =
      let rest = encode_items xs in bind (to_bytes x) (λ bs. bind rest (λ items. ok (bs ∷ items)))

  -- `[await single_item_fetcher_func(i) for i in range(num_items)]`, the `n` items from `id` on
  unfoldable pub fetch_items : ℕ → ℕ → Exec S (List T)
  fetch_items zero id = pure []
  fetch_items (suc n) id = do x ← fetch_one id; xs ← fetch_items n (suc id); pure (x ∷ xs)

  -- What the cache has, if it has a table that can be decoded; every exception is caught.
  unfoldable pub try_cache : Option (TocCache S) → Bytes → S → Option (List T) × S
  unfolding decode_items
  try_cache none hash s = (none, s)
  try_cache (some cache) hash s =
      let (found, s') = cache.find hash none s in
      elim found [
        | err e ↦ (none, s')
        | ok items ↦ elim (decode_items 0 items) [ ok xs ↦ (some xs, s') | err e ↦ (none, s') ]
      ]

  -- The store into the cache; every exception is caught.
  unfoldable pub try_store : Option (TocCache S) → Bytes → List T → S → S
  unfolding encode_items
  try_store none hash xs s = s
  try_store (some cache) hash xs s = elim (encode_items xs) [
    | err e ↦ s
    | ok items ↦ (cache.store hash items none s).1
  ]

  fetch_missing : Option (TocCache S) → ℕ → Bytes → Option (List T) × S → Result (List T) × S
  unfolding fetch_items try_store
  fetch_missing cache n hash (some xs, s) = (ok xs, s)
  fetch_missing cache n hash (none, s) =
      let (fetched, s') = fetch_items n 0 s in
      elim fetched [ err e ↦ (err e, s') | ok xs ↦ (ok xs, try_store cache hash xs s') ]

  -- The hash is packed as `Struct("<I")`.
  unfoldable pub fetch_gracefully : Option (TocCache S) → Exec S (List T)
  unfolding fetch_missing try_cache
  fetch_gracefully cache = do
    (n, number) ← info
    hash ← lift (pack_uint 4 number)
    λ s. fetch_missing cache n hash (try_cache cache hash s)

  -- What an item that was fetched is turned into, and back.
  abbrev pub RoundTrips : Type 0
  RoundTrips =
      (i : ℕ) (s : S) (x : T)
      → (fetch_one i s).0 ≡ ok x
      → (bs : Bytes) × (to_bytes x ≡ ok bs) × (from_bytes bs i ≡ ok x)

  fetched_round_trip :
      RoundTrips
      → (n id : ℕ) (s : S) (xs : List T) → (fetch_items n id s).0 ≡ ok xs
      → (items : List Bytes) × (encode_items xs ≡ ok items) × (decode_items id items ≡ ok xs)
  unfolding fetch_items encode_items decode_items
  fetched_round_trip rt zero id s [] h = ([], refl, refl)
  fetched_round_trip rt zero id s (x ∷ xs) h = absurd (ground arith)
  fetched_round_trip rt (suc n) id s xs h =
      let (x, e, h₁) = continue-ok _ _ _ h in
      let (ys, f, h₂) = continue-ok _ _ _ h₁ in
      let (bs, there, back) = rt id s x e in
      let (items, all, decoded) = fetched_round_trip rt n (suc id) _ ys f in
      of_ok
        (λ zs.
          (items : List Bytes) × (encode_items zs ≡ ok items) × (decode_items id items ≡ ok zs))
        h₂ (bs ∷ items, rw (there, all), rw (back, decoded))

  try_cache_hit :
      (cache : TocCache S) (hash : Bytes) (items : List Bytes) (xs : List T) (s : S)
      → (cache.find hash none s).0 ≡ ok items
      → (cache.find hash none s).1 ≡ s
      → decode_items 0 items ≡ ok xs
      → try_cache (some cache) hash s ≡ (some xs, s)
  unfolding try_cache
  try_cache_hit cache hash items xs s h e k =
      rw (h, try_cache) (rw (k, try_cache) (ap (λ t. (some xs, t)) e))

  abbrev Finds : TocCache S → Type 0
  Finds cache =
      (hash : Bytes) (items : List Bytes) (t : S)
      → (cache.find hash none (cache.store hash items none t).1).0 ≡ ok items

  abbrev Keeps : TocCache S → Type 0
  Keeps cache = (hash : Bytes) (t : S) → (cache.find hash none t).1 ≡ t

  -- After a miss, the table that was fetched is found.
  again_after_miss :
      (cache : TocCache S) (n : ℕ) (hash : Bytes) (xs : List T) (s : S)
      → Finds cache
      → Keeps cache
      → RoundTrips
      → (fetch_missing (some cache) n hash (none, s)).0 ≡ ok xs
      → let s' = (fetch_missing (some cache) n hash (none, s)).1 in
        try_cache (some cache) hash s' ≡ (some xs, s')
  unfolding fetch_missing try_store
  again_after_miss cache n hash xs s finds keeps rt h = elim (Result-cases (fetch_items n 0 s).0) [
    | inr (e, f) ↦ absurd (ground (arith, f, h))
    | inl (ys, f) ↦
        let (items, encoded, decoded) = fetched_round_trip rt n 0 s ys f in
        let t = (cache.store hash items none (fetch_items n 0 s).1).1 in
        let done : fetch_missing (some cache) n hash (none, s) ≡ (ok ys, t) =
          rw (f, fetch_missing) (rw (encoded, try_store) refl) in
        let same : ok ys ≡ ok xs = rw done at h in
        rw done (
          of_ok (λ zs. try_cache (some cache) hash t ≡ (some zs, t)) same
            (try_cache_hit cache hash items ys t (finds hash items _) (keeps hash t) decoded))
  ]

  try_cache-Keeps :
      (cache : TocCache S) (hash : Bytes) (s : S)
      → Keeps cache
      → (try_cache (some cache) hash s).1 ≡ s
  unfolding try_cache
  try_cache-Keeps cache hash s keeps = elim (Result-cases (cache.find hash none s).0) [
    | inr (e, f) ↦ rw (f, try_cache) (keeps hash s)
    | inl (items, f) ↦ elim (Result-cases (decode_items 0 items)) [
      | inr (e, g) ↦ rw (f, try_cache) (rw (g, try_cache) (keeps hash s))
      | inl (ys, g) ↦ rw (f, try_cache) (rw (g, try_cache) (keeps hash s))
    ]
  ]

  again :
      (cache : TocCache S) (n : ℕ) (hash : Bytes) (xs : List T) (s : S)
      → Finds cache
      → Keeps cache
      → RoundTrips
      → (fetch_missing (some cache) n hash (try_cache (some cache) hash s)).0 ≡ ok xs
      → let s' = (fetch_missing (some cache) n hash (try_cache (some cache) hash s)).1 in
        try_cache (some cache) hash s' ≡ (some xs, s')
  unfolding fetch_missing
  again cache n hash xs s finds keeps rt h = elim (Option-cases (try_cache (some cache) hash s).0) [
    | inl f ↦
        let tried : try_cache (some cache) hash s ≡ (none, s) =
          λ i. (f i, try_cache-Keeps cache hash s keeps i) in
        rw tried (again_after_miss cache n hash xs s finds keeps rt (rw tried at h))
    | inr (ys, f) ↦
        let tried : try_cache (some cache) hash s ≡ (some ys, s) =
          λ i. (f i, try_cache-Keeps cache hash s keeps i) in
        let same : ok ys ≡ ok xs = rw tried at h in
        rw tried (of_ok (λ zs. try_cache (some cache) hash s ≡ (some zs, s)) same tried)
  ]

  fetch_gracefully_lem :
      (cache : Option (TocCache S)) (n number : ℕ) (hash : Bytes) (s : S)
      → info s ≡ (ok (n, number), s)
      → pack_uint 4 number ≡ ok hash
      → fetch_gracefully cache s ≡ fetch_missing cache n hash (try_cache cache hash s)
  unfolding fetch_gracefully
  fetch_gracefully_lem cache n number hash s e k = rw e (rw k refl)

  -- With a cache that finds what was stored last under a hash and whose lookups change nothing, and with
  -- items that survive `to_bytes` and `from_bytes`: when a fetch has returned a table, the next fetch
  -- returns the same table and leaves the state of the device and the cache as it is. The query of the
  -- table's size and hash, which each fetch begins with, is assumed to give the same answer at all times
  -- and to leave the state alone itself.
  pub fetch_gracefully-again :
      (cache : TocCache S) (n number : ℕ) (xs : List T) (s : S)
      → ((hash : Bytes) (items : List Bytes) (t : S)
          → (cache.find hash none (cache.store hash items none t).1).0 ≡ ok items)
      → ((hash : Bytes) (t : S) → (cache.find hash none t).1 ≡ t)
      → ((t : S) → info t ≡ (ok (n, number), t))
      → RoundTrips
      → (fetch_gracefully (some cache) s).0 ≡ ok xs
      → let s' = (fetch_gracefully (some cache) s).1 in
        fetch_gracefully (some cache) s' ≡ (ok xs, s')
  unfolding fetch_missing fetch_gracefully
  fetch_gracefully-again cache n number xs s finds keeps same rt h =
      elim (Result-cases (pack_uint 4 number)) [
        | inr (e, k) ↦ absurd (let raised : err e ≡ ok xs = rw (same s, k) at h in ground arith)
        | inl (hash, k) ↦
            let first = fetch_gracefully_lem (some cache) n number hash s (same s) k in
            let s' = (fetch_missing (some cache) n hash (try_cache (some cache) hash s)).1 in
            rw first (
              fetch_gracefully_lem (some cache) n number hash s' (same s') k
              ∙ ap (fetch_missing (some cache) n hash)
                  (again cache n hash xs s finds keeps rt (rw first at h)))
      ]
