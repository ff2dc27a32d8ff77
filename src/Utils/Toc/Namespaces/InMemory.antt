-- ===== src/Utils/Toc/Namespaces/InMemory.antt =====
-- What `InMemoryTOCCache` finds after a store, at the same place and at every other.
use aiocflib.Prelude.{
  ◌≡◌, ◌≢◌, ◌↔◌, ◌⊎◌, refl, sym, ap, ◌∙◌, true, List, [], ◌∷◌, Option, none, some, ok, Bytes,
  bytes_eq, bytes_eq→eq, bytes_eq_refl, Bool-cases, inl, inr, of_some, subst, arith,
}
use aiocflib.Prelude.{lookup, insert, lookup-insert, lookup-insert_other, bytes_eq_iff}
use aiocflib.Utils.Toc.{Text}
use aiocflib.Utils.Toc.Namespaces.{
  find_in, same_namespace, Hashes, MemoryCache, or_empty, or_key_error, memory_find, memory_has,
  memory_store,
}

same_namespace_iff : (a b : Option Text) → (same_namespace a b ≡ true) ↔ (a ≡ b)
unfolding same_namespace
same_namespace_iff none none = (λ h. refl, λ h. refl)
same_namespace_iff none (some b) = (λ h. absurd (ground arith), λ h. absurd (ground arith))
same_namespace_iff (some a) none = (λ h. absurd (ground arith), λ h. absurd (ground arith))
same_namespace_iff (some a) (some b) =
    (λ h. ap some (bytes_eq→eq a b h), λ h. of_some (λ x. bytes_eq a x ≡ true) h (bytes_eq_refl a))

find_in_lem :
    (hash : Bytes) (hashes : Hashes)
    → find_in hash hashes ≡ or_key_error (lookup bytes_eq hash hashes)
unfolding find_in lookup
find_in_lem hash [] = refl
find_in_lem hash (entry ∷ entries) = refl

find_in_other :
    (hash hash' : Bytes) (items : List Bytes) (hashes : Hashes)
    → hash ≢ hash'
    → find_in hash' (insert bytes_eq hash items hashes) ≡ find_in hash' hashes
find_in_other hash hash' items hashes ne =
    find_in_lem hash' (insert bytes_eq hash items hashes)
    ∙ ap or_key_error (lookup-insert_other bytes_eq bytes_eq_iff hash hash' items hashes ne)
    ∙ sym (find_in_lem hash' hashes)

hashes_of : Option Text → MemoryCache → Hashes
hashes_of namespace c = or_empty (lookup same_namespace namespace c.namespaces)

hashes_of_store :
    (hash : Bytes) (items : List Bytes) (namespace : Option Text) (c : MemoryCache)
    → hashes_of namespace (memory_store hash items namespace c).1
      ≡ insert bytes_eq hash items (hashes_of namespace c)
unfolding hashes_of memory_store
hashes_of_store hash items namespace c =
    ap or_empty (lookup-insert same_namespace same_namespace_iff namespace _ c.namespaces)

hashes_of_other :
    (hash : Bytes) (items : List Bytes) (namespace other : Option Text) (c : MemoryCache)
    → namespace ≢ other
    → hashes_of other (memory_store hash items namespace c).1 ≡ hashes_of other c
unfolding hashes_of memory_store
hashes_of_other hash items namespace other c ne =
    ap or_empty
      (lookup-insert_other same_namespace same_namespace_iff namespace other _ c.namespaces ne)

-- After a store in the cache in memory, `find` with the same hash and namespace gives the stored items and
-- `has` is true. With any other hash or namespace, `find` gives what it gave before.
pub memory_store-find :
    (hash : Bytes) (items : List Bytes) (namespace : Option Text) (c : MemoryCache)
    → let c' = (memory_store hash items namespace c).1 in
      ((memory_find hash namespace c').0 ≡ ok items)
      × ((memory_has hash namespace c').0 ≡ ok true)
      × ((hash' : Bytes) (namespace' : Option Text)
          → (hash ≢ hash') ⊎ (namespace ≢ namespace')
          → (memory_find hash' namespace' c').0 ≡ (memory_find hash' namespace' c).0)
unfolding memory_find memory_has hashes_of
memory_store-find hash items namespace c =
    let c' = (memory_store hash items namespace c).1 in
    let there : (memory_find hash namespace c').0 ≡ ok items =
      ap (find_in hash) (hashes_of_store hash items namespace c)
      ∙ find_in_lem hash (insert bytes_eq hash items (hashes_of namespace c))
      ∙ ap or_key_error (lookup-insert bytes_eq bytes_eq_iff hash items (hashes_of namespace c)) in
    (
      there,
      rw (there, memory_has) refl,
      λ hash' namespace' ne. elim (Bool-cases (same_namespace namespace namespace')) [
        | inr f ↦ ap (find_in hash') (
            hashes_of_other hash items namespace namespace' c
              (λ e. let h = (same_namespace_iff namespace namespace').1 e in ground (arith, f, h)))
        | inl t ↦ elim ne [
          | inr other ↦ absurd (other ((same_namespace_iff namespace namespace').0 t))
          | inl other ↦
              subst (λ x. (memory_find hash' x c').0 ≡ (memory_find hash' x c).0)
                ((same_namespace_iff namespace namespace').0 t)
                (ap (find_in hash') (hashes_of_store hash items namespace c)
                  ∙ find_in_other hash hash' items (hashes_of namespace c) other)
        ]
      ],
    )
