-- ===== src/Utils/Toc/Namespaces.antt =====
-- The interface `TOCCache` of aiocflib/utils/toc.py, the cache without memory, the one in memory, and the
-- wrapper that restricts a cache to a namespace.
pub mod InMemory
use aiocflib.Prelude.{
  ℕ, ◌≡◌, ◌≢◌, ◌↔◌, refl, sym, ap, ◌∙◌, append_assoc, Bool, true, false, List, [], ◌∷◌, ◌++◌,
  Option, none, some, Result, ok, err, key_error, lookup, insert, if◌then◌else◌, Bytes, bytes_eq,
  arith,
}
use aiocflib.Prelude.Exec.{Exec, pure, raise}
use aiocflib.Utils.Toc.{Text}

pub record TocCache (S : Type 0) : Type 0 where
  pub find : Bytes → Option Text → Exec S (List Bytes)
  pub has : Bytes → Option Text → Exec S Bool
  pub store : Bytes → List Bytes → Option Text → Exec S (Unit {0})

-- `NullTOCCache`
unfoldable pub null_cache : {S : Type 0} → TocCache S
null_cache = record {
  find = λ hash namespace. raise key_error;
  has = λ hash namespace. pure false;
  store = λ hash items namespace. pure tt;
}

unfoldable pub same_namespace : Option Text → Option Text → Bool
same_namespace none none = true
same_namespace none (some b) = false
same_namespace (some a) none = false
same_namespace (some a) (some b) = bytes_eq a b

abbrev pub Hashes : Type 0
Hashes = List (Bytes × List Bytes)

-- `_namespaces` of `InMemoryTOCCache`
pub record MemoryCache : Type 0 where
  pub namespaces : List (Option Text × Hashes)

abbrev pub or_empty : Option Hashes → Hashes
or_empty none = []
or_empty (some hashes) = hashes

abbrev pub or_key_error {ℓ} : {A : Type ℓ} → Option A → Result A
or_key_error none = err key_error
or_key_error (some a) = ok a

-- An absent namespace and an empty one raise the same `KeyError` as an absent hash.
unfoldable pub find_in : Bytes → Hashes → Result (List Bytes)
unfolding lookup
find_in hash [] = err key_error
find_in hash (entry ∷ entries) = or_key_error (lookup bytes_eq hash (entry ∷ entries))

unfoldable pub memory_find : Bytes → Option Text → Exec MemoryCache (List Bytes)
unfolding find_in lookup same_namespace
memory_find hash namespace c =
    (find_in hash (or_empty (lookup same_namespace namespace c.namespaces)), c)

-- `has` tries `find` and catches the `KeyError`.
unfoldable pub memory_has : Bytes → Option Text → Exec MemoryCache Bool
unfolding memory_find
memory_has hash namespace c = elim (memory_find hash namespace c).0 [
  | ok items ↦ (ok true, c)
  | err e ↦ (ok false, c)
]

-- `self._namespaces[namespace][hash] = tuple(items)`, with the default `{}` of the namespaces.
unfoldable pub memory_store : Bytes → List Bytes → Option Text → Exec MemoryCache (Unit {0})
unfolding lookup insert same_namespace
memory_store hash items namespace c =
    let hashes = or_empty (lookup same_namespace namespace c.namespaces) in
    (
      ok tt,
      record {
        namespaces =
            insert same_namespace namespace (insert bytes_eq hash items hashes) c.namespaces;
      },
    )

unfoldable pub memory_cache : TocCache MemoryCache
unfolding memory_find memory_has memory_store
memory_cache = record { find = memory_find; has = memory_has; store = memory_store }

-- `_remap` of `NamespacedTOCCacheWrapper`
unfoldable pub remap : Text → Text → Option Text → Text
remap outer sep none = outer
remap outer sep (some namespace) = outer ++ (sep ++ namespace)

-- A cache whose operations pass every namespace through a function.
unfoldable pub remapped : {S : Type 0} → TocCache S → (Option Text → Text) → TocCache S
remapped wrapped f = record {
  find = λ hash namespace. wrapped.find hash (some (f namespace));
  has = λ hash namespace. wrapped.has hash (some (f namespace));
  store = λ hash items namespace. wrapped.store hash items (some (f namespace));
}

-- The wrapper with its namespace and its separator, which is "." unless given.
unfoldable pub namespaced : {S : Type 0} → TocCache S → Text → Text → TocCache S
unfolding remap remapped
namespaced wrapped outer sep = remapped wrapped (remap outer sep)

remap-remap :
    (outer inner sep : Text) (namespace : Option Text)
    → remap outer sep (some (remap inner sep namespace))
      ≡ remap (outer ++ (sep ++ inner)) sep namespace
unfolding remap
remap-remap outer inner sep none = refl
remap-remap outer inner sep (some namespace) = sym (
    append_assoc outer (sep ++ inner) (sep ++ namespace)
    ∙ ap (λ xs. outer ++ xs) (append_assoc sep inner (sep ++ namespace)))

-- A namespace within a namespace of a cache is the namespace of the joined names: every operation on
-- the one is the same operation on the other.
pub namespaced-namespaced :
    {S : Type 0} (c : TocCache S) (outer inner sep : Text)
    → namespaced (namespaced c outer sep) inner sep ≡ namespaced c (outer ++ (sep ++ inner)) sep
unfolding namespaced remapped
namespaced-namespaced c outer inner sep =
    λ i. remapped c (λ namespace. remap-remap outer inner sep namespace i)
