-- ===== src/Utils/Toc.antt =====
-- The table-of-contents caches of aiocflib/utils/toc.py. Text is a list of code points, and the files of
-- the folder are a function from their names to their bytes; the errors that the filesystem itself may
-- raise are not modelled. `pathlib`'s join of a folder and a name is the parameter `join`.
pub mod Format
pub mod Namespaces
pub mod Fetching
use aiocflib.Prelude.{
  ℕ, zero, suc, ◌+◌, ◌*◌, ◌/◌, ◌%◌, ◌^◌, Bool, true, false, List, [], ◌∷◌, ◌++◌, map, Option, none,
  some, Result, ok, err, bind, io_error, key_error, value_error, ltb, ◌==◌, if◌then◌else◌, Bytes,
  bytes_eq, length, take, drop,
}
use aiocflib.Prelude.Exec.{Exec, pure, raise, lift, ◌>>=◌, ◌>>◌}

abbrev pub Text : Type 0
Text = List ℕ

-- The longest item of a file.
abbrev pub max_item_length : ℕ
max_item_length = 65535

-- The bytes of one item: its length in two bytes, and the item. `IOError` without a number is `io_error 0`.
unfoldable pub item_bytes : Bytes → Result Bytes
item_bytes item =
    let n = length item in
    if ltb max_item_length n then err (io_error 0) else ok ((n % 256) ∷ (n / 256) ∷ item)

items_bytes : List Bytes → Result Bytes
unfolding item_bytes
items_bytes [] = ok []
items_bytes (item ∷ items) =
    let rest = items_bytes items in bind (item_bytes item) (λ bs. bind rest (λ cs. ok (bs ++ cs)))

-- What `store` writes: the version and the items.
unfoldable pub file_bytes : List Bytes → Result Bytes
unfolding items_bytes
file_bytes items = bind (items_bytes items) (λ bs. ok (1 ∷ bs))

-- The loop of `find`, which reads two bytes and as many as they say. A last single byte ends it as the
-- end of the file does. Each turn reads at least two bytes, so the length of the file bounds them.
unfoldable pub read_items : ℕ → Bytes → Result (List Bytes)
read_items (suc fuel) (low ∷ high ∷ rest) =
    let size = low + 256 * high in
    let more = read_items fuel (drop size rest) in
    if ltb (length rest) size
    then err (io_error 0)
    else bind more (λ items. ok (take size rest ∷ items))
read_items fuel bs = ok []

unfoldable pub parse_file : Bytes → Result (List Bytes)
unfolding read_items
parse_file [] = err (io_error 0)
parse_file (version ∷ bs) = if version == 1 then read_items (length bs) bs else err (io_error 0)

-- `hexlify(hash).decode("ascii").lower()`, which is in lower case from the start.
hex_digit : ℕ → ℕ
hex_digit n = if ltb n 10 then 48 + n else 87 + n

hex_digits : ℕ → ℕ → Text
unfolding hex_digit
hex_digits zero n = []
hex_digits (suc k) n = hex_digits k (n / 16) ++ hex_digit (n % 16) ∷ []

unfoldable pub hexlify : Bytes → Text
unfolding hex_digits
hexlify [] = []
hexlify (b ∷ bs) = hex_digits 2 b ++ hexlify bs

-- `encode("ascii", errors="backslashreplace")` and the three replacements of one code point after it: a
-- slash becomes a backslash with "2f", each backslash an equals sign, and a dot a slash.
unfoldable pub sanitize_char : ℕ → Text
unfolding hex_digits
sanitize_char c =
    if c == 47
    then 61 ∷ 50 ∷ 102 ∷ []
    else if c == 92
    then 61 ∷ []
    else if c == 46
    then 47 ∷ []
    else if ltb c 128
    then c ∷ []
    else if ltb c 256
    then 61 ∷ 120 ∷ hex_digits 2 c
    else if ltb c 65536
    then 61 ∷ 117 ∷ hex_digits 4 c
    else 61 ∷ 85 ∷ hex_digits 8 c

unfoldable pub sanitize_namespace : Text → Text
unfolding sanitize_char
sanitize_namespace [] = []
sanitize_namespace (c ∷ cs) = sanitize_char c ++ sanitize_namespace cs

-- ".bin"
abbrev pub bin_suffix : Text
bin_suffix = 46 ∷ 98 ∷ 105 ∷ 110 ∷ []

pub record FileCache (FilePath : Type 0) : Type 0 where
  pub folder : Option FilePath
  pub read_only : Bool

-- The setter of `path`, which `_configure` calls.
unfoldable pub set_path : {P : Type 0} → FileCache P → P → Result (FileCache P)
set_path c p = elim c.folder [
  | some q ↦ err value_error
  | none ↦ ok (record { folder = some p; read_only = c.read_only })
]

pub record Files (FilePath : Type 0) : Type 0 where
  pub content : FilePath → Option Bytes

module _ {FilePath : Type 0} (join : FilePath → Text → FilePath)
    (same_path : FilePath → FilePath → Bool) where
  unfoldable pub path_for_namespace : FileCache FilePath → Option Text → Result FilePath
  unfolding sanitize_namespace
  path_for_namespace c namespace = elim c.folder [
    | none ↦ err value_error
    | some p ↦ elim namespace [
      | none ↦ ok p
      | some ns ↦ elim (sanitize_namespace ns) [ [] ↦ ok p | x ∷ xs ↦ ok (join p (x ∷ xs)) ]
    ]
  ]

  unfoldable pub path_for_hash : FileCache FilePath → Bytes → Option Text → Result FilePath
  unfolding path_for_namespace hexlify
  path_for_hash c hash namespace =
      bind (path_for_namespace c namespace) (λ p. ok (join p (hexlify hash ++ bin_suffix)))

  unfoldable pub set_file : FilePath → Option Bytes → Files FilePath → Files FilePath
  set_file p bs fs = record { content = λ q. if same_path q p then bs else fs.content q }

  unfoldable pub find :
      FileCache FilePath → Bytes → Option Text → Exec (Files FilePath) (List Bytes)
  unfolding path_for_hash parse_file
  find c hash namespace fs = elim (path_for_hash c hash namespace) [
    | err e ↦ (err e, fs)
    | ok p ↦ elim (fs.content p) [ none ↦ (err key_error, fs) | some bs ↦ (parse_file bs, fs) ]
  ]

  unfoldable pub has : FileCache FilePath → Bytes → Option Text → Exec (Files FilePath) Bool
  unfolding path_for_hash
  has c hash namespace fs = elim (path_for_hash c hash namespace) [
    | err e ↦ (err e, fs)
    | ok p ↦ elim (fs.content p) [ none ↦ (ok false, fs) | some bs ↦ (ok true, fs) ]
  ]

  -- A store that fails removes the file that it was writing.
  unfoldable pub store :
      FileCache FilePath → Bytes → List Bytes → Option Text → Exec (Files FilePath) (Unit {0})
  unfolding path_for_hash set_file file_bytes
  store c hash items namespace fs = elim c.read_only [
    | true ↦ (ok tt, fs)
    | false ↦ elim (path_for_hash c hash namespace) [
      | err e ↦ (err e, fs)
      | ok p ↦ elim (file_bytes items) [
        | err e ↦ (err e, set_file p none fs)
        | ok bs ↦ (ok tt, set_file p (some bs) fs)
      ]
    ]
  ]
