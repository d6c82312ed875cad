-- ===== src/Storage/Manifests.antt =====
-- The manifest of a directory artifact as src/modelguard/storage/transfer.py reads it: `json.loads`
-- comes from outside, and what it gives is checked here.
pub mod Accepted
use modelguard.Base.{
  ℕ, zero, suc, ◌+◌, String, ◌<>◌, Bool, true, false, ◌&&◌, ◌||◌, not, Option, none, some, List, [],
  ◌∷◌, any, all, is_empty,
}
use modelguard.Base.{
  ◌==◌, string_eq, nat_eq, contains, ltb, length, is_sha256_hex, strip_prefix, if◌then◌else◌,
}
use modelguard.Base.Bytes.{Bytes}
use modelguard.Base.Result.{Result, ok, err, require, ◌>>=◌, ◌>>◌}
use modelguard.Exceptions.{Exception, artifact_integrity}
use modelguard.Hashing.{
  FileDigest, ArtifactDigest, artifact_digest_from_files, canonical_manifest_bytes,
}
use modelguard.Storage.Paths.{check_relative_path}

-- A value that JSON holds; an integer is told by its sign, and every other number is `other`.
mutual
  pub data Value : Type 0 where
    text : String → Value
    natural negative : ℕ → Value
    flag : Bool → Value
    other : Value
    items : Values → Value
    mapping : Pairs → Value

  pub data Values : Type 0 where
    no_values : Values
    value : Value → Values → Values

  -- A Python dict: no key is met twice.
  pub data Pairs : Type 0 where
    no_pairs : Pairs
    pair : String → Value → Pairs → Pairs

unfoldable pub value_of : Pairs → String → Option Value
value_of no_pairs wanted = none
value_of (pair k v ps) wanted = if k == wanted then some v else value_of ps wanted

unfoldable pub names_of : Pairs → List String
names_of no_pairs = []
names_of (pair k v ps) = k ∷ names_of ps

-- `set(pairs) == set(names)`
unfoldable pub has_exactly : Pairs → List String → Bool
unfolding names_of
has_exactly ps names = all (contains names) (names_of ps) && all (contains (names_of ps)) names

abbrev pub as_text : Option Value → Result Exception String
as_text (some (text s)) = ok s
as_text _ = err (artifact_integrity "a manifest entry has non-string fields")

abbrev pub as_size : Option Value → Result Exception ℕ
as_size (some (natural n)) = ok n
as_size _ = err (artifact_integrity "a manifest entry has an invalid size")

unfoldable pub parse_entry : Value → Result Exception FileDigest
unfolding has_exactly value_of check_relative_path
parse_entry (mapping ps) = do
  require (has_exactly ps ("path" ∷ "sha256" ∷ "size" ∷ []))
      (artifact_integrity "a manifest entry has an unexpected structure")
  path ← as_text (value_of ps "path")
  sha ← as_text (value_of ps "sha256")
  size ← as_size (value_of ps "size")
  check_relative_path path
  require (is_sha256_hex sha) (artifact_integrity "a manifest entry has an invalid SHA-256")
  ok (record { path = path; sha256 = sha; size = size })
parse_entry _ = err (artifact_integrity "a manifest entry has an unexpected structure")

-- The loop over the entries, with the paths seen and the total so far.
unfoldable pub parse_entries : ℕ → Values → List String → ℕ → Result Exception (List FileDigest)
unfolding parse_entry
parse_entries max_total_bytes no_values seen total = ok []
parse_entries max_total_bytes (value v vs) seen total = do
  entry ← parse_entry v
  require (not (contains seen entry.path)) (artifact_integrity "duplicate path in manifest")
  require (not (ltb max_total_bytes (total + entry.size)))
      (artifact_integrity "the artifact exceeds the total size limit")
  files ← parse_entries max_total_bytes vs (entry.path ∷ seen) (total + entry.size)
  ok (entry ∷ files)

-- `longer.startswith(path + "/")`
abbrev pub is_below : String → String → Bool
is_below path longer = elim (strip_prefix (path <> "/") longer) [ none ↦ false | some _ ↦ true ]

abbrev pub paths_of : List FileDigest → List String
paths_of [] = []
paths_of (f ∷ fs) = f.path ∷ paths_of fs

-- A path that is a file and a directory.
unfoldable pub collides : List String → Bool
collides paths = any (λ path. any (is_below path) paths) paths

unfoldable pub value_count : Values → ℕ
value_count no_values = 0
value_count (value v vs) = suc (value_count vs)

unfoldable pub entries_of : Option Value → Result Exception Values
entries_of (some (items (value v vs))) = ok (value v vs)
entries_of _ = err (artifact_integrity "the stored manifest lists no files")

abbrev pub is_sha256_text : Option Value → Bool
is_sha256_text (some (text s)) = s == "sha256"
is_sha256_text _ = false

unfoldable pub manifest_entries : Option Value → Result Exception Values
unfolding has_exactly value_of entries_of
manifest_entries none = err (artifact_integrity "the stored manifest is not valid JSON")
manifest_entries (some (mapping ps)) = do
  require (has_exactly ps ("algorithm" ∷ "files" ∷ []) && is_sha256_text (value_of ps "algorithm"))
      (artifact_integrity "the stored manifest has an unexpected structure")
  entries_of (value_of ps "files")
manifest_entries _ = err (artifact_integrity "the stored manifest has an unexpected structure")

abbrev pub same_bytes : Bytes → Bytes → Bool
same_bytes [] [] = true
same_bytes (b ∷ bs) (c ∷ cs) = b == c && same_bytes bs cs
same_bytes _ _ = false

module _ (loads : Bytes → Option Value) where
  unfoldable pub parse_manifest : Bytes → ℕ → ℕ → Result Exception (List FileDigest)
  unfolding manifest_entries parse_entries collides value_count
  parse_manifest raw max_files max_total_bytes = do
    entries ← manifest_entries (loads raw)
    require (not (ltb max_files (value_count entries)))
        (artifact_integrity "the manifest lists too many files")
    files ← parse_entries max_total_bytes entries [] 0
    require (not (collides (paths_of files)))
        (artifact_integrity "a manifest path is both a file and a directory")
    ok files
