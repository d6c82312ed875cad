-- ===== src/Cache/Hasher.antt =====
-- `CachedHasher` of src/modelguard/cache/digest_cache.py. A call meets three snapshots of the path:
-- before it hashes, while it hashes, and after.
pub mod Rebuilding
pub mod Eviction
pub mod Bounds
pub mod Fidelity
use modelguard.Base.{
  ℕ, zero, suc, ◌*◌, ◌-◌, String, Bool, true, false, ◌&&◌, not, Option, none, some, List, [], ◌∷◌,
  ltb, length,
}
use modelguard.Base.{◌==◌, string_eq, nat_eq, leb, if◌then◌else◌}
use modelguard.Base.Bytes.{Bytes}
use modelguard.Base.Dict.{Dict, get, set, keys}
use modelguard.Base.Sorting.{sorted}
use modelguard.Base.Result.{Result, ok, err, ◌>>=◌}
use modelguard.Exceptions.{Exception}
use modelguard.Hashing.{ArtifactDigest, artifact_digest_from_files, hash_artifact}
use modelguard.Cache.{
  Snapshot, StatModel, Entry, same_stats, capture_fingerprint, all_older_than_margin,
  entry_is_consistent,
}
use modelguard.Sdk.Verification.{CachedHashResult}

pub record CacheFile : Type 0 where
  pub schema_version : ℕ
  pub entries : Dict String Entry

-- What `lstat` reports of the cache file.
pub record CacheStat : Type 0 where
  pub is_regular : Bool
  pub owner : ℕ
  pub others_write : Bool
  pub bytes : ℕ

-- The cache file; `none` for a content that the schema refuses.
pub data CacheDisk : Type 0 where
  absent unreadable : CacheDisk
  present : CacheStat → Option CacheFile → CacheDisk

abbrev pub cache_schema_version : ℕ
cache_schema_version = 1

abbrev pub max_cache_file_bytes : ℕ
max_cache_file_bytes = 16 * 1024 * 1024

abbrev pub max_entries : ℕ
max_entries = 128

abbrev pub empty_cache : CacheFile
empty_cache = record { schema_version = cache_schema_version; entries = [] }

abbrev of_our_version : Option CacheFile → CacheFile
of_our_version none = empty_cache
of_our_version (some c) = if c.schema_version == cache_schema_version then c else empty_cache

unfoldable pub load : ℕ → CacheDisk → CacheFile
load uid absent = empty_cache
load uid unreadable = empty_cache
load uid (present st content) =
    if not st.is_regular
    then empty_cache
    else if not (st.owner == uid)
    then empty_cache
    else if st.others_write
    then empty_cache
    else if ltb max_cache_file_bytes st.bytes
    then empty_cache
    else of_our_version content

-- `del entries[key]`
unfoldable pub remove : Dict String Entry → String → Dict String Entry
remove [] key = []
remove ((k, e) ∷ d) key = let rest = remove d key in if key == k then rest else (k, e) ∷ rest

-- The loop over the first `count` of the oldest entries.
unfoldable pub remove_oldest : ℕ → Dict String Entry → Dict String Entry → Dict String Entry
unfolding remove
remove_oldest zero oldest d = d
remove_oldest (suc count) [] d = d
remove_oldest (suc count) ((k, _) ∷ oldest) d = remove_oldest count oldest (remove d k)

abbrev pub by_age : String × Entry → String × Entry → Bool
by_age (_, e) (_, f) = leb e.recorded_at_ns f.recorded_at_ns

-- The entries that stay where there are more than `MAX_ENTRIES`.
unfoldable pub evict : Dict String Entry → Dict String Entry
unfolding remove_oldest sorted
evict d =
    if ltb max_entries (length d)
    then remove_oldest (length d - max_entries) (sorted by_age d) d
    else d

-- What of the machine a call meets: the user, the clock when it is read and when the entry is made,
-- how long the JSON text of a cache is, and whether the operating system lets it be written.
pub record Machine : Type 0 where
  pub uid : ℕ
  pub now_ns : ℕ
  pub recorded_at_ns : ℕ
  pub size_of : CacheFile → ℕ
  pub writes : Bool

abbrev pub with_entry : CacheFile → String → Entry → CacheFile
with_entry cache key cached = record cache { entries = evict (set cache.entries key cached) }

-- A file that is made with mode `0o600`.
abbrev pub private_file : Machine → CacheFile → CacheStat
private_file machine cache = record {
  is_regular = true;
  owner = machine.uid;
  others_write = false;
  bytes = machine.size_of cache;
}

-- `_store`: the file is replaced as a whole, or stays.
unfoldable pub store : Machine → CacheDisk → String → Entry → CacheDisk
unfolding evict load
store machine disk key cached =
    let stored = with_entry (load machine.uid disk) key cached in
    if machine.writes then present (private_file machine stored) (some stored) else disk

abbrev pub to_option : Result Exception ArtifactDigest → Option ArtifactDigest
to_option (ok d) = some d
to_option (err e) = none

module _ (sha256 : Bytes → String) where
  -- The digest of an entry that the fingerprint agrees with.
  unfoldable pub reuse : Option Entry → String → List StatModel → Option ArtifactDigest
  unfolding entry_is_consistent
  reuse none artifact_type stats = none
  reuse (some cached) artifact_type stats =
      if same_stats cached.stats stats && entry_is_consistent cached artifact_type stats
      then to_option (artifact_digest_from_files sha256 cached.artifact_type cached.files)
      else none

  unfoldable pub entry_of : Machine → ArtifactDigest → List StatModel → Entry
  entry_of machine computed stats = record {
    artifact_type = computed.artifact_type;
    files = computed.files;
    stats = stats;
    recorded_at_ns = machine.recorded_at_ns;
  }

  -- What is kept of a digest that was computed: nothing if the artifact changed meanwhile, or is too new.
  unfoldable pub keep :
      Machine
      → CacheDisk
      → String
      → ArtifactDigest
      → List StatModel
      → Result (Unit {0}) (String × List StatModel)
      → CacheDisk
  unfolding store entry_of all_older_than_margin
  keep machine disk key computed stats (err _) = disk
  keep machine disk key computed stats (ok (_, after)) =
      if not (same_stats after stats)
      then disk
      else if not (all_older_than_margin stats machine.now_ns)
      then disk
      else store machine disk key (entry_of machine computed stats)

  unfoldable pub answer :
      Machine
      → CacheDisk
      → String
      → String
      → List StatModel
      → Option ArtifactDigest
      → (during after : Snapshot) → Result Exception (CachedHashResult × CacheDisk)
  unfolding keep
  answer machine disk key name stats (some digest) during after =
      ok (record { digest = digest; from_cache = true }, disk)
  answer machine disk key name stats none during after = do
    computed ← hash_artifact sha256 name during.node
    ok (
      record { digest = computed; from_cache = false },
      keep machine disk key computed stats (capture_fingerprint name after),
    )

  abbrev pub uncached :
      CacheDisk → String → Snapshot → Result Exception (CachedHashResult × CacheDisk)
  uncached disk name during = do
    computed ← hash_artifact sha256 name during.node
    ok (record { digest = computed; from_cache = false }, disk)

  -- `CachedHasher.hash`, of the path with this last name and this resolved form.
  unfoldable pub cached_hash :
      Machine
      → CacheDisk
      → String
      → String
      → (before during after : Snapshot) → Result Exception (CachedHashResult × CacheDisk)
  unfolding answer reuse load
  cached_hash machine disk key name before during after = elim (capture_fingerprint name before) [
    | err _ ↦ uncached disk name during
    | ok (artifact_type, stats) ↦
        let cached = get (load machine.uid disk).entries key in
        answer machine disk key name stats (reuse cached artifact_type stats) during after
  ]
