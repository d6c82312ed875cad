-- ===== src/Cache.antt =====
-- src/modelguard/cache/digest_cache.py: the cache of artifact digests. A snapshot is what stands at a
-- path at one moment; times are counted from the epoch. `return None` of a fingerprint is `err tt`.
pub mod Hasher
use Prim.Native.Nat.{max}
use modelguard.Base.{
  ℕ, ◌+◌, String, Bool, true, false, ◌&&◌, not, Option, none, some, List, [], ◌∷◌, ◌++◌, all, map,
}
use modelguard.Base.{◌==◌, string_eq, nat_eq, leb, text_le, if◌then◌else◌}
use modelguard.Base.Sorting.{sorted}
use modelguard.Base.Result.{Result, ok, err, ◌>>=◌, ◌>>◌}
use modelguard.Hashing.{
  FileDigest, Node, file, directory, unlistable, link_to_file, link_to_directory, broken_link,
  Listing, no_entries, entry, join_path,
}
use modelguard.Base.{length}

pub record Meta : Type 0 where
  pub mtime_ns : ℕ
  pub ctime_ns : ℕ
  pub ino : ℕ
  pub dev : ℕ

-- `meta` gives what the file system reports of a regular file, by its path below the artifact.
pub record Snapshot : Type 0 where
  pub node : Option Node
  pub meta : String → Meta

pub record StatModel : Type 0 where
  pub relpath : String
  pub size : ℕ
  pub mtime_ns : ℕ
  pub ctime_ns : ℕ
  pub ino : ℕ
  pub dev : ℕ

pub record Entry : Type 0 where
  pub artifact_type : String
  pub files : List FileDigest
  pub stats : List StatModel
  pub recorded_at_ns : ℕ

abbrev pub racy_margin_ns : ℕ
racy_margin_ns = 2000000000

abbrev pub stat_model : String → ℕ → Meta → StatModel
stat_model relpath size meta = record {
  relpath = relpath;
  size = size;
  mtime_ns = meta.mtime_ns;
  ctime_ns = meta.ctime_ns;
  ino = meta.ino;
  dev = meta.dev;
}

abbrev pub same_stat : StatModel → StatModel → Bool
same_stat s t =
    s.relpath == t.relpath
    && s.size == t.size
    && s.mtime_ns == t.mtime_ns
    && s.ctime_ns == t.ctime_ns
    && s.ino == t.ino
    && s.dev == t.dev

-- `stats == stats`
abbrev pub same_stats : List StatModel → List StatModel → Bool
same_stats [] [] = true
same_stats (s ∷ ss) (t ∷ ts) = same_stat s t && same_stats ss ts
same_stats _ _ = false

abbrev pub cacheable : StatModel → Result (Unit {0}) StatModel
cacheable s = if s.ino == 0 then err tt else ok s

module _ (meta : String → Meta) where
  -- The loop over `dirnames`.
  unfoldable pub refuse_links : Listing → Result (Unit {0}) (Unit {0})
  refuse_links no_entries = ok tt
  refuse_links (entry name link_to_directory rest) = err tt
  refuse_links (entry name _ rest) = refuse_links rest

  -- The loop over `filenames`.
  unfoldable pub stat_files : String → Listing → Result (Unit {0}) (List StatModel)
  stat_files prefix no_entries = ok []
  stat_files prefix (entry name (file content) rest) = do
    s ←
        cacheable
          (stat_model (join_path prefix name) (length content) (meta (join_path prefix name)))
    more ← stat_files prefix rest
    ok (s ∷ more)
  stat_files prefix (entry name link_to_file rest) = err tt
  stat_files prefix (entry name broken_link rest) = err tt
  stat_files prefix (entry name (directory _) rest) = stat_files prefix rest
  stat_files prefix (entry name (unlistable _) rest) = stat_files prefix rest
  stat_files prefix (entry name link_to_directory rest) = stat_files prefix rest

  -- `os.walk`, top down; a directory that it cannot list it passes over
  unfoldable mutual
    unfolding refuse_links stat_files

    pub stat_node : String → Node → Result (Unit {0}) (List StatModel)
    stat_node prefix (directory listing) = do
      refuse_links listing
      here ← stat_files prefix listing
      below ← stat_below prefix listing
      ok (here ++ below)
    stat_node prefix _ = ok []

    pub stat_below : String → Listing → Result (Unit {0}) (List StatModel)
    stat_below prefix no_entries = ok []
    stat_below prefix (entry name node rest) = do
      first ← stat_node (join_path prefix name) node
      more ← stat_below prefix rest
      ok (first ++ more)

abbrev pub by_relpath : StatModel → StatModel → Bool
by_relpath s t = text_le s.relpath t.relpath

abbrev pub sorted_stats : List StatModel → Result (Unit {0}) (String × List StatModel)
sorted_stats [] = err tt
sorted_stats (s ∷ ss) = ok ("directory", sorted by_relpath (s ∷ ss))

-- At a path with this last name, on POSIX.
unfoldable pub capture_fingerprint : String → Snapshot → Result (Unit {0}) (String × List StatModel)
unfolding stat_node
capture_fingerprint name now = elim now.node [
  | none ↦ err tt
  | some node ↦ elim node [
    | link_to_file ↦ err tt
    | link_to_directory ↦ err tt
    | broken_link ↦ err tt
    | file content ↦ do
      single ← cacheable (stat_model name (length content) (now.meta name))
      ok ("file", single ∷ [])
    | directory listing ↦ do
      dir_stats ← stat_node now.meta "" (directory listing)
      sorted_stats dir_stats
    | unlistable _ ↦ sorted_stats []
  ]
]

-- `max(mtime, ctime) <= now - margin`, with the margin on the other side
unfoldable pub all_older_than_margin : List StatModel → ℕ → Bool
all_older_than_margin stats now_ns =
    all (λ s. leb (max s.mtime_ns s.ctime_ns + racy_margin_ns) now_ns) stats

abbrev pub same_files : List FileDigest → List StatModel → Bool
same_files [] [] = true
same_files (f ∷ fs) (s ∷ ss) = f.path == s.relpath && f.size == s.size && same_files fs ss
same_files _ _ = false

unfoldable pub entry_is_consistent : Entry → String → List StatModel → Bool
entry_is_consistent cached artifact_type stats =
    cached.artifact_type == artifact_type && same_files cached.files stats
