-- ===== src/Hashing.antt =====
-- src/modelguard/hashing/digest.py: the digest of a file and of a directory. What stands at a path is
-- a tree; `sha256` gives the hexadecimal digest of bytes.
pub mod Links
use modelguard.Base.{ℕ, String, ◌<>◌, Bool, not, Option, none, some, List, [], ◌∷◌, ◌++◌}
use modelguard.Base.{length, ◌==◌, string_eq, if◌then◌else◌, text_le}
use modelguard.Base.Bytes.{Bytes}
use modelguard.Base.Json.{text, number, array, object, Items, nil, cons, end, member, dumps}
use modelguard.Base.Sorting.{sorted}
use modelguard.Base.Result.{Result, ok, err, ◌>>=◌, ◌>>◌}
use modelguard.Exceptions.{Exception, artifact_not_found, empty_artifact, unsafe_path, value_error}

pub record FileDigest : Type 0 where
  pub path : String
  pub sha256 : String
  pub size : ℕ

pub record ArtifactDigest : Type 0 where
  pub algorithm : String
  pub artifact_type : String
  pub digest : String
  pub files : List FileDigest

-- What the file system holds at a path. A link is told by what it leads to. An unlistable directory is
-- one that the process may not list; what is in it is given all the same.
mutual
  pub data Node : Type 0 where
    file : Bytes → Node
    directory unlistable : Listing → Node
    link_to_file : Node
    link_to_directory : Node
    broken_link : Node

  pub data Listing : Type 0 where
    no_entries : Listing
    entry : String → Node → Listing → Listing

abbrev pub by_path : FileDigest → FileDigest → Bool
by_path f g = text_le f.path g.path

unfoldable pub file_items : List FileDigest → Items
file_items [] = nil
file_items (f ∷ fs) =
    cons
      (object (
        member "path" (text f.path)
          (member "sha256" (text f.sha256) (member "size" (number f.size) end))))
      (file_items fs)

unfoldable pub canonical_manifest_bytes : List FileDigest → Bytes
unfolding file_items sorted dumps
canonical_manifest_bytes files = dumps (
    object (
      member "algorithm" (text "sha256")
        (member "files" (array (file_items (sorted by_path files))) end)))

-- `f"{prefix}/{name}"`, for a path below the root of the artifact
abbrev pub join_path : String → String → String
join_path prefix name = if prefix == "" then name else prefix <> "/" <> name

module _ (sha256 : Bytes → String) where
  abbrev pub file_digest_of : List FileDigest → Result Exception ArtifactDigest
  file_digest_of (f ∷ []) =
      ok
        (record { algorithm = "sha256"; artifact_type = "file"; digest = f.sha256; files = f ∷ [] })
  file_digest_of _ = err value_error

  unfoldable pub artifact_digest_from_files :
      String → List FileDigest → Result Exception ArtifactDigest
  unfolding canonical_manifest_bytes
  artifact_digest_from_files artifact_type files =
      if artifact_type == "file"
      then file_digest_of files
      else if not (artifact_type == "directory")
      then err value_error
      else ok (record {
        algorithm = "sha256";
        artifact_type = "directory";
        digest = sha256 (canonical_manifest_bytes files);
        files = sorted by_path files;
      })

  abbrev pub digest_bytes : String → Bytes → FileDigest
  digest_bytes path content = record { path = path; sha256 = sha256 content; size = length content }

  -- `hash_file`, at a path that holds a file with this name
  unfoldable pub hash_file : String → Bytes → Result Exception ArtifactDigest
  unfolding artifact_digest_from_files
  hash_file name content = artifact_digest_from_files "file" (digest_bytes name content ∷ [])

  -- The loop over `dirnames` of one directory.
  unfoldable pub check_directories : String → Listing → Result Exception (Unit {0})
  check_directories prefix no_entries = ok tt
  check_directories prefix (entry name link_to_directory rest) =
      err (unsafe_path (join_path prefix name) "symlinked directory")
  check_directories prefix (entry name _ rest) = check_directories prefix rest

  -- The loop over `filenames` of one directory.
  unfoldable pub hash_files : String → Listing → Result Exception (List FileDigest)
  hash_files prefix no_entries = ok []
  hash_files prefix (entry name (file content) rest) = do
    more ← hash_files prefix rest
    ok (digest_bytes (join_path prefix name) content ∷ more)
  hash_files prefix (entry name link_to_file rest) =
      err (unsafe_path (join_path prefix name) "symlinked file")
  hash_files prefix (entry name broken_link rest) =
      err (unsafe_path (join_path prefix name) "symlinked file")
  hash_files prefix (entry name (directory _) rest) = hash_files prefix rest
  hash_files prefix (entry name (unlistable _) rest) = hash_files prefix rest
  hash_files prefix (entry name link_to_directory rest) = hash_files prefix rest

  -- `os.walk`, top down: a directory's own entries, and then its subdirectories in order. Without
  -- `onerror` it passes over a directory that it cannot list, with all that is in it.
  unfoldable mutual
    unfolding check_directories hash_files

    pub walk_node : String → Node → Result Exception (List FileDigest)
    walk_node prefix (directory listing) = do
      check_directories prefix listing
      here ← hash_files prefix listing
      below ← walk_below prefix listing
      ok (here ++ below)
    walk_node prefix _ = ok []

    pub walk_below : String → Listing → Result Exception (List FileDigest)
    walk_below prefix no_entries = ok []
    walk_below prefix (entry name node rest) = do
      first ← walk_node (join_path prefix name) node
      more ← walk_below prefix rest
      ok (first ++ more)

  abbrev pub refuse_no_files : List FileDigest → Result Exception (List FileDigest)
  refuse_no_files [] = err (empty_artifact "")
  refuse_no_files (f ∷ fs) = ok (f ∷ fs)

  unfoldable pub hash_directory : Listing → Result Exception ArtifactDigest
  unfolding walk_node artifact_digest_from_files
  hash_directory listing = do
    file_digests ← walk_node "" (directory listing)
    found ← refuse_no_files file_digests
    artifact_digest_from_files "directory" found

  -- `hash_artifact`, at a path with this last name
  unfoldable pub hash_artifact : String → Option Node → Result Exception ArtifactDigest
  unfolding hash_directory hash_file
  hash_artifact name none = err (artifact_not_found name)
  hash_artifact name (some broken_link) = err (artifact_not_found name)
  hash_artifact name (some link_to_file) = err (unsafe_path name "artifact root is a symlink")
  hash_artifact name (some link_to_directory) = err (unsafe_path name "artifact root is a symlink")
  hash_artifact name (some (directory listing)) = hash_directory listing
  hash_artifact name (some (unlistable _)) = hash_directory no_entries
  hash_artifact name (some (file content)) = hash_file name content
