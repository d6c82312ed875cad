-- ===== src/Storage/Transfer.antt =====
-- Artifacts moved through a blob store, in src/modelguard/storage/transfer.py. What stands at the
-- destination of a download is a file or a tree, a tree told by the paths of its files.
pub mod Downloads
use Prim.Native.Char.{code}
use modelguard.Base.{
  ℕ, String, ◌<>◌, Bool, true, false, ◌*◌, ◌&&◌, ◌||◌, not, Option, none, some, List, [], ◌∷◌, map,
}
use modelguard.Base.{◌==◌, string_eq, nat_eq, length, if◌then◌else◌}
use modelguard.Base.Bytes.{Bytes}
use modelguard.Base.Result.{Result, ok, err, require, ◌>>=◌, ◌>>◌}
use modelguard.Exceptions.{Exception, artifact_store, artifact_integrity}
use modelguard.Hashing.{
  FileDigest, ArtifactDigest, Node, file, digest_bytes, artifact_digest_from_files,
  canonical_manifest_bytes, hash_artifact,
}
use modelguard.Storage.Blobs.{BlobStore, validate_sha256}
use modelguard.Storage.Manifests.{Value, parse_manifest, same_bytes}

abbrev pub max_manifest_bytes : ℕ
max_manifest_bytes = 64 * 1024 * 1024

abbrev pub Tree : Type 0
Tree = List (String × Bytes)

pub data Artifact : Type 0 where
  one_file : Bytes → Artifact
  tree : Tree → Artifact

-- `artifact_digest.partition(":")`
unfoldable pub partition_colon : String → String × String
partition_colon String.[] = ("", "")
partition_colon (String.◌∷◌ c s) =
    let (before, after) = partition_colon s in
    if code c == b':' then ("", s) else (String.◌∷◌ c before, after)

abbrev pub is_absent : Option Node → Bool
is_absent none = true
is_absent (some _) = false

module _ {ℓ} (sha256 : Bytes → String) (loads : Bytes → Option Value) {S : Type ℓ}
    (store : BlobStore S) where
  -- `_put_if_absent`, of what stands at the source.
  unfoldable pub put_if_absent : S → String → Option Node → Result Exception S
  put_if_absent s digest source = do
    present ← store.has_blob s digest
    if present then ok s else store.put_blob s digest source

  -- The loop over the files of a digest; `below` is what stands at a path below the artifact.
  unfoldable pub put_files : (String → Option Node) → S → List FileDigest → Result Exception S
  unfolding put_if_absent
  put_files below s [] = ok s
  put_files below s (entry ∷ files) = do
    next ← put_if_absent s entry.sha256 (below entry.path)
    put_files below next files

  -- What is put after the artifact was hashed.
  unfoldable pub upload_hashed :
      (String → Option Node) → Option Node → S → ArtifactDigest → Result Exception S
  unfolding put_files
  upload_hashed below source s digest =
      if digest.artifact_type == "file" then put_only digest.files else (do
        filled ← put_files below s digest.files
        put_if_absent filled digest.digest (some (file (canonical_manifest_bytes digest.files))))
    where
      put_only : List FileDigest → Result Exception S
      put_only [] = ok s
      put_only (f ∷ fs) = put_if_absent s f.sha256 source

  -- `hashed` is what the path held when it was hashed, `below` and `source` when it is read again.
  unfoldable pub upload_artifact :
      S
      → String
      → Option Node
      → (String → Option Node)
      → Option Node
      → Result Exception (ArtifactDigest × S)
  unfolding upload_hashed
  upload_artifact s name hashed below source = do
    digest ← hash_artifact sha256 name hashed
    filled ← upload_hashed below source s digest
    ok (digest, filled)

  unfoldable pub fetch_manifest : S → String → ℕ → ℕ → Result Exception (List FileDigest)
  fetch_manifest s expected max_files max_total_bytes = do
    raw ← store.get_blob s expected max_manifest_bytes
    files ← parse_manifest loads raw max_files max_total_bytes
    rederived ← artifact_digest_from_files sha256 "directory" files
    require (rederived.digest == expected && same_bytes (canonical_manifest_bytes files) raw)
        (artifact_integrity "the stored manifest is not in canonical form")
    ok files

  -- The loop that fills the staging directory.
  unfoldable pub stage : S → List FileDigest → Result Exception Tree
  stage s [] = ok []
  stage s (entry ∷ files) = do
    content ← store.get_blob s entry.sha256 entry.size
    require (length content == entry.size)
        (artifact_integrity "a file has a different size than the manifest declares")
    rest ← stage s files
    ok ((entry.path, content) ∷ rest)

  -- `hash_artifact` of a tree without links.
  abbrev pub tree_files : Tree → List FileDigest
  tree_files [] = []
  tree_files ((path, content) ∷ t) = digest_bytes sha256 path content ∷ tree_files t

  unfoldable pub check_rebuilt : Tree → String → Result Exception (Unit {0})
  check_rebuilt built expected = do
    rebuilt ← artifact_digest_from_files sha256 "directory" (tree_files built)
    require (rebuilt.digest == expected) (artifact_integrity "the rebuilt artifact differs")

  unfoldable pub verify_rebuilt : Tree → String → Bool → Result Exception (Unit {0})
  unfolding check_rebuilt
  verify_rebuilt built expected verify_after =
      if verify_after then check_rebuilt built expected else ok tt

  unfoldable pub download_tree : S → String → ℕ → ℕ → Bool → Result Exception Artifact
  unfolding fetch_manifest stage verify_rebuilt
  download_tree s expected max_total_bytes max_files verify_after = do
    files ← fetch_manifest s expected max_files max_total_bytes
    built ← stage s files
    verify_rebuilt built expected verify_after
    ok (tree built)

  unfoldable pub download_file : S → String → ℕ → Result Exception Artifact
  download_file s expected max_total_bytes = do
    content ← store.get_blob s expected max_total_bytes
    ok (one_file content)

  unfoldable pub download_checked :
      S → String × String → String → Option Node → ℕ → ℕ → Bool → Result Exception Artifact
  unfolding download_tree download_file
  download_checked s (algorithm, expected) artifact_type dest max_total_bytes max_files
        verify_after =
      do
        require (algorithm == "sha256") (artifact_store "only sha256 digests are supported")
        validate_sha256 expected
        require (artifact_type == "file" || artifact_type == "directory")
            (artifact_store "artifact_type must be 'file' or 'directory'")
        require (is_absent dest) (artifact_store "destination already exists")
        (if artifact_type == "file"
            then download_file s expected max_total_bytes
            else download_tree s expected max_total_bytes max_files verify_after)

  -- What a download puts at its destination; nothing is put there where it raises.
  unfoldable pub download_artifact :
      S → String → String → Option Node → ℕ → ℕ → Bool → Result Exception Artifact
  unfolding partition_colon download_checked
  download_artifact s artifact_digest artifact_type dest max_total_bytes max_files verify_after =
      download_checked s (partition_colon artifact_digest) artifact_type dest max_total_bytes
        max_files verify_after
