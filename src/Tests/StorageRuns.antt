-- ===== src/Tests/StorageRuns.antt =====
-- Blobs and downloads (src/modelguard/storage) under a stand-in for SHA-256 that tells lengths apart.
use modelguard.Base.{
  ℕ, String, ◌≡◌, ◌≤◌, refl, true, Option, none, some, [], ◌∷◌, string_eq, nat_eq, ◌==◌, length,
  if◌then◌else◌,
}
use modelguard.Base.{is_sha256_hex, is_control}
use modelguard.Base.Bytes.{Bytes}
use modelguard.Base.Dict.{get, set}
use modelguard.Base.Result.{ok, err}
use modelguard.Exceptions.{artifact_integrity}
use modelguard.Hashing.{FileDigest, file, canonical_manifest_bytes, artifact_digest_from_files}
use modelguard.Storage.Blobs.{LocalBlobStore, open_regular_nofollow, get_to, put}
use modelguard.Storage.Blobs.RoundTrip.{get_to-put}
use modelguard.Storage.Blobs.Contract.{local_store, local_store-IsVerifying}
use modelguard.Storage.Paths.{check_relative_path}
use modelguard.Storage.Manifests.{
  Value, text, natural, items, mapping, no_values, value, no_pairs, pair, parse_manifest,
}
use modelguard.Storage.Manifests.Accepted.{IsSafeManifest, parse_manifest-IsSafeManifest}
use modelguard.Storage.Transfer.{tree, download_artifact, partition_colon, is_absent}
use modelguard.Storage.Transfer.Downloads.{IsOfDigest, download_artifact-IsOfDigest}

abbrev short_digest : String
short_digest = "aaaaaaaaaaaaaaaaaaaaaaaaaaaaaaaaaaaaaaaaaaaaaaaaaaaaaaaaaaaaaaaa"

abbrev long_digest : String
long_digest = "bbbbbbbbbbbbbbbbbbbbbbbbbbbbbbbbbbbbbbbbbbbbbbbbbbbbbbbbbbbbbbbb"

abbrev sha256 : Bytes → String
sha256 bytes = if length bytes == 2 then short_digest else long_digest

abbrev weights : FileDigest
weights = record { path = "layer/w.bin"; sha256 = short_digest; size = 2 }

abbrev manifest_bytes : Bytes
manifest_bytes = canonical_manifest_bytes (weights ∷ [])

abbrev entry_value : String → Value
entry_value path =
    mapping (
      pair "path" (text path)
        (pair "sha256" (text short_digest) (pair "size" (natural 2) no_pairs)))

abbrev loads : Bytes → Option Value
loads raw = some (
    mapping (
      pair "algorithm" (text "sha256")
        (pair "files" (items (value (entry_value "layer/w.bin") no_values)) no_pairs)))

abbrev blobs : LocalBlobStore sha256
blobs = (short_digest, file (1 ∷ 2 ∷ [])) ∷ (long_digest, file manifest_bytes) ∷ []

abbrev id : String
id = "sha256:bbbbbbbbbbbbbbbbbbbbbbbbbbbbbbbbbbbbbbbbbbbbbbbbbbbbbbbbbbbbbbbb"

manifest_is_read : parse_manifest loads manifest_bytes 10 100 ≡ ok (weights ∷ [])
unfolding parse_manifest check_relative_path is_sha256_hex is_control string_eq nat_eq
manifest_is_read = refl

parent_is_refused :
    check_relative_path "../w.bin"
    ≡ err (artifact_integrity "has an empty, '.', '..' or over-long segment")
unfolding check_relative_path is_control string_eq nat_eq
parent_is_refused = refl

tree_is_downloaded :
    download_artifact sha256 loads (local_store sha256) blobs id "directory" none 100 10 true
    ≡ ok (tree (("layer/w.bin", 1 ∷ 2 ∷ []) ∷ []))
unfolding download_artifact partition_colon parse_manifest check_relative_path is_sha256_hex
    is_control string_eq nat_eq get_to get canonical_manifest_bytes artifact_digest_from_files
tree_is_downloaded = refl

parse_manifest-IsSafeManifest_example : IsSafeManifest 10 100 (weights ∷ [])
parse_manifest-IsSafeManifest_example =
    parse_manifest-IsSafeManifest loads manifest_bytes 10 100 (weights ∷ []) manifest_is_read

download_artifact-IsOfDigest_example :
    IsOfDigest sha256 loads
      (local_store sha256)
      (local_store-IsVerifying sha256)
      (partition_colon id).1
      100
      10
      (tree (("layer/w.bin", 1 ∷ 2 ∷ []) ∷ []))
    × (is_absent none ≡ true)
download_artifact-IsOfDigest_example =
    download_artifact-IsOfDigest sha256 loads (local_store sha256) (local_store-IsVerifying sha256)
      blobs id "directory" none 100 10 true (tree (("layer/w.bin", 1 ∷ 2 ∷ []) ∷ []))
      tree_is_downloaded

get_to-put_example :
    (content : Bytes) × (open_regular_nofollow (some (file (1 ∷ 2 ∷ []))) ≡ ok content)
    × ((max_bytes : ℕ)
        → length content ≤ max_bytes
        → get_to sha256 ((short_digest, file (1 ∷ 2 ∷ [])) ∷ []) short_digest max_bytes
          ≡ ok content)
unfolding put is_sha256_hex string_eq nat_eq set
get_to-put_example =
    get_to-put sha256 [] ((short_digest, file (1 ∷ 2 ∷ [])) ∷ []) short_digest
      (some (file (1 ∷ 2 ∷ []))) refl
