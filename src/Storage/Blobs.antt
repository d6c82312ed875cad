-- ===== src/Storage/Blobs.antt =====
-- src/modelguard/storage/_io.py, protocol.py and local.py: a store of blobs, and the one that keeps
-- them in a directory. A blob's place holds whatever the disk holds there.
pub mod Contract
pub mod RoundTrip
use modelguard.Base.{
  ℕ, zero, suc, ◌+◌, String, Bool, true, false, not, Option, none, some, List, [], ◌∷◌, ◌++◌,
  is_sha256_hex,
}
use modelguard.Base.{◌==◌, string_eq, ltb, length, if◌then◌else◌}
use modelguard.Base.Bytes.{Bytes}
use modelguard.Base.Dict.{Dict, get, set}
use modelguard.Base.Result.{Result, ok, err, require, ◌>>=◌, ◌>>◌}
use modelguard.Exceptions.{Exception, artifact_store, artifact_integrity, blob_not_found}
use modelguard.Hashing.{
  Node, file, directory, unlistable, link_to_file, link_to_directory, broken_link,
}

abbrev pub chunk_size : ℕ
chunk_size = 1048576

unfoldable pub validate_sha256 : String → Result Exception (Unit {0})
validate_sha256 value = require (is_sha256_hex value) (artifact_store "not a blob identifier")

-- `open_regular_nofollow`, and what is read from it.
unfoldable pub open_regular_nofollow : Option Node → Result Exception Bytes
open_regular_nofollow (some (file content)) = ok content
open_regular_nofollow (some (directory listing)) = err (artifact_store "not a regular file")
open_regular_nofollow (some (unlistable listing)) = err (artifact_store "not a regular file")
open_regular_nofollow _ = err (artifact_store "cannot open")

-- The first bytes of a content, and the rest.
unfoldable pub read_chunk : ℕ → Bytes → Bytes × Bytes
read_chunk zero bytes = ([], bytes)
read_chunk (suc n) [] = ([], [])
read_chunk (suc n) (b ∷ bytes) = let (chunk, rest) = read_chunk n bytes in (b ∷ chunk, rest)

-- `_chunks`, of chunks of a size; a round takes a byte at least, so that the length of the content is
-- enough fuel.
unfoldable pub chunks_of : ℕ → ℕ → Bytes → List Bytes
unfolding read_chunk
chunks_of size zero bytes = []
chunks_of size (suc fuel) [] = []
chunks_of size (suc fuel) (b ∷ bytes) =
    let (chunk, rest) = read_chunk size (b ∷ bytes) in chunk ∷ chunks_of size fuel rest

-- The loop of `write_verified`, after so many bytes.
unfoldable pub receive : ℕ → ℕ → List Bytes → Result Exception Bytes
receive max_bytes written [] = ok []
receive max_bytes written (chunk ∷ chunks) =
    let rest = receive max_bytes (written + length chunk) chunks in
    if ltb max_bytes (written + length chunk)
    then err (artifact_integrity "blob exceeds the size limit")
    else (do more ← rest; ok (chunk ++ more))

module _ (sha256 : Bytes → String) where
  -- What `write_verified` leaves at a destination where nothing was.
  unfoldable pub write_verified : List Bytes → String → ℕ → Result Exception Bytes
  unfolding receive
  write_verified chunks expected_sha256 max_bytes = do
    content ← receive max_bytes 0 chunks
    require (sha256 content == expected_sha256) (artifact_integrity "digest differs")
    ok content

  -- The files below `blobs/sha256`, by their digests.
  abbrev pub LocalBlobStore : Type 0
  LocalBlobStore = Dict String Node

  abbrev is_plain_file : Option Node → Bool
  is_plain_file (some (file _)) = true
  is_plain_file _ = false

  unfoldable pub exists : LocalBlobStore → String → Result Exception Bool
  unfolding validate_sha256
  exists store digest = do validate_sha256 digest; ok (is_plain_file (get store digest))

  unfoldable pub put : LocalBlobStore → String → Option Node → Result Exception LocalBlobStore
  unfolding validate_sha256 open_regular_nofollow
  put store digest source = do
    validate_sha256 digest
    content ← open_regular_nofollow source
    require (sha256 content == digest) (artifact_integrity "source does not hash to the digest")
    ok (set store digest (file content))

  -- `except ArtifactStoreError`, with the place of the blob.
  unfoldable pub absent_or : Option Node → Result Exception Bytes → Result Exception Bytes
  absent_or none (err (artifact_store _)) = err blob_not_found
  absent_or none (err (artifact_integrity _)) = err blob_not_found
  absent_or _ r = r

  -- What `get_to` writes to its destination.
  unfoldable pub get_to : LocalBlobStore → String → ℕ → Result Exception Bytes
  unfolding validate_sha256 open_regular_nofollow chunks_of write_verified absent_or
  get_to store digest max_bytes = do
    validate_sha256 digest
    absent_or (get store digest) (do
      raw ← open_regular_nofollow (get store digest)
      write_verified (chunks_of chunk_size (length raw) raw) digest max_bytes)

-- The protocol that the transfer uses, over any kind of store.
pub record BlobStore {ℓ} (S : Type ℓ) : Type ℓ where
  pub has_blob : S → String → Result Exception Bool
  pub put_blob : S → String → Option Node → Result Exception S
  pub get_blob : S → String → ℕ → Result Exception Bytes
