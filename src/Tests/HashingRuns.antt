-- ===== src/Tests/HashingRuns.antt =====
-- Hashing (src/modelguard/hashing/digest.py) of a directory with a subdirectory, and with another one
-- that cannot be listed.
use modelguard.Tests.Samples.{digest_zero}
use modelguard.Base.{◌≡◌, refl, some, [], ◌∷◌, string_eq, nat_eq}
use modelguard.Base.Result.{ok}
use modelguard.Hashing.{
  ArtifactDigest, Node, file, directory, unlistable, link_to_file, no_entries, entry, hash_artifact,
}
use modelguard.Hashing.Links.{IsListable, NoLink, hash_artifact-NoLink}

abbrev tree : Node
tree = directory (
    entry "b" (directory (entry "w" (file (1 ∷ 2 ∷ [])) no_entries)) (
      entry "c" (unlistable (entry "l" link_to_file no_entries))
        (entry "a" (file (7 ∷ [])) no_entries)))

abbrev digest : ArtifactDigest
digest = record {
  algorithm = "sha256";
  artifact_type = "directory";
  digest = "0000000000000000000000000000000000000000000000000000000000000000";
  files =
      record { path = "a"; sha256 = digest_zero []; size = 1 }
      ∷ record { path = "b/w"; sha256 = digest_zero []; size = 2 }
      ∷ [];
}

hashes : hash_artifact digest_zero "model" (some tree) ≡ ok digest
unfolding hash_artifact string_eq nat_eq
hashes = refl

hash_artifact-NoLink_example :
    (node : Node) × (some tree ≡ some node) × IsListable node × NoLink node
hash_artifact-NoLink_example = hash_artifact-NoLink digest_zero "model" (some tree) digest hashes
