-- ===== src/Hashing/Links.antt =====
-- Symbolic links in src/modelguard/hashing/digest.py: `hash_directory` refuses them wherever the walk
-- comes to them.
use modelguard.Base.{String, ◌≡◌, refl, List, Option, some, none}
use modelguard.Base.Bytes.{Bytes}
use modelguard.Base.Result.{ok, bind_elim}
use modelguard.Hashing.{
  FileDigest, ArtifactDigest, Node, file, directory, unlistable, link_to_file, link_to_directory,
  broken_link, Listing, no_entries, entry, join_path, check_directories, hash_files, walk_node,
  walk_below, hash_directory, hash_artifact,
}

-- No symbolic link at any depth, except within directories that cannot be listed.
mutual
  pub LinkFree : Listing → Type 0
  LinkFree no_entries = Unit
  LinkFree (entry name node rest) = NoLink node × LinkFree rest

  pub NoLink : Node → Type 0
  NoLink (file content) = Unit
  NoLink (directory listing) = LinkFree listing
  NoLink (unlistable listing) = Unit
  NoLink link_to_file = ⊥
  NoLink link_to_directory = ⊥
  NoLink broken_link = ⊥

abbrev pub IsListable : Node → Type 0
IsListable (unlistable listing) = ⊥
IsListable _ = Unit

module _ (sha256 : Bytes → String) where
  walked-LinkFree :
      (listing : Listing) (prefix : String) {here below : List FileDigest}
      → check_directories sha256 prefix listing ≡ ok tt
      → hash_files sha256 prefix listing ≡ ok here
      → walk_below sha256 prefix listing ≡ ok below
      → LinkFree listing
  unfolding LinkFree check_directories hash_files walk_node
  walked-LinkFree no_entries prefix c h w = tt
  walked-LinkFree (entry name (file content) rest) prefix c h w =
      bind_elim (hash_files sha256 prefix rest) _ h λ more at_more _.
        bind_elim (walk_below sha256 prefix rest) _ w
          λ below at_below _. (tt, walked-LinkFree rest prefix c at_more at_below)
  walked-LinkFree (entry name (directory listing) rest) prefix c h w =
      bind_elim (walk_node sha256 (join_path prefix name) (directory listing)) _ w
        λ first inside w1. bind_elim (walk_below sha256 prefix rest) _ w1 λ below at_below _. (
          bind_elim (check_directories sha256 (join_path prefix name) listing) _ inside λ _ c2 i1.
              bind_elim (hash_files sha256 (join_path prefix name) listing) _ i1 λ here h2 i2.
                bind_elim (walk_below sha256 (join_path prefix name) listing) _ i2
                  λ more w2 _. walked-LinkFree listing (join_path prefix name) c2 h2 w2,
          walked-LinkFree rest prefix c h at_below,
        )
  walked-LinkFree (entry name (unlistable listing) rest) prefix c h w =
      bind_elim (walk_below sha256 prefix rest) _ w
        λ below at_below _. (tt, walked-LinkFree rest prefix c h at_below)
  walked-LinkFree (entry name link_to_file rest) prefix c h w = cc
  walked-LinkFree (entry name link_to_directory rest) prefix c h w = cc
  walked-LinkFree (entry name broken_link rest) prefix c h w = cc

  walk_node-LinkFree :
      (listing : Listing) {found : List FileDigest}
      → walk_node sha256 "" (directory listing) ≡ ok found
      → LinkFree listing
  unfolding walk_node
  walk_node-LinkFree listing h = bind_elim (check_directories sha256 "" listing) _ h λ _ c h1.
      bind_elim (hash_files sha256 "" listing) _ h1 λ here at_here h2.
        bind_elim (walk_below sha256 "" listing) _ h2
          λ below at_below _. walked-LinkFree listing "" c at_here at_below

  -- An artifact that is hashed is there, is no symbolic link and no unlistable directory itself, and
  -- holds no symbolic link at any depth, except within directories below it that cannot be listed.
  pub hash_artifact-NoLink :
      (name : String) (artifact : Option Node) (digest : ArtifactDigest)
      → hash_artifact sha256 name artifact ≡ ok digest
      → (node : Node) × (artifact ≡ some node) × IsListable node × NoLink node
  unfolding hash_artifact hash_directory NoLink
  hash_artifact-NoLink name none digest h = cc
  hash_artifact-NoLink name (some (file content)) digest h = (file content, refl, tt, tt)
  hash_artifact-NoLink name (some (directory listing)) digest h =
      bind_elim (walk_node sha256 "" (directory listing)) _ h
        λ found at_found _. (directory listing, refl, tt, walk_node-LinkFree listing at_found)
  hash_artifact-NoLink name (some (unlistable listing)) digest h = unfold walk_node in absurd (cc h)
  hash_artifact-NoLink name (some link_to_file) digest h = cc
  hash_artifact-NoLink name (some link_to_directory) digest h = cc
  hash_artifact-NoLink name (some broken_link) digest h = cc
