-- ===== src/Storage/Manifests/Accepted.antt =====
-- The manifests that src/modelguard/storage/transfer.py accepts.
use mathlib.Core.Path.{subst}
use modelguard.Base.{
  ℕ, suc, ◌+◌, ◌≤◌, String, ◌≡◌, refl, sym, ap, inl, inr, Bool, true, false, not, Option, List, [],
  ◌∷◌, All, any, arith,
}
use modelguard.Base.{
  ◌==◌, string_eq, contains, ltb, length, is_sha256_hex, neither, Bool-cases, text_eq,
}
use modelguard.Base.Bytes.{Bytes}
use modelguard.Base.Result.{ok, require-holds, bind_elim, ok-injective}
use modelguard.Hashing.{FileDigest}
use modelguard.Storage.Paths.{IsSafePath, check_relative_path, check_relative_path-IsSafePath}
use modelguard.Storage.Manifests.{
  Value, text, natural, negative, flag, other, items, Values, no_values, value, mapping,
  has_exactly, value_of, as_text, as_size, parse_entry, parse_entries, is_below, paths_of, collides,
  value_count, manifest_entries, parse_manifest,
}

abbrev pub total_size : List FileDigest → ℕ
total_size [] = 0
total_size (f ∷ fs) = f.size + total_size fs

-- No path stands twice in a list.
abbrev pub AllDistinct : List String → Type 0
AllDistinct [] = Unit
AllDistinct (p ∷ ps) = (contains ps p ≡ false) × AllDistinct ps

abbrev pub IsSafeEntry : FileDigest → Type 0
IsSafeEntry f = IsSafePath f.path × (is_sha256_hex f.sha256 ≡ true)

-- What a download may act on.
pub record IsSafeManifest (max_files max_total_bytes : ℕ) (files : List FileDigest) : Type 0 where
  pub entries : All IsSafeEntry files
  pub distinct : AllDistinct (paths_of files)
  pub apart :
      (p q : String)
      → contains (paths_of files) p ≡ true
      → contains (paths_of files) q ≡ true
      → is_below p q ≡ false
  pub count : length files ≤ max_files
  pub size : total_size files ≤ max_total_bytes

parse_entry-IsSafeEntry : (v : Value) (f : FileDigest) → parse_entry v ≡ ok f → IsSafeEntry f
unfolding parse_entry
parse_entry-IsSafeEntry (mapping ps) f h =
    let (_, h1) = require-holds (has_exactly ps ("path" ∷ "sha256" ∷ "size" ∷ [])) _ _ f h in
    bind_elim (as_text (value_of ps "path")) _ h1 λ path _ h2.
      bind_elim (as_text (value_of ps "sha256")) _ h2 λ sha _ h3.
        bind_elim (as_size (value_of ps "size")) _ h3 λ size _ h4.
          bind_elim (check_relative_path path) _ h4 λ _ checked h5.
            let (hex, made) = require-holds (is_sha256_hex sha) _ _ f h5 in
            let e = ok-injective made in
            (
              subst IsSafePath (ap (λ x. x.path) e) (check_relative_path-IsSafePath path checked),
              subst (λ s. is_sha256_hex s ≡ true) (ap (λ x. x.sha256) e) hex,
            )
parse_entry-IsSafeEntry (text s) f h = absurd (cc h)
parse_entry-IsSafeEntry (natural n) f h = absurd (cc h)
parse_entry-IsSafeEntry (negative n) f h = absurd (cc h)
parse_entry-IsSafeEntry (flag b) f h = absurd (cc h)
parse_entry-IsSafeEntry other f h = absurd (cc h)
parse_entry-IsSafeEntry (items vs) f h = absurd (cc h)

record Read (max_total_bytes : ℕ) (vs : Values) (seen : List String) (total : ℕ)
    (files : List FileDigest) : Type 0 where
  all_safe : All IsSafeEntry files
  all_new : (p : String) → contains seen p ≡ true → contains (paths_of files) p ≡ false
  all_distinct : AllDistinct (paths_of files)
  in_total : total + total_size files ≤ max_total_bytes
  as_many : length files ≡ value_count vs

new_path :
    (seen rest : List String) (path : String)
    → contains seen path ≡ false
    → ((p : String) → contains (path ∷ seen) p ≡ true → contains rest p ≡ false)
    → (p : String) → contains seen p ≡ true
    → contains (path ∷ rest) p ≡ false
new_path seen rest path fresh later p h = ground (arith, later p)

self_in : (p : String) (ps : List String) → contains (p ∷ ps) p ≡ true
self_in p ps = ground arith

parse_entries-Read :
    (max_total_bytes : ℕ) (vs : Values) (seen : List String) (total : ℕ) (files : List FileDigest)
    → total ≤ max_total_bytes
    → parse_entries max_total_bytes vs seen total ≡ ok files
    → Read max_total_bytes vs seen total files
unfolding parse_entries value_count
parse_entries-Read max_total_bytes no_values seen total files start h =
    subst (Read max_total_bytes no_values seen total) (ok-injective h) (record {
      all_safe = tt;
      all_new = λ p _. refl;
      all_distinct = tt;
      in_total = omega (arith, start);
      as_many = refl;
    })
parse_entries-Read max_total_bytes (value v vs) seen total files start h =
    bind_elim (parse_entry v) _ h λ entry at_entry h1.
      let (fresh, h2) = require-holds (not (contains seen entry.path)) _ _ files h1 in
      let (fits, h3) =
        require-holds (not (ltb max_total_bytes (total + entry.size))) _ _ files h2 in
      bind_elim (parse_entries max_total_bytes vs (entry.path ∷ seen) (total + entry.size)) _ h3
        λ rest at_rest h4.
          let later =
            parse_entries-Read max_total_bytes vs (entry.path ∷ seen) (total + entry.size) rest
              (ground (arith, fits)) at_rest in
          subst (Read max_total_bytes (value v vs) seen total) (ok-injective h4) (record {
            all_safe = (parse_entry-IsSafeEntry v entry at_entry, later.all_safe);
            all_new =
                new_path seen (paths_of rest) entry.path (ground (arith, fresh)) later.all_new;
            all_distinct = (later.all_new entry.path (self_in entry.path seen), later.all_distinct);
            in_total = omega (arith, later.in_total);
            as_many = ap suc later.as_many;
          })

any-false :
    (test : String → Bool) (ps : List String) (p : String)
    → any test ps ≡ false
    → contains ps p ≡ true
    → test p ≡ false
any-false test [] p h m = absurd (cc m)
any-false test (q ∷ ps) p h m =
    let (here, there) = neither (test q) (any test ps) h in
    elim (Bool-cases (p == q)) [
      | inl same ↦ subst (λ x. test x ≡ false) (sym (text_eq p q same)) here
      | inr other_path ↦ any-false test ps p there (ground (arith, m))
    ]

module _ (loads : Bytes → Option Value) where
  -- A manifest that is accepted lists safe relative paths, no path twice and no path below another,
  -- with well-formed digests, and stays within both limits.
  pub parse_manifest-IsSafeManifest :
      (raw : Bytes) (max_files max_total_bytes : ℕ) (files : List FileDigest)
      → parse_manifest loads raw max_files max_total_bytes ≡ ok files
      → IsSafeManifest max_files max_total_bytes files
  unfolding parse_manifest collides
  parse_manifest-IsSafeManifest raw max_files max_total_bytes files h =
      bind_elim (manifest_entries (loads raw)) _ h λ entries _ h1.
        let (few, h2) = require-holds (not (ltb max_files (value_count entries))) _ _ files h1 in
        bind_elim (parse_entries max_total_bytes entries [] 0) _ h2 λ found at_found h3.
          let (separate, h4) = require-holds (not (collides (paths_of found))) _ _ files h3 in
          let read = parse_entries-Read max_total_bytes entries [] 0 found (omega arith) at_found in
          subst (IsSafeManifest max_files max_total_bytes) (ok-injective h4) (record {
            entries = read.all_safe;
            distinct = read.all_distinct;
            apart = λ p q in_p in_q.
                any-false (is_below p) (paths_of found) q
                  (any-false (λ path. any (is_below path) (paths_of found)) (paths_of found) p
                    (ground (arith, separate)) in_p)
                  in_q;
            count = ground (arith, few, read.as_many);
            size = omega (arith, read.in_total);
          })
