-- ===== src/Signing/TrustConfig/Merging.antt =====
-- What `merge_trust_configs` returns, and when it returns.
use modelguard.Base.{String, ◌≡◌, refl, ◌∙◌, true, false, Option, none, some, List, []}
use modelguard.Base.{◌∷◌, ◌==◌, string_eq, arith, contains, All, All-imp}
use modelguard.Base.Dict
use modelguard.Base.Dict.{Dict}
use modelguard.Base.Result.{ok, ran_through}
use modelguard.Signing.TrustConfig.{
  TrustedKeyEntry, TrustConfig, entry_eq, conflicts, merge_keys, all_keys, merge_trust_configs,
  unique_key_ids, make_trust_config,
}
use modelguard.Signing.TrustConfig.Trusted.{entry_for}

-- Every entry stands under its own fingerprint, and no fingerprint twice.
abbrev Keyed : Dict String TrustedKeyEntry → Type 0
Keyed [] = Unit
Keyed ((k, v) ∷ d) =
    (v.key_id ≡ k) × All (λ (p : String × TrustedKeyEntry). (p.0 == k) ≡ false) d × Keyed d

-- No entry stands under `k`.
abbrev Fresh : String → Dict String TrustedKeyEntry → Type 0
Fresh k = All (λ (p : String × TrustedKeyEntry). (p.0 == k) ≡ false)

set-Fresh :
    (d : Dict String TrustedKeyEntry) (k j : String) (v : TrustedKeyEntry)
    → (k == j) ≡ false
    → Fresh j d
    → Fresh j (Dict.set d k v)
unfolding Dict.set
set-Fresh [] k j v n f = (n, tt)
set-Fresh ((i, w) ∷ d) k j v n (f, fs) = ground (arith, set-Fresh d k j v n fs)

set-Keyed :
    (d : Dict String TrustedKeyEntry) (v : TrustedKeyEntry)
    → Keyed d
    → Keyed (Dict.set d v.key_id v)
unfolding Dict.set
set-Keyed [] v h = (refl, tt, tt)
set-Keyed ((j, w) ∷ d) v (own, fresh, h) = ground (arith, set-Keyed d v h, set-Fresh d v.key_id j v)

entry_for-values :
    (d : Dict String TrustedKeyEntry) (fp : String)
    → Keyed d
    → entry_for (Dict.values d) fp ≡ Dict.get d fp
unfolding entry_for Dict.get
entry_for-values [] fp h = refl
entry_for-values ((k, v) ∷ d) fp (own, fresh, h) = ground (arith, entry_for-values d fp h)

fresh-seen :
    (d : Dict String TrustedKeyEntry) (k : String) (seen : List String)
    → All (λ p. (p.0 == k) ≡ false) d
    → All (λ p. contains seen p.0 ≡ false) d
    → All (λ p. contains (k ∷ seen) p.0 ≡ false) d
fresh-seen [] k seen f s = tt
fresh-seen ((j, v) ∷ d) k seen (f, fs) (s, ss) = (rw f s, fresh-seen d k seen fs ss)

unique-values :
    (d : Dict String TrustedKeyEntry) (seen : List String)
    → Keyed d
    → All (λ p. contains seen p.0 ≡ false) d
    → unique_key_ids (Dict.values d) seen ≡ true
unfolding unique_key_ids
unique-values [] seen h s = refl
unique-values ((k, v) ∷ d) seen (own, fresh, h) (s, ss) =
    rw (own, s) (unique-values d (k ∷ seen) h (fresh-seen d k seen fresh ss))

merge_keys-Keyed :
    (keys : List TrustedKeyEntry) (d : Dict String TrustedKeyEntry)
    {r : Dict String TrustedKeyEntry}
    → merge_keys d keys ≡ ok r
    → Keyed d
    → Keyed r
unfolding merge_keys
merge_keys-Keyed [] d m h = ground arith
merge_keys-Keyed (key ∷ keys) d m h =
    merge_keys-Keyed keys (Dict.set d key.key_id key) (ground arith) (set-Keyed d key h)

-- The first of two answers that is one.
abbrev or_else : Option TrustedKeyEntry → Option TrustedKeyEntry → Option TrustedKeyEntry
or_else none other = other
or_else (some v) other = some v

get-merge_keys :
    (keys : List TrustedKeyEntry) (d : Dict String TrustedKeyEntry)
    {r : Dict String TrustedKeyEntry} (fp : String)
    → merge_keys d keys ≡ ok r
    → Dict.get r fp ≡ or_else (Dict.get d fp) (entry_for keys fp)
unfolding merge_keys entry_for conflicts
get-merge_keys [] d fp m = ground arith
get-merge_keys (key ∷ keys) d {r} fp m = ground (
  arith,
  get-merge_keys keys (Dict.set d key.key_id key) {r = r} fp,
  Dict.get-set d key.key_id fp key,
)

-- Each key of the sources is in the result as it was given.
merge_keys-keeps :
    (keys : List TrustedKeyEntry) (d : Dict String TrustedKeyEntry)
    {r : Dict String TrustedKeyEntry}
    → merge_keys d keys ≡ ok r
    → All (λ key. Dict.get r key.key_id ≡ some key) keys
unfolding merge_keys conflicts
merge_keys-keeps [] d m = tt
merge_keys-keeps (key ∷ keys) d {r} m = (
  ground (
    arith,
    get-merge_keys keys (Dict.set d key.key_id key) {r = r} key.key_id,
    Dict.get-set d key.key_id key.key_id key,
  ),
  merge_keys-keeps keys (Dict.set d key.key_id key) (ground arith),
)

no_conflict :
    (o : Option TrustedKeyEntry) (key : TrustedKeyEntry)
    → ((v : TrustedKeyEntry) → o ≡ some v → v ≡ key)
    → conflicts o key ≡ false
unfolding conflicts
no_conflict none key h = refl
no_conflict (some v) key h = ground (arith, h v refl)

-- If no two sources disagree with the keys so far or with one another, the merge succeeds.
merge_keys-succeeds :
    (keys : List TrustedKeyEntry) (d : Dict String TrustedKeyEntry)
    (want : String → Option TrustedKeyEntry)
    → ((fp : String) (v : TrustedKeyEntry) → Dict.get d fp ≡ some v → want fp ≡ some v)
    → All (λ key. want key.key_id ≡ some key) keys
    → (r : Dict String TrustedKeyEntry) × (merge_keys d keys ≡ ok r)
unfolding merge_keys conflicts
merge_keys-succeeds [] d want h a = (d, refl)
merge_keys-succeeds (key ∷ keys) d want h (own, rest) =
    let (r, e) =
      merge_keys-succeeds keys (Dict.set d key.key_id key) want
        (λ fp v g. ground (arith, h fp v, Dict.get-set d key.key_id fp key)) rest in
    let clear : conflicts (Dict.get d key.key_id) key ≡ false =
      no_conflict (Dict.get d key.key_id) key (λ v g. ground (arith, h key.key_id v g)) in
    (r, rw clear e)

unique-Keyed :
    (d : Dict String TrustedKeyEntry) → Keyed d → unique_key_ids (Dict.values d) [] ≡ true
unique-Keyed d h = unique-values d [] h (unseen d)
  where
    unseen : (d : Dict String TrustedKeyEntry) → All (λ p. contains [] p.0 ≡ false) d
    unseen [] = tt
    unseen (p ∷ d) = (refl, unseen d)

abbrev config_of : Dict String TrustedKeyEntry → TrustConfig
config_of r = record { version = "1"; keys = Dict.values r }

make_trust_config-Keyed :
    (r : Dict String TrustedKeyEntry)
    → Keyed r
    → make_trust_config (Dict.values r) ≡ ok (config_of r)
unfolding make_trust_config
make_trust_config-Keyed r h = rw (unique-Keyed r h)

-- A merge that returns went through a dictionary of distinct fingerprints.
merged_through :
    (configs : List TrustConfig) (m : TrustConfig)
    → merge_trust_configs configs ≡ ok m
    → (r : Dict String TrustedKeyEntry) × (merge_keys [] (all_keys configs) ≡ ok r)
      × Keyed r
      × (m ≡ config_of r)
unfolding merge_trust_configs
merged_through configs m h =
    let (r, e, f) =
      ran_through (merge_keys [] (all_keys configs)) (λ r. make_trust_config (Dict.values r)) h in
    let keyed : Keyed r = merge_keys-Keyed (all_keys configs) [] e tt in
    (r, e, keyed, cc (make_trust_config-Keyed r keyed, f))

-- A merge that returns has, for each fingerprint, the entry that the first source with that
-- fingerprint gives, every entry of every source is in it as it was given, and no fingerprint
-- stands twice.
pub merge_trust_configs_sound :
    (configs : List TrustConfig) (m : TrustConfig)
    → merge_trust_configs configs ≡ ok m
    → ((fp : String) → entry_for m.keys fp ≡ entry_for (all_keys configs) fp)
      × All (λ key. entry_for m.keys key.key_id ≡ some key) (all_keys configs)
      × (unique_key_ids m.keys [] ≡ true)
unfolding Dict.get
merge_trust_configs_sound configs m h =
    let (r, e, keyed, same) = merged_through configs m h in
    rw same (
      λ fp. entry_for-values r fp keyed ∙ get-merge_keys (all_keys configs) [] fp e,
      All-imp (λ key found. entry_for-values r key.key_id keyed ∙ found) (all_keys configs)
          (merge_keys-keeps (all_keys configs) [] e),
      unique-Keyed r keyed,
    )

-- The merge returns if all sources agree on every fingerprint that they share.
pub merge_trust_configs_complete :
    (configs : List TrustConfig)
    → All (λ key. entry_for (all_keys configs) key.key_id ≡ some key) (all_keys configs)
    → (m : TrustConfig) × (merge_trust_configs configs ≡ ok m)
unfolding merge_trust_configs
merge_trust_configs_complete configs a =
    let (r, e) =
      merge_keys-succeeds (all_keys configs) [] (entry_for (all_keys configs))
        (λ fp v g. unfold Dict.get in cc g) a in
    (config_of r, rw e (make_trust_config-Keyed r (merge_keys-Keyed (all_keys configs) [] e tt)))
