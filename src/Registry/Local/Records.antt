-- ===== src/Registry/Local/Records.antt =====
-- Registrations in the local registry: what `register` keeps of the registry before it, and the
-- invariant that ties the digest index to the records.
use mathlib.Core.Path.{subst}
use modelguard.Base.{◌↔◌, String, ◌≡◌, refl, sym, ap, true, false, not, none, some, TextMethods}
use modelguard.Base.{
  ◌==◌, string_eq, if◌then◌else◌, arith, inl, inr, ◌⊎◌, ◌||◌, Bool-cases, Option-cases,
}
use modelguard.Base.Dict
use modelguard.Base.Dict.{get-set}
use modelguard.Base.Result.{ok, ◌>>◌, require, bind_elim, ok-injective}
use modelguard.Exceptions.{duplicate_registration}
use modelguard.Registry.Identifiers.{validate_identifier, IsSafe, validate_identifier_iff}
use modelguard.Registry.Models.{RegistryRecord}
use modelguard.Registry.Local.{
  LocalRegistry, Key, key_eq, index_first, version_path, register, get, get_by_digest,
}

abbrev pub key_of : RegistryRecord → Key
key_of r = (r.model_id, r.version)

-- The registry behind a registration.
unfoldable pub stored : LocalRegistry → RegistryRecord → LocalRegistry
stored registry r = record registry {
  records = Dict.set registry.records (key_of r) r;
  digest_index = index_first registry.digest_index r.artifact_digest (key_of r);
}

-- Every record lies under its own name and its digest is indexed; every index entry leads to a record
-- with that digest.
pub record IsValid (registry : LocalRegistry) : Type 0 where
  pub named : (k : Key) (r : RegistryRecord) → Dict.get registry.records k ≡ some r → k ≡ key_of r
  pub found :
      (k : Key) (r : RegistryRecord)
      → Dict.get registry.records k ≡ some r
      → Dict.has registry.digest_index r.artifact_digest ≡ true
  pub indexed :
      (digest : String) (k : Key)
      → Dict.get registry.digest_index digest ≡ some k
      → (r : RegistryRecord) × (Dict.get registry.records k ≡ some r) × (r.artifact_digest ≡ digest)

get-index_first :
    (index : Dict.Dict String Key) (digest other : String) (k : Key)
    → Dict.get (index_first index digest k) other ≡ (
        if Dict.has index digest
        then Dict.get index other
        else if other == digest
        then some k
        else Dict.get index other)
unfolding index_first
get-index_first index digest other k = ground (arith, get-set index digest other k)

has-false :
    (d : Dict.Dict Key RegistryRecord) (k : Key) → Dict.has d k ≡ false → Dict.get d k ≡ none
unfolding Dict.has
has-false d k h = ground (arith, h)

none-has : (d : Dict.Dict Key RegistryRecord) (k : Key) → Dict.get d k ≡ none → Dict.has d k ≡ false
unfolding Dict.has
none-has d k h = ground (arith, h)

version_path-ok :
    (py : TextMethods) (m v : String) (key : Key)
    → version_path py m v ≡ ok key
    → IsSafe py m × IsSafe py v × (key ≡ (m, v))
unfolding version_path
version_path-ok py m v key h = bind_elim (validate_identifier py m "identifier") _ h λ a at_a h1.
    bind_elim (validate_identifier py v "identifier") _ h1 λ b at_b h2.
      let (safe_m, same_m) = (validate_identifier_iff py m "identifier" a).0 at_a in
      let (safe_v, same_v) = (validate_identifier_iff py v "identifier" b).0 at_b in
      (safe_m, safe_v, cc (ok-injective h2, same_m, same_v))

pub version_path-safe :
    (py : TextMethods) (m v : String) → IsSafe py m → IsSafe py v → version_path py m v ≡ ok (m, v)
unfolding version_path
version_path-safe py m v safe_m safe_v =
    rw
      (
        (validate_identifier_iff py m "identifier" m).1 (safe_m, refl),
        (validate_identifier_iff py v "identifier" v).1 (safe_v, refl),
      )
      refl

-- Lemmas and theorems on one registration.
module _ (py : TextMethods) (registry : LocalRegistry) (r : RegistryRecord) where
  -- The step of `register` behind its path check.
  kept_apart :
      {x : RegistryRecord × LocalRegistry}
      → (require
            (not (Dict.has registry.records (key_of r)))
            (duplicate_registration r.model_id r.version)
          >> ok (r, stored registry r))
        ≡ ok x
      → (Dict.get registry.records (key_of r) ≡ none) × (x ≡ (r, stored registry r))
  kept_apart h = elim (Bool-cases (Dict.has registry.records (key_of r))) [
    | inl taken ↦ absurd (let e = rw taken at h in cc)
    | inr free ↦ (has-false registry.records (key_of r) free, sym (ok-injective (rw free at h)))
  ]

  pub registered :
      (x : RegistryRecord × LocalRegistry)
      → register py registry r ≡ ok x
      → IsSafe py r.model_id
        × IsSafe py r.version
        × (Dict.get registry.records (key_of r) ≡ none)
        × (x ≡ (r, stored registry r))
  unfolding register stored
  registered x h = bind_elim (version_path py r.model_id r.version) _ h λ key at_key h1.
      let (safe_m, safe_v, same) = version_path-ok py r.model_id r.version key at_key in
      let (free, at_x) = kept_apart (rw same at h1) in (safe_m, safe_v, free, at_x)

  -- `register` returns exactly when both identifiers are safe and no record lies under the name yet;
  -- a second registration of a name is refused, whatever it holds.
  pub register_iff :
      ((x : RegistryRecord × LocalRegistry) × (register py registry r ≡ ok x))
      ↔ (IsSafe py r.model_id × IsSafe py r.version × (Dict.get registry.records (key_of r) ≡ none))
  unfolding register
  register_iff = (
    λ (x, h). let (safe_m, safe_v, free, _) = registered x h in (safe_m, safe_v, free),
    λ (safe_m, safe_v, free).
        rw
          (
            version_path-safe py r.model_id r.version safe_m safe_v,
            none-has registry.records (key_of r) free,
          )
          (_, refl),
  )

  get-stored :
      (k : Key)
      → Dict.get (stored registry r).records k
        ≡ (if k == key_of r then some r else Dict.get registry.records k)
  unfolding stored
  get-stored k = get-set registry.records (key_of r) k r

  get-taken :
      (k : Key) (old : RegistryRecord)
      → Dict.get registry.records (key_of r) ≡ none
      → Dict.get registry.records k ≡ some old
      → Dict.get (stored registry r).records k ≡ some old
  get-taken k old free here = ground (arith, get-stored k, free, here)

  get-digest_index :
      (digest : String)
      → Dict.get (stored registry r).digest_index digest ≡ (
          if Dict.has registry.digest_index r.artifact_digest
          then Dict.get registry.digest_index digest
          else if digest == r.artifact_digest
          then some (key_of r)
          else Dict.get registry.digest_index digest)
  unfolding stored
  get-digest_index digest =
      get-index_first registry.digest_index r.artifact_digest digest (key_of r)

  has-digest_index :
      (digest : String)
      → Dict.has (stored registry r).digest_index digest
        ≡ (Dict.has registry.digest_index digest || digest == r.artifact_digest)
  unfolding Dict.has
  has-digest_index digest = ground (arith, get-digest_index digest)

  -- An index entry of the new registry was there before, or is the one that leads to `r`.
  index-cases :
      (digest : String) (k : Key)
      → Dict.get (stored registry r).digest_index digest ≡ some k
      → (Dict.get registry.digest_index digest ≡ some k)
        ⊎ ((digest ≡ r.artifact_digest) × (k ≡ key_of r))
  index-cases digest k h = ground (arith, get-digest_index digest, h)

  IsValid-stored :
      Dict.get registry.records (key_of r) ≡ none → IsValid registry → IsValid (stored registry r)
  IsValid-stored free v = record {
    named = λ k q h. ground (arith, get-stored k, h, v.named k q);
    found =
        λ k q h. ground (arith, get-stored k, h, v.found k q, has-digest_index q.artifact_digest);
    indexed = λ digest k h. elim (index-cases digest k h) [
      | inl before ↦
          let (q, here, same) = v.indexed digest k before in (q, get-taken k q free here, same)
      | inr (same, at_k) ↦ (r, ground (arith, get-stored k, at_k), sym same)
    ];
  }

  module _ (x : RegistryRecord × LocalRegistry) (h : register py registry r ≡ ok x) where
    after_is : x.1 ≡ stored registry r
    after_is = ap (λ (y : RegistryRecord × LocalRegistry). y.1) (registered x h).3

    -- `register` keeps the invariant: records lie under their own names, every recorded digest is
    -- indexed, and every index entry leads to a record with that digest.
    pub register-IsValid : IsValid registry → IsValid x.1
    register-IsValid v = subst IsValid (sym after_is) (IsValid-stored (registered x h).2 v)

    -- After a registration its name resolves to its record, and every other name as before.
    pub register-get :
        (m v : String)
        → IsSafe py m
        → IsSafe py v
        → get py x.1 m v ≡ (if (m, v) == key_of r then ok (some r) else get py registry m v)
    unfolding get
    register-get m v safe_m safe_v =
        rw (after_is, version_path-safe py m v safe_m safe_v) (ground (arith, get-stored (m, v)))

    digest_index-kept :
        (digest : String) (k : Key)
        → Dict.get registry.digest_index digest ≡ some k
        → Dict.get (stored registry r).digest_index digest ≡ some k
    unfolding Dict.has
    digest_index-kept digest k before = ground (arith, get-digest_index digest, before)

    get-kept :
        (m v : String) (q : RegistryRecord)
        → get py registry m v ≡ ok (some q)
        → get py x.1 m v ≡ ok (some q)
    unfolding get
    get-kept m v q before = bind_elim (version_path py m v) _ before λ key at_key there.
        let (_, _, same) = version_path-ok py m v key at_key in
        let free : Dict.get registry.records (key_of r) ≡ none = (registered x h).2 in
        rw (after_is, at_key) (ap ok (get-taken key q free (ok-injective there)))

    -- A digest that resolves to a record resolves to the same record after any further registration:
    -- the first registration wins.
    pub register-get_by_digest :
        (digest : String) (q : RegistryRecord)
        → get_by_digest py registry digest ≡ ok (some q)
        → get_by_digest py x.1 digest ≡ ok (some q)
    unfolding get_by_digest
    register-get_by_digest digest q before =
        elim (Option-cases (Dict.get registry.digest_index digest)) [
          | inl absent ↦ absurd (let e = rw (absent, get_by_digest) at before in cc)
          | inr (k, there) ↦
              rw (after_is, get_by_digest, digest_index-kept digest k there)
                (get-kept k.0 k.1 q (rw (there, get_by_digest) at before))
        ]
