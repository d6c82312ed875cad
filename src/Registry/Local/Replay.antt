-- ===== src/Registry/Local/Replay.antt =====
-- The loop of `is_revoked` in src/modelguard/registry/local.py over the entries that `revoke` and
-- `unrevoke` write.
use modelguard.Base.{
  String, ◌≡◌, ◌≢◌, refl, ◌∙◌, All, Bool, ◌&&◌, Option, none, some, List, [], ◌∷◌, ◌++◌,
}
use modelguard.Base.{◌==◌, string_eq, if◌then◌else◌, arith}
use modelguard.Base.Json.{Json, text}
use modelguard.Base.Result.{Result, ok, err, ◌>>=◌}
use modelguard.Exceptions.{Exception}
use modelguard.Audit.Chain.{ChainEntry}
use modelguard.Registry.Models.{RevocationRecord}
use modelguard.JsonRecord.{find_member, get_member, is_text, text_member}
use modelguard.Registry.Local.{
  revoke_json, unrevoke_json, revocation_of, apply_action, replay_entry, replay,
}

replay-append :
    (model_id version : String) (es fs : List ChainEntry) (latest : Option RevocationRecord)
    → replay model_id version (es ++ fs) latest
      ≡ (replay model_id version es latest >>= λ next. replay model_id version fs next)
unfolding replay
replay-append model_id version [] fs latest = refl
replay-append model_id version (e ∷ es) fs latest =
    through (replay_entry model_id version e.entry_record latest)
      (λ next. replay-append model_id version es fs next)
  where
    through :
        (m : Result Exception (Option RevocationRecord))
        → ((next : Option RevocationRecord)
            → replay model_id version (es ++ fs) next
              ≡ (replay model_id version es next >>= λ next. replay model_id version fs next))
        → (m >>= λ next. replay model_id version (es ++ fs) next) ≡ (
            m >>= (λ next. replay model_id version es next) >>= λ next.
            replay model_id version fs next)
    through (ok next) step = step next
    through (err x) step = refl

-- Whether an entry that names `m` and `v` is about the version that is asked for.
abbrev pub same : String → String → String → String → Bool
same model_id version m v = m == model_id && v == version

pub not_empty : (es : List ChainEntry) (e : ChainEntry) → es ++ e ∷ [] ≢ []
not_empty [] e = λ h. cc
not_empty (d ∷ es) e = λ h. cc

replay_entry-same :
    (model_id version m v : String) (j : Json) (latest : Option RevocationRecord)
    → get_member j "model_id" ≡ ok (text m)
    → get_member j "version" ≡ ok (text v)
    → replay_entry model_id version j latest
      ≡ (if same model_id version m v then apply_action j latest else ok latest)
unfolding replay_entry is_text
replay_entry-same model_id version m v j latest named versioned =
    rw (named, versioned) (ground arith)

-- What the entries of `revoke` and `unrevoke` hold.
pub revoke_json-members :
    (r : RevocationRecord)
    → (get_member (revoke_json r) "model_id" ≡ ok (text r.model_id))
      × (get_member (revoke_json r) "version" ≡ ok (text r.version))
      × ((latest : Option RevocationRecord) → apply_action (revoke_json r) latest ≡ ok (some r))
unfolding get_member find_member revoke_json string_eq apply_action is_text revocation_of
    text_member
revoke_json-members r = (refl, refl, λ latest. refl)

pub unrevoke_json-members :
    (m v actor reason : String)
    → (get_member (unrevoke_json m v actor reason) "model_id" ≡ ok (text m))
      × (get_member (unrevoke_json m v actor reason) "version" ≡ ok (text v))
      × ((latest : Option RevocationRecord)
          → apply_action (unrevoke_json m v actor reason) latest ≡ ok none)
unfolding get_member find_member unrevoke_json string_eq apply_action is_text
unrevoke_json-members m v actor reason = (refl, refl, λ latest. refl)

-- The answer after an action on the version `m` and `v`, from the answer before it.
abbrev pub updated :
    String
    → String
    → String
    → String
    → Option RevocationRecord
    → Result Exception (Option RevocationRecord)
    → Result Exception (Option RevocationRecord)
updated model_id version m v action before = do
  latest ← before
  ok (if same model_id version m v then action else latest)

-- A replay over one more entry, whose action is known.
pub replay-entry :
    (model_id version m v : String) (es : List ChainEntry) (e : ChainEntry)
    (action : Option RevocationRecord)
    → get_member e.entry_record "model_id" ≡ ok (text m)
    → get_member e.entry_record "version" ≡ ok (text v)
    → ((latest : Option RevocationRecord) → apply_action e.entry_record latest ≡ ok action)
    → replay model_id version (es ++ e ∷ []) none
      ≡ updated model_id version m v action (replay model_id version es none)
unfolding replay
replay-entry model_id version m' v es e action named versioned acts =
    replay-append model_id version es (e ∷ []) none ∙ last (replay model_id version es none)
  where
    last :
        (m : Result Exception (Option RevocationRecord))
        → (m >>= λ next. replay model_id version (e ∷ []) next)
          ≡ updated model_id version m' v action m
    last (err x) = refl
    last (ok latest) =
        rw
          (
            replay_entry-same model_id version m' v e.entry_record latest named versioned,
            acts latest,
          )
          (ground arith)

-- An entry with a known action on a known version.
pub record Acts (j : Json) (m v : String) (action : Option RevocationRecord) : Type 0 where
  pub named : get_member j "model_id" ≡ ok (text m)
  pub versioned : get_member j "version" ≡ ok (text v)
  pub acts : (latest : Option RevocationRecord) → apply_action j latest ≡ ok action

-- Each entry holds a revocation or its withdrawal, as `revoke` and `unrevoke` write them.
abbrev pub IsAction : ChainEntry → Type 0
IsAction e =
    (m : String) × (v : String) × (action : Option RevocationRecord) × Acts e.entry_record m v
      action

-- The replay of such entries comes to an answer.
pub replay-returns :
    (model_id version : String) (es : List ChainEntry) (latest : Option RevocationRecord)
    → All IsAction es
    → (answer : Option RevocationRecord) × (replay model_id version es latest ≡ ok answer)
unfolding replay
replay-returns model_id version [] latest all_act = (latest, refl)
replay-returns model_id version (e ∷ es) latest ((m, v, action, a), rest) =
    let next = if same model_id version m v then action else latest in
    let (answer, h) = replay-returns model_id version es next rest in
    (
      answer,
      rw
          (
            replay_entry-same model_id version m v e.entry_record latest a.named a.versioned,
            a.acts latest,
            if-ok (same model_id version m v) action latest,
          )
          h,
    )
  where
    if-ok :
        (b : Bool) (x y : Option RevocationRecord)
        → ◌≡◌ {A = Result Exception (Option RevocationRecord)}
            (if b then ok x else ok y)
            (ok (if b then x else y))
    if-ok b x y = ground arith

pub All-append :
    (es : List ChainEntry) (e : ChainEntry)
    → All IsAction es
    → IsAction e
    → All IsAction (es ++ e ∷ [])
All-append [] e all_act a = (a, tt)
All-append (d ∷ es) e (b, all_act) a = (b, All-append es e all_act a)
