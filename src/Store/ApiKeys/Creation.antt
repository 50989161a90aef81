-- ===== src/Store/ApiKeys/Creation.antt =====
-- internal/store/keys.go: a key that is created is found again, with the grants it was given.
use gotifacts.Prelude.{
  ℕ, ◌+◌, ◌<◌, ◌≡◌, ◌≢◌, refl, ap, ◌∙◌, Bool, true, false, List, [], ◌∷◌, ◌++◌, map, arith, Option,
  none, some, if◌then◌else◌, Bool-cases, inl, inr, All, ok, any, ◌==◌,
}
use gotifacts.Text.{Text, text_eq}
use gotifacts.Text.Equality.{text_eq_refl}
use gotifacts.Keys.{IsCapability}
use gotifacts.Keys.Lists.{IsDistinct, parse_capabilities-join_capabilities}
use gotifacts.Auth.{Grant, grant_group, parse_grant_kind}
use gotifacts.Store.ApiKeys.{
  KeyRow, GrantRow, KeyTables, ApiKey, read_grant, load_grants, find_key, with_grants, key_result,
  get_key, find_key_by_hash, grant_row, create_key,
}

-- A grant that the registry keeps as it is.
pub record IsStorable (g : Grant) : Type 0 where
  pub kind : parse_grant_kind g.kind ≡ g.kind
  pub some_permission : g.permissions ≢ []
  pub recognized : All IsCapability g.permissions
  pub distinct : IsDistinct g.permissions

-- The ids in use are below the next one.
pub record IsSound (t : KeyTables) : Type 0 where
  pub keys : All (λ k. k.id < t.next_id) t.keys
  pub grants : All (λ g. g.key_id < t.next_id) t.grants

kind_kept :
    (k : Text)
    → parse_grant_kind k ≡ k
    → parse_grant_kind (if text_eq k [] then grant_group else k) ≡ k
unfolding text_eq parse_grant_kind
kind_kept [] h = absurd (cc)
kind_kept (c ∷ k) h = h

read_grant-grant_row : (id : ℕ) (g : Grant) → IsStorable g → read_grant (grant_row id g) ≡ g
unfolding read_grant grant_row
read_grant-grant_row id g h =
    rw
      (
        kind_kept g.kind h.kind,
        parse_capabilities-join_capabilities g.permissions h.some_permission h.recognized
            h.distinct,
      )
      refl

load_grants-append :
    (gs hs : List GrantRow) (id : ℕ)
    → load_grants (gs ++ hs) id ≡ load_grants gs id ++ load_grants hs id
unfolding load_grants
load_grants-append [] hs id = refl
load_grants-append (g ∷ gs) hs id = elim (Bool-cases (g.key_id == id)) [
  | inl e ↦ rw e (ap (λ l. read_grant g ∷ l) (load_grants-append gs hs id))
  | inr e ↦ rw e (load_grants-append gs hs id)
]

load_grants-fresh :
    (gs : List GrantRow) (id : ℕ) → All (λ g. g.key_id < id) gs → load_grants gs id ≡ []
unfolding load_grants
load_grants-fresh [] id h = refl
load_grants-fresh (g ∷ gs) id (l, h) =
    let other : (g.key_id == id) ≡ false = ground arith in rw other (load_grants-fresh gs id h)

load_grants-map :
    (id : ℕ) (gs : List Grant) → All IsStorable gs → load_grants (map (grant_row id) gs) id ≡ gs
unfolding load_grants
load_grants-map id [] h = refl
load_grants-map id (g ∷ gs) (s, h) =
    let own : ((grant_row id g).key_id == id) ≡ true = unfold grant_row in ground arith in
    rw (own, read_grant-grant_row id g s, load_grants-map id gs h) refl

find_key-append :
    (p : KeyRow → Bool) (ks : List KeyRow) (k : KeyRow)
    → any p ks ≡ false
    → p k ≡ true
    → find_key p (ks ++ k ∷ []) ≡ some k
unfolding find_key
find_key-append p [] k h e = rw e refl
find_key-append p (x ∷ ks) k h e = elim (Bool-cases (p x)) [
  | inl b ↦ absurd (ground arith)
  | inr b ↦ rw b (find_key-append p ks k (rw b at h) e)
]

any-fresh : (ks : List KeyRow) (id : ℕ) → All (λ k. k.id < id) ks → any (λ k. k.id == id) ks ≡ false
any-fresh [] id h = refl
any-fresh (k ∷ ks) id (l, h) =
    let other : (k.id == id) ≡ false = ground arith in rw other (any-fresh ks id h)

loaded_grants :
    (t : KeyTables) (admin : Bool) (grants : List Grant)
    → IsSound t
    → All IsStorable grants
    → load_grants (t.grants ++ (if admin then [] else map (grant_row t.next_id) grants)) t.next_id
      ≡ (if admin then [] else grants)
loaded_grants t true grants s g =
    load_grants-append t.grants [] t.next_id
    ∙ rw (load_grants-fresh t.grants t.next_id s.grants) (unfold load_grants in refl)
loaded_grants t false grants s g =
    load_grants-append t.grants (map (grant_row t.next_id) grants) t.next_id
    ∙ rw (load_grants-fresh t.grants t.next_id s.grants) (load_grants-map t.next_id grants g)

-- The key that CreateKey is to make.
abbrev pub created : KeyTables → Text → Bool → List Grant → Option ℕ → ℕ → ApiKey
created t name admin grants expires_at ts = record {
  id = t.next_id;
  name = name;
  admin = admin;
  grants = if admin then [] else grants;
  created_at = ts;
  last_used_at = none;
  expires_at = expires_at;
}

-- A key whose hash is new, with grants that the registry keeps as they are, is returned by
-- CreateKey and found by its hash afterwards as it was given; an administrator's has no grants.
pub find_key_by_hash-create_key :
    (t : KeyTables) (name : Text) (admin : Bool) (grants : List Grant) (expires_at : Option ℕ)
    (hash : Text) (ts : ℕ)
    → IsSound t
    → All IsStorable grants
    → any (λ k. text_eq k.key_hash hash) t.keys ≡ false
    → ((create_key t name admin grants expires_at hash ts).1
        ≡ ok (created t name admin grants expires_at ts))
      × (find_key_by_hash (create_key t name admin grants expires_at hash ts).0 hash
          ≡ ok (created t name admin grants expires_at ts))
unfolding create_key get_key find_key_by_hash key_result with_grants
find_key_by_hash-create_key t name admin grants expires_at hash ts s g h =
    rw h (rw (by_id) (ap ok loaded), rw (by_hash) (ap ok loaded))
  where
    row : KeyRow
    row = record {
      id = t.next_id;
      name = name;
      key_hash = hash;
      admin = admin;
      created_at = ts;
      last_used_at = none;
      expires_at = expires_at;
    }

    after : KeyTables
    after = record {
      keys = t.keys ++ row ∷ [];
      grants = t.grants ++ (if admin then [] else map (grant_row t.next_id) grants);
      next_id = t.next_id + 1;
    }

    by_id : find_key (λ k. k.id == t.next_id) (t.keys ++ row ∷ []) ≡ some row
    by_id =
        find_key-append (λ k. k.id == t.next_id) t.keys row (any-fresh t.keys t.next_id s.keys)
          (ground arith)

    by_hash : find_key (λ k. text_eq k.key_hash hash) (t.keys ++ row ∷ []) ≡ some row
    by_hash = find_key-append (λ k. text_eq k.key_hash hash) t.keys row h (text_eq_refl hash)

    loaded : with_grants after row ≡ created t name admin grants expires_at ts
    loaded = rw (loaded_grants t admin grants s g) refl
