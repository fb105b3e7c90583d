-- ===== src/Rbac/History.antt =====
-- internal/rbac: histories of administrative writes and resolutions, one after the other.
use idpforge.Base.{
  ℕ, ◌≡◌, ◌≢◌, ◌↔◌, Bool, true, false, Option, none, some, List, [], ◌∷◌, if◌then◌else◌, Str,
}
use idpforge.Cache.{empty, get}
use idpforge.Rbac.{Db, resolve_from_db}
use idpforge.Rbac.Admin
use idpforge.Rbac.Admin.{
  Store, resolve, has_permission, invalidate, invalidate_all, cache_key, default_ttl,
}
use idpforge.Rbac.Coherence.{
  Coherent, invalidate_all-Coherent, invalidate-Coherent, unchanged-Coherent, resolve-Coherent,
}
use idpforge.Rbac.Unaffected.{
  IsFresh, insert_user_role, delete_user_role, insert_user_group, delete_user_group, insert_role,
  insert_permission, resolve-drop_user,
}
use idpforge.Rbac.NewGroup.{insert_group}
use idpforge.Rbac.Resolution.{WithinDepth, Allowed, resolve_iff}

pub data Op : Type 0 where
  create_role create_permission : Str → Str → Str → Op
  delete_role : Str → Op
  grant_permission_to_role revoke_permission_from_role : Str → Str → Op
  assign_role_to_user remove_role_from_user : Str → Str → Op
  assign_role_to_group remove_role_from_group : Str → Str → Op
  create_group : Str → Str → Option Str → Op
  add_user_to_group remove_user_from_group : Str → Str → Op
  delete_user : Str → Op
  resolves : ℕ → Str → Op

abbrev pub attempt : Op → Store → Option Store
attempt (create_role id name description) s = Admin.create_role id name description s
attempt (create_permission id resource action) s = Admin.create_permission id resource action s
attempt (delete_role id) s = Admin.delete_role id s
attempt (grant_permission_to_role r p) s = Admin.grant_permission_to_role r p s
attempt (revoke_permission_from_role r p) s = Admin.revoke_permission_from_role r p s
attempt (assign_role_to_user u r) s = Admin.assign_role_to_user u r s
attempt (remove_role_from_user u r) s = Admin.remove_role_from_user u r s
attempt (assign_role_to_group g r) s = Admin.assign_role_to_group g r s
attempt (remove_role_from_group g r) s = Admin.remove_role_from_group g r s
attempt (create_group id name parent) s = Admin.create_group id name parent s
attempt (add_user_to_group u g) s = Admin.add_user_to_group u g s
attempt (remove_user_from_group u g) s = Admin.remove_user_from_group u g s
attempt (delete_user u) s = Admin.delete_user u s
attempt (resolves now u) s = some (resolve now u s).0

abbrev pub or_same : Store → Option Store → Store
or_same s none = s
or_same s (some t) = t

-- A write that fails changes nothing.
unfoldable pub step : Op → Store → Store
step op s = or_same s (attempt op s)

unfoldable pub run : List Op → Store → Store
run [] s = s
run (op ∷ ops) s = run ops (step op s)

-- The IDs that the writes make are new, as those of `uuid.NewString`.
abbrev pub MakesFresh : Op → Db → Type 0
MakesFresh (create_role id name description) db = IsFresh id db
MakesFresh (create_permission id resource action) db = IsFresh id db
MakesFresh (create_group id name parent) db = IsFresh id db × (id ≢ [])
MakesFresh _ db = Unit

abbrev pub AllFresh : List Op → Store → Type 0
AllFresh [] s = Unit
AllFresh (op ∷ ops) s = MakesFresh op s.db × AllFresh ops (step op s)

-- A property of the store that a write leaves, or of the store that it makes.
or_same_cases {ℓ} :
    (P : Store → Type ℓ) (s : Store) (b : Bool) (t : Store)
    → P s
    → P t
    → P (or_same s (if b then none else some t))
or_same_cases P s true t h k = h
or_same_cases P s false t h k = k

pub step-Coherent : (op : Op) (s : Store) → MakesFresh op s.db → Coherent s → Coherent (step op s)
unfolding step Admin.create_role Admin.create_permission Admin.delete_role
    Admin.grant_permission_to_role Admin.revoke_permission_from_role Admin.assign_role_to_user
    Admin.remove_role_from_user Admin.assign_role_to_group Admin.remove_role_from_group
    Admin.create_group Admin.add_user_to_group Admin.remove_user_from_group Admin.delete_user
step-Coherent (create_role id name description) s f c =
    or_same_cases Coherent s _ _ c (unchanged-Coherent s _ (λ u. insert_role s.db u _ f) c)
step-Coherent (create_permission id resource action) s f c =
    or_same_cases Coherent s _ _ c (unchanged-Coherent s _ (λ u. insert_permission s.db u _ f) c)
step-Coherent (delete_role id) s f c = invalidate_all-Coherent _ s.cache
step-Coherent (grant_permission_to_role r p) s f c =
    or_same_cases Coherent s _ _ c (invalidate_all-Coherent _ s.cache)
step-Coherent (revoke_permission_from_role r p) s f c = invalidate_all-Coherent _ s.cache
step-Coherent (assign_role_to_user u r) s f c =
    or_same_cases Coherent s _ _ c
      (invalidate-Coherent s u _ (λ v h. insert_user_role s.db v u r h) c)
step-Coherent (remove_role_from_user u r) s f c =
    invalidate-Coherent s u _ (λ v h. delete_user_role s.db v u r h) c
step-Coherent (assign_role_to_group g r) s f c =
    or_same_cases Coherent s _ _ c (invalidate_all-Coherent _ s.cache)
step-Coherent (remove_role_from_group g r) s f c = invalidate_all-Coherent _ s.cache
step-Coherent (create_group id name parent) s (f, some_id) c =
    or_same_cases Coherent s _ _ c (unchanged-Coherent s _ (λ u. insert_group s.db u _ f some_id) c)
step-Coherent (add_user_to_group u g) s f c =
    or_same_cases Coherent s _ _ c
      (invalidate-Coherent s u _ (λ v h. insert_user_group s.db v u g h) c)
step-Coherent (remove_user_from_group u g) s f c =
    invalidate-Coherent s u _ (λ v h. delete_user_group s.db v u g h) c
step-Coherent (delete_user u) s f c =
    or_same_cases Coherent s _ _ c
      (invalidate-Coherent s u _ (λ v h. resolve-drop_user s.db v u h) c)
step-Coherent (resolves now u) s f c = (resolve-Coherent s now u c).1

run-Coherent : (ops : List Op) (s : Store) → AllFresh ops s → Coherent s → Coherent (run ops s)
unfolding run
run-Coherent [] s f c = c
run-Coherent (op ∷ ops) s (f, fs) c = run-Coherent ops (step op s) fs (step-Coherent op s f c)

pub empty-Coherent : (db : Db) → Coherent (record { db = db; cache = empty })
unfolding get
empty-Coherent db now u r h = cc

-- Changes take effect at once: after any history of writes and resolutions on a cache that was
-- empty, where the IDs that the writes make are new, `Resolve` returns what the tables give then.
pub resolve-run :
    (db : Db) (ops : List Op) (now : ℕ) (u : Str)
    → AllFresh ops (record { db = db; cache = empty })
    → let s = run ops (record { db = db; cache = empty }) in
      (resolve now u s).1 ≡ resolve_from_db s.db u
resolve-run db ops now u f = (resolve-Coherent _ now u (run-Coherent ops _ f (empty-Coherent db))).0

-- After such a history, `HasPermission` is the answer of the tables, where the links above the
-- user's groups end within the depth guard.
pub has_permission-run_iff :
    (db : Db) (ops : List Op) (now : ℕ) (u resource action : Str)
    → AllFresh ops (record { db = db; cache = empty })
    → WithinDepth (run ops (record { db = db; cache = empty })).db u
    → ((has_permission now u resource action (run ops (record { db = db; cache = empty }))).1
        ≡ true)
      ↔ Allowed (run ops (record { db = db; cache = empty })).db u resource action
unfolding has_permission
has_permission-run_iff db ops now u resource action f t =
    rw (resolve-run db ops now u f)
      (resolve_iff (run ops (record { db = db; cache = empty })).db u resource action t)
