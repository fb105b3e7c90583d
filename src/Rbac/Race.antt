-- ===== src/Rbac/Race.antt =====
-- internal/rbac/resolve.go: a write of the tables between the reading and the storing of `Resolve`.
use idpforge.Base.{
  ℕ, ◌+◌, ◌≤◌, ◌≡◌, ap, sym, Option-cases, inl, inr, ◌∙◌, ◌&&◌, none, some, arith, if◌then◌else◌,
  ltb, Str, str_eq_refl, true, false, refl,
}
use idpforge.Permission.{Resolved, has}
use idpforge.Rbac.{resolve_from_db}
use idpforge.Rbac.Admin.{Store, resolve, has_permission, remember, cache_key, default_ttl}
use idpforge.Rbac.Coherence.{
  Coherent, cached, read-set, resolve_hit, set-Coherent, resolve-Coherent,
}
use idpforge.Rbac.History.{
  Op, create_role, create_permission, delete_role, grant_permission_to_role,
  revoke_permission_from_role, assign_role_to_user, remove_role_from_user, assign_role_to_group,
  remove_role_from_group, create_group, add_user_to_group, remove_user_from_group, delete_user,
  resolves, step, MakesFresh, step-Coherent,
}
use idpforge.Cache.{Cache}
use idpforge.Rbac.Admin

-- What is stored after a write is returned, until the time to live has passed.
stored_stays :
    (s : Store) (op : Op) (now t : ℕ) (u : Str)
    → t ≤ now + default_ttl
    → (resolve t u (remember now u (resolve_from_db s.db u) (step op s))).1 ≡ resolve_from_db s.db u
stored_stays s op now t u h =
    ap (λ (q : Store × Resolved). q.1)
      (resolve_hit (remember now u (resolve_from_db s.db u) (step op s)) t u
        (resolve_from_db s.db u) hit)
  where
    live :
        (if ltb 0 default_ttl && ltb (now + default_ttl) t
          then none
          else some (resolve_from_db s.db u))
        ≡ some (resolve_from_db s.db u)
    live = ground arith

    hit :
        cached t u (remember now u (resolve_from_db s.db u) (step op s)).cache
        ≡ some (resolve_from_db s.db u)
    hit =
        read-set now t u u (resolve_from_db s.db u) default_ttl (step op s).cache
        ∙ ap
            (λ b.
              if b
              then (if ltb 0 default_ttl && ltb (now + default_ttl) t
                  then none
                  else some (resolve_from_db s.db u))
              else cached t u (step op s).cache)
            (str_eq_refl (cache_key u))
        ∙ live

resolve_db : (now : ℕ) (u : Str) (s : Store) → (resolve now u s).0.db ≡ s.db
unfolding resolve
resolve_db now u s = elim (Option-cases (cached now u s.cache)) [
  | inl e ↦ rw (resolve, e) refl
  | inr (r, e) ↦ rw (resolve, e) refl
]

-- What a write makes of the tables does not depend on the cache.
step_db : (op : Op) (s : Store) (c : Cache) → (step op (record s { cache = c })).db ≡ (step op s).db
unfolding step Admin.create_role Admin.create_permission Admin.delete_role
    Admin.grant_permission_to_role Admin.revoke_permission_from_role Admin.assign_role_to_user
    Admin.remove_role_from_user Admin.assign_role_to_group Admin.remove_role_from_group
    Admin.create_group Admin.add_user_to_group Admin.remove_user_from_group Admin.delete_user
step_db (create_role id name description) s c = ground arith
step_db (create_permission id resource action) s c = ground arith
step_db (delete_role id) s c = refl
step_db (grant_permission_to_role r p) s c = ground arith
step_db (revoke_permission_from_role r p) s c = refl
step_db (assign_role_to_user u r) s c = ground arith
step_db (remove_role_from_user u r) s c = refl
step_db (assign_role_to_group g r) s c = ground arith
step_db (remove_role_from_group g r) s c = refl
step_db (create_group id name parent) s c = ground arith
step_db (add_user_to_group u g) s c = ground arith
step_db (remove_user_from_group u g) s c = refl
step_db (delete_user u) s c = ground arith
step_db (resolves now u) s c = resolve_db now u (record s { cache = c }) ∙ sym (resolve_db now u s)

-- A write takes a permission from a user. When it comes after a resolution has been stored, its
-- invalidation reaches it, and the user has lost the permission at once. When it comes between the
-- reading and the storing of `Resolve`, the user keeps the permission until the time to live has
-- passed, though the tables no longer allow it. The cached resolutions are those of the tables at
-- first, and an ID that the write makes is new.
pub late_store_keeps_permission :
    (s : Store) (op : Op) (now t : ℕ) (u resource action : Str)
    → t ≤ now + default_ttl
    → Coherent s
    → MakesFresh op s.db
    → has (resolve_from_db s.db u) resource action ≡ true
    → has (resolve_from_db (step op s).db u) resource action ≡ false
    → let read = resolve_from_db s.db u in
      ((has_permission t u resource action (step op (remember now u read s))).1 ≡ false)
      × ((has_permission t u resource action (remember now u read (step op s))).1 ≡ true)
unfolding has_permission
late_store_keeps_permission s op now t u resource action h c f before after =
    let stored = remember now u (resolve_from_db s.db u) s in
    let current = step-Coherent op stored f (set-Coherent s now u default_ttl c) in
    (
      ap (λ (r : Resolved). has r resource action)
            ((resolve-Coherent (step op stored) t u current).0)
          ∙ ap (λ (r : Resolved). has r resource action)
              (ap (λ d. resolve_from_db d u) (step_db op s stored.cache))
          ∙ after,
      ap (λ (r : Resolved). has r resource action) (stored_stays s op now t u h) ∙ before,
    )
