-- ===== src/Authz/Effective.antt =====
-- What `PermissionScopes` computes from a list of permissions, and what the menu shows.
use Prim.Native.Nat.{max}
use mathlib.Core.Path.{subst}
use kub.Base.{
  Option-cases, ℕ, String, Bool, true, false, none, some, List, [], ◌∷◌, any, leb, ◌=ˢ◌,
  if◌then◌else◌, is_none, trim_space, ◌≡◌, refl, ap, ◌∙◌, inl, inr, arith, eq_iff, Bool-cases, not,
  ◌||◌,
}
use kub.Authz.Scopes.{scope_rank}
use kub.Authz.Permissions.{
  Permission, ScopeMap, get_scope?, get_scope, put_scope, permission_scopes_from, fold_scope,
  permission_scopes, permission_scopes_for_role, has_permission, menu_items, menu_of,
  menu_sections_for_scopes, menu_sections_for_role,
}

get_scope?-put_scope :
    (a b s : String) (m : ScopeMap)
    → get_scope? (put_scope a s m) b ≡ (if a =ˢ b then some s else get_scope? m b)
unfolding put_scope
get_scope?-put_scope a b s [] = refl
get_scope?-put_scope a b s ((c, t) ∷ m) =
    ground (arith, eq_iff a b, eq_iff c a, eq_iff c b, get_scope?-put_scope a b s m)

get_scope-put_scope :
    (a b s : String) (m : ScopeMap)
    → get_scope (put_scope a s m) b ≡ (if a =ˢ b then s else get_scope m b)
unfolding get_scope
get_scope-put_scope a b s m = rw (get_scope?-put_scope a b s m, get_scope) (ground arith)

-- The widest rank that the permissions give an action, at least `r`.
abbrev pub widest : String → ℕ → List Permission → ℕ
widest a r [] = r
widest a r (p ∷ ps) = widest a (if p.action =ˢ a then max r (scope_rank p.scope) else r) ps

rank-fold_scope :
    (a : String) (p : Permission) (out : ScopeMap)
    → scope_rank (get_scope (fold_scope out p) a) ≡ (
        if p.action =ˢ a
        then max (scope_rank (get_scope out a)) (scope_rank p.scope)
        else scope_rank (get_scope out a))
unfolding fold_scope
rank-fold_scope a p out =
    elim (Bool-cases (leb (scope_rank (get_scope out p.action)) (scope_rank p.scope))) [
      | inl wider ↦
          rw (wider, get_scope-put_scope p.action a p.scope out)
            (ground (
              arith,
              eq_iff p.action a,
              ap (λ b. scope_rank (get_scope out b)) {x = p.action} {y = a},
            ))
      | inr narrower ↦ rw narrower (ground (arith, eq_iff p.action a))
    ]

rank-permission_scopes_from :
    (a : String) (ps : List Permission) (out : ScopeMap)
    → scope_rank (get_scope (permission_scopes_from out ps) a)
      ≡ widest a (scope_rank (get_scope out a)) ps
unfolding permission_scopes_from
rank-permission_scopes_from a [] out = refl
rank-permission_scopes_from a (p ∷ ps) out =
    rank-permission_scopes_from a ps (fold_scope out p)
    ∙ ap (λ r. widest a r ps) (rank-fold_scope a p out)

-- The scope that `PermissionScopes` gives an action has the widest rank that the list of permissions
-- gives it, 0 if the list does not name the action.
pub rank-permission_scopes :
    (a : String) (ps : List Permission)
    → scope_rank (get_scope (permission_scopes ps) a) ≡ widest a 0 ps
unfolding permission_scopes scope_rank get_scope
rank-permission_scopes a ps = rank-permission_scopes_from a ps []

-- Whether the map has the key.
abbrev has_key : ScopeMap → String → Bool
has_key m a = not (is_none (get_scope? m a))

rank_of_missing :
    (m : ScopeMap) (a : String) → get_scope? m a ≡ none → scope_rank (get_scope m a) ≡ 0
unfolding get_scope scope_rank
rank_of_missing m a h = rw (h, get_scope)

-- Only a key that is there can hold a wider scope.
narrower-has_key :
    (p : Permission) (out : ScopeMap)
    → leb (scope_rank (get_scope out p.action)) (scope_rank p.scope) ≡ false
    → has_key out p.action ≡ true
narrower-has_key p out h = elim (Option-cases (get_scope? out p.action)) [
  | inl missing ↦ absurd (ground (arith, rank_of_missing out p.action missing))
  | inr (s, found) ↦ rw found
]

has_key-fold_scope :
    (a : String) (p : Permission) (out : ScopeMap)
    → has_key (fold_scope out p) a ≡ (has_key out a || p.action =ˢ a)
unfolding fold_scope
has_key-fold_scope a p out =
    elim (Bool-cases (leb (scope_rank (get_scope out p.action)) (scope_rank p.scope))) [
      | inl wider ↦ rw (wider, get_scope?-put_scope p.action a p.scope out) (ground arith)
      | inr narrower ↦ rw narrower (elim (Bool-cases (p.action =ˢ a)) [
        | inl same ↦
            let e = (eq_iff p.action a).0 same in
            let found = narrower-has_key p out narrower in
            ground (arith, subst (λ b. has_key out b ≡ true) e found)
        | inr other ↦ ground arith
      ])
    ]

has_key-permission_scopes_from :
    (a : String) (ps : List Permission) (out : ScopeMap)
    → has_key (permission_scopes_from out ps) a ≡ (has_key out a || any (λ p. p.action =ˢ a) ps)
unfolding permission_scopes_from
has_key-permission_scopes_from a [] out = ground arith
has_key-permission_scopes_from a (p ∷ ps) out =
    ground
      (arith, has_key-permission_scopes_from a ps (fold_scope out p), has_key-fold_scope a p out)

has_key-permission_scopes :
    (a : String) (ps : List Permission)
    → has_key (permission_scopes ps) a ≡ any (λ p. p.action =ˢ a) ps
unfolding permission_scopes
has_key-permission_scopes a ps = has_key-permission_scopes_from a ps []

-- The sections whose action a test accepts, in the order of the menu.
abbrev pub sections : (String → Bool) → List (String × String) → List String
sections shown [] = []
sections shown ((action, key) ∷ items) =
    let rest = sections shown items in if shown action then key ∷ rest else rest

menu_of-sections :
    (m : ScopeMap) (items : List (String × String)) → menu_of items m ≡ sections (has_key m) items
menu_of-sections m [] = refl
menu_of-sections m ((action, key) ∷ items) = ground (arith, menu_of-sections m items)

-- The menu of a role holds the sections whose action the role is permitted, and no other.
pub menu-sections :
    (code : String) → menu_sections_for_role code ≡ sections (has_permission code) menu_items
unfolding menu_sections_for_role menu_sections_for_scopes permission_scopes_for_role has_permission
    trim_space
menu-sections code =
    menu_of-sections (permission_scopes_for_role code) menu_items ∙ simp has_key-permission_scopes
