-- ===== src/Security/Rbac.antt =====
-- Roles and permissions of a workspace (src/security/rbac.ts).
use rector.Prelude.{
  ℕ, Bool, true, false, ◌&&◌, String, Option, none, some, List, [], ◌∷◌, ◌==◌, if◌then◌else◌, ◌≡◌,
  refl, subst, inl, inr, arith, Bool-cases, any, all,
}

pub data WorkspaceRole : Type 0 where
  owner admin operator developer viewer : WorkspaceRole

pub data Permission : Type 0 where
  workspace_read workspace_update members_manage providers_read providers_configure
        providers_secrets_write models_assign memory_configure templates_apply modules_configure
        runs_create runs_read runs_approve runs_abort operator_read operator_manage audit_read
        billing_manage secrets_rotate truth_mutate :
      Permission

abbrev permissions : List Permission
permissions =
    workspace_read ∷ workspace_update ∷ members_manage ∷ providers_read ∷ providers_configure
    ∷ providers_secrets_write ∷ models_assign ∷ memory_configure ∷ templates_apply
    ∷ modules_configure ∷ runs_create ∷ runs_read ∷ runs_approve ∷ runs_abort ∷ operator_read
    ∷ operator_manage ∷ audit_read ∷ billing_manage ∷ secrets_rotate ∷ truth_mutate ∷ []

-- The place of a permission in the source's list, which tells permissions apart.
abbrev place : Permission → ℕ
place workspace_read = 0
place workspace_update = 1
place members_manage = 2
place providers_read = 3
place providers_configure = 4
place providers_secrets_write = 5
place models_assign = 6
place memory_configure = 7
place templates_apply = 8
place modules_configure = 9
place runs_create = 10
place runs_read = 11
place runs_approve = 12
place runs_abort = 13
place operator_read = 14
place operator_manage = 15
place audit_read = 16
place billing_manage = 17
place secrets_rotate = 18
place truth_mutate = 19

abbrev role_permissions : WorkspaceRole → List Permission
role_permissions owner = permissions
role_permissions admin =
    workspace_read ∷ workspace_update ∷ members_manage ∷ providers_read ∷ providers_configure
    ∷ models_assign ∷ memory_configure ∷ templates_apply ∷ modules_configure ∷ runs_create
    ∷ runs_read ∷ runs_approve ∷ runs_abort ∷ operator_read ∷ operator_manage ∷ audit_read
    ∷ truth_mutate ∷ []
role_permissions operator =
    workspace_read ∷ providers_read ∷ runs_read ∷ runs_approve ∷ runs_abort ∷ operator_read
    ∷ operator_manage ∷ []
role_permissions developer =
    workspace_read ∷ providers_read ∷ templates_apply ∷ runs_create ∷ runs_read ∷ []
role_permissions viewer = workspace_read ∷ providers_read ∷ runs_read ∷ []

-- `ROLE_PERMISSIONS[role].includes(permission)`.
abbrev pub can_role : WorkspaceRole → Permission → Bool
can_role role permission = any (λ p. place p == place permission) (role_permissions role)

pub record AuthorizationSubject : Type 0 where
  pub auth_enabled : Bool
  pub user_id : Option String
  pub workspace_id : Option String
  pub role : Option WorkspaceRole

abbrev can_some_role : Option WorkspaceRole → Permission → Bool
can_some_role none permission = false
can_some_role (some role) permission = can_role role permission

abbrev pub can : AuthorizationSubject → Permission → Bool
can subject permission =
    can_some_role (if subject.auth_enabled then subject.role else some owner) permission

pub data DenialReason : Type 0 where
  no_role_assigned : Permission → DenialReason
  role_lacks : WorkspaceRole → Permission → DenialReason

pub data PermissionResult : Type 0 where
  grant : Permission → WorkspaceRole → Option String → PermissionResult
  denial : Permission → WorkspaceRole → Option String → ℕ → DenialReason → PermissionResult

abbrev role_or : WorkspaceRole → Option WorkspaceRole → WorkspaceRole
role_or default none = default
role_or default (some role) = role

abbrev is_none : Option WorkspaceRole → Bool
is_none none = true
is_none (some role) = false

abbrev pub require_permission : AuthorizationSubject → Permission → PermissionResult
require_permission subject permission =
    let role = if subject.auth_enabled then role_or viewer subject.role else owner in
    if subject.auth_enabled && is_none subject.role
    then denial permission role subject.workspace_id 403 (no_role_assigned permission)
    else if can_role role permission
    then grant permission role subject.workspace_id
    else denial permission role subject.workspace_id 403 (role_lacks role permission)

abbrev pub is_ok : PermissionResult → Bool
is_ok (grant p r w) = true
is_ok (denial p r w s e) = false

-- The central evaluator grants a permission exactly if the predicate `can` holds: where the two are
-- asked of the same subject they agree, whether authentication is on or off and a role assigned or not.
pub require_permission-can :
    (subject : AuthorizationSubject) (permission : Permission)
    → is_ok (require_permission subject permission) ≡ can subject permission
require_permission-can subject permission = ground arith

-- Each role may do what the roles below it may do.
pub data IsBelow : WorkspaceRole → WorkspaceRole → Type 0 where
  viewer_developer : IsBelow viewer developer
  viewer_operator : IsBelow viewer operator
  developer_admin : IsBelow developer admin
  operator_admin : IsBelow operator admin
  admin_owner : IsBelow admin owner
  through : {r s t : WorkspaceRole} → IsBelow r s → IsBelow s t → IsBelow r t

all-any :
    (s : WorkspaceRole) (p : Permission) (ps : List Permission)
    → all (can_role s) ps ≡ true
    → any (λ q. place q == place p) ps ≡ true
    → can_role s p ≡ true
all-any s p [] h i = cc
all-any s p (q ∷ ps) h i = elim (Bool-cases (place q == place p)) [
  | inl same ↦
      let at_place : place q ≡ place p = ground arith in
      let granted : any (λ x. place x == place q) (role_permissions s) ≡ true = ground arith in
      subst (λ n. any (λ x. place x == n) (role_permissions s) ≡ true) at_place granted
  | inr other ↦ all-any s p ps (ground arith) (ground arith)
]

-- A role has every permission of the roles below it: viewer below developer and operator, these below
-- admin, admin below owner.
pub can_role-IsBelow :
    {r s : WorkspaceRole} (p : Permission) → IsBelow r s → can_role r p ≡ true → can_role s p ≡ true
can_role-IsBelow p viewer_developer h = all-any developer p (role_permissions viewer) refl h
can_role-IsBelow p viewer_operator h = all-any operator p (role_permissions viewer) refl h
can_role-IsBelow p developer_admin h = all-any admin p (role_permissions developer) refl h
can_role-IsBelow p operator_admin h = all-any admin p (role_permissions operator) refl h
can_role-IsBelow p admin_owner h = all-any owner p (role_permissions admin) refl h
can_role-IsBelow p (through b c) h = can_role-IsBelow p c (can_role-IsBelow p b h)
