-- ===== src/Permissions/Validation/Tests.antt =====
-- Runs of validatePermissions of src/lib/permissions.ts.
use planeo.Prelude.{String, some, List, [], ◌∷◌, ◌≡◌, refl, ok}
use planeo.Prelude.Json.{Json, Fields, str, arr, obj, nil, cons, field, end, props}
use planeo.Permissions.{ProjectPermission, PermissionMap, permission_name}
use planeo.Permissions.Validation.{
  validate_permissions, read_grants, is_grant, strip, validate_permissions_complete,
}

-- A list that names one grant twice.
abbrev grants : Json
grants =
    arr (cons (str "PROJECT:ADMIN") (cons (str "GROUP:dev_1") (cons (str "PROJECT:ADMIN") nil)))

abbrev fields : Fields
fields = field "project.admin" grants (
    field "issue.view" grants (
      field "issue.create" grants (
        field "issue.edit" grants (
          field "issue.security" grants (
            field "sprint.manage" grants (
              field "release.manage" grants (
                field "export.run" grants (
                  field "automation.manage" grants
                    (field "integration.manage" (arr nil) end)))))))))

read_all :
    (q : ProjectPermission)
    → (gs : List String) × (read_grants (props fields) (permission_name q) ≡ some gs)
unfolding read_grants is_grant strip
read_all ProjectPermission.project_admin =
    ("PROJECT:ADMIN" ∷ "GROUP:dev_1" ∷ "PROJECT:ADMIN" ∷ [], refl)
read_all ProjectPermission.integration_manage = ([], refl)
read_all _ = ("PROJECT:ADMIN" ∷ "GROUP:dev_1" ∷ "PROJECT:ADMIN" ∷ [], refl)

passes : (final : PermissionMap) × (validate_permissions (obj fields) ≡ ok final)
passes = validate_permissions_complete (obj fields) (props fields) refl read_all
