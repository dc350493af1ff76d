-- ===== src/Accounts.antt =====
-- Accounts and their permissions: testpaper_backend/schemas/auth.py and
-- testpaper_backend/security.py.
use test_paper_backend.Base.{ℕ, Bool, List, [], ◌∷◌, ◌==◌, any_by}

pub data UserRole : Type 0 where
  admin teacher viewer : UserRole

pub data Permission : Type 0 where
  questions_read questions_write questions_delete answers_read papers_read papers_write : Permission
  users_manage banks_read banks_write banks_delete banks_publish banks_subscribe : Permission

-- The place of a permission in the list of `Permission`, by which two are compared.
abbrev pub permission_number : Permission → ℕ
permission_number questions_read = 0
permission_number questions_write = 1
permission_number questions_delete = 2
permission_number answers_read = 3
permission_number papers_read = 4
permission_number papers_write = 5
permission_number users_manage = 6
permission_number banks_read = 7
permission_number banks_write = 8
permission_number banks_delete = 9
permission_number banks_publish = 10
permission_number banks_subscribe = 11

-- `ROLE_PERMISSIONS`
abbrev pub role_permissions : UserRole → List Permission
role_permissions admin =
    questions_read ∷ questions_write ∷ questions_delete ∷ answers_read ∷ papers_read ∷ papers_write
    ∷ users_manage ∷ banks_read ∷ banks_write ∷ banks_delete ∷ banks_publish ∷ banks_subscribe ∷ []
role_permissions teacher =
    questions_read ∷ questions_write ∷ questions_delete ∷ answers_read ∷ papers_read ∷ papers_write
    ∷ banks_read ∷ banks_write ∷ banks_delete ∷ banks_publish ∷ banks_subscribe ∷ []
role_permissions viewer = questions_read ∷ papers_read ∷ banks_read ∷ banks_subscribe ∷ []

-- The fields of `UserEntity` that the services read.
pub record User : Type 0 where
  pub id : ℕ
  pub role : UserRole
  pub permissions : List Permission
  pub is_active : Bool

unfoldable pub has_permission : User → Permission → Bool
has_permission user permission =
    any_by (λ p. permission_number p == permission_number permission) user.permissions
