-- ===== src/Auth/Users/Sound.antt =====
-- What the constraints of migrations/000_rebuild_clean.sql promise of the table of users
-- (internal/auth/store.go).
use go_saas_api.Common.{◌≡◌, ◌≢◌, true, List, [], ◌∷◌, All}
use go_saas_api.Auth.{User}
use go_saas_api.Auth.Users.{role_allowed}

-- Two rows with different ids and emails.
abbrev pub Apart : User → User → Type 0
Apart u v = (u.id ≢ v.id) × (u.email ≢ v.email)

-- Every role is allowed, and no two rows share an id or an email.
abbrev pub IsSound : List User → Type 0
IsSound [] = Unit
IsSound (u ∷ rows) = (role_allowed u.role ≡ true) × All (Apart u) rows × IsSound rows
