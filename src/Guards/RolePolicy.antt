-- ===== src/Guards/RolePolicy.antt =====
-- apps/api/src/rbac/role-policy.ts, with the names of the default roles of
-- packages/shared/src/permissions.ts: what a change of roles must keep.
--
-- `catalog` is ALL_PERMISSION_CODES, whatever codes it lists.
pub mod Permissions
use einvoice.Prelude.{
  ℕ, Bool, true, false, not, ◌&&◌, ◌||◌, Option, none, some, List, [], ◌∷◌, ◌++◌, Text, lit,
  text_eq, has, trim, length, ltb, leb, if◌then◌else◌, Unicode, to_lower, Result, ok, thrown, ◌>>=◌,
}
use einvoice.InternalId.{utf16_length}

pub data PolicyError : Type 0 where
  unknown_permission : Text → PolicyError
  beyond_your_own : List Text → PolicyError
  cannot_rename_default name_required name_reserved name_too_long : PolicyError
  cannot_delete_default reassign_members last_owner last_roles_manage : PolicyError

-- `if (seen.has(code)) continue; seen.add(code); unique.push(code)`
abbrev pub note_code : List Text → Text → List Text
note_code unique code = if has unique code then unique else unique ++ code ∷ []

-- The loop with `seen` and `unique`, which hold the same codes.
unfoldable pub unique_loop : List Text → List Text → List Text → Result PolicyError (List Text)
unique_loop catalog unique [] = ok unique
unique_loop catalog unique (code ∷ codes) =
    let rest = unique_loop catalog (note_code unique code) codes in
    if has catalog code then rest else thrown (unknown_permission code)

unfoldable pub assert_known_permission_codes :
    List Text → List Text → Result PolicyError (List Text)
assert_known_permission_codes catalog codes = unique_loop catalog [] codes

abbrev pub not_held : List Text → List Text → List Text
not_held actor_codes [] = []
not_held actor_codes (code ∷ granted) =
    let rest = not_held actor_codes granted in if has actor_codes code then rest else code ∷ rest

-- `if (extra.length > 0) throw`
abbrev pub refuse_extra : List Text → Result PolicyError (Unit {0})
refuse_extra [] = ok tt
refuse_extra (code ∷ extra) = thrown (beyond_your_own (code ∷ extra))

unfoldable pub assert_no_privilege_escalation :
    List Text → List Text → Result PolicyError (Unit {0})
assert_no_privilege_escalation actor_codes granted = refuse_extra (not_held actor_codes granted)

pub record Role : Type 0 where
  pub name : Text
  pub is_system : Bool

-- `if (test) throw error`
abbrev pub refuse_if : Bool → PolicyError → Result PolicyError (Unit {0})
refuse_if true error = thrown error
refuse_if false error = ok tt

abbrev is_empty : Text → Bool
is_empty [] = true
is_empty (c ∷ s) = false

abbrev default_role_names : List Text
default_role_names = lit "Owner" ∷ lit "Admin" ∷ lit "Accountant" ∷ lit "Viewer" ∷ []

module _ ⦃u : Unicode⦄ where
  abbrev same_name : List Text → Text → Bool
  same_name [] normalized = false
  same_name (n ∷ ns) normalized = text_eq (to_lower n) normalized || same_name ns normalized

  unfoldable pub is_reserved_role_name : Text → Bool
  is_reserved_role_name name = same_name default_role_names (to_lower (trim name))

  unfoldable pub assert_can_rename_role : Role → Text → Result PolicyError (Unit {0})
  assert_can_rename_role role new_name = do
    _ ← refuse_if role.is_system cannot_rename_default
    _ ← refuse_if (is_empty (trim new_name)) name_required
    refuse_if (is_reserved_role_name (trim new_name)) name_reserved

  unfoldable pub assert_can_create_role_name : Text → Result PolicyError Text
  assert_can_create_role_name name = do
    let trimmed = trim name
    _ ← refuse_if (is_empty trimmed) name_required
    _ ← refuse_if (ltb 80 (utf16_length trimmed)) name_too_long
    _ ← refuse_if (is_reserved_role_name trimmed) name_reserved
    ok trimmed

abbrev absent : Option Text → Bool
absent none = true
absent (some t) = is_empty t

unfoldable pub assert_can_delete_role : Role → ℕ → Option Text → Result PolicyError (Unit {0})
assert_can_delete_role role member_count reassign_to_role_id = do
  _ ← refuse_if role.is_system cannot_delete_default
  refuse_if (ltb 0 member_count && absent reassign_to_role_id) reassign_members

unfoldable pub assert_last_owner_preserved : Bool → ℕ → Bool → Result PolicyError (Unit {0})
assert_last_owner_preserved current_is_system_owner owner_member_count moving_away =
    refuse_if (current_is_system_owner && moving_away && leb owner_member_count 1) last_owner

unfoldable pub assert_last_roles_manage_preserved : ℕ → Result PolicyError (Unit {0})
assert_last_roles_manage_preserved remaining_holders =
    refuse_if (ltb remaining_holders 1) last_roles_manage

unfoldable pub is_system_owner_role : Role → Bool
is_system_owner_role role = role.is_system && text_eq role.name (lit "Owner")

unfoldable pub permissions_to_persist : List Text → Role → List Text → List Text
permissions_to_persist catalog role requested =
    if is_system_owner_role role then catalog else requested
