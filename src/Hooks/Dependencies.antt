-- ===== src/Hooks/Dependencies.antt =====
-- `_dependency_changes_authorized` of src/darkfactory/hooks/path_guard.py: whether the state lets an
-- agent write lockfiles.
use local_dafa.Base.{
  Bool, true, false, not, ◌||◌, List, [], ◌∷◌, Text, codes, is_empty, any, contains, strip,
  if◌then◌else◌, ◌==◌, nat_eq, list_eq,
}
use local_dafa.Hooks.PathGuard.{lower_text}

-- A value of the state: None, a bool, a text, a mapping, a list, a tuple or a set that has elements
-- or not, or anything else. Of an object that is no mapping no attribute is modelled.
mutual
  pub data Value : Type 0 where
    missing : Value
    boolean : Bool → Value
    string : Text → Value
    mapping : Fields → Value
    sequence : Bool → Value
    other : Value

  pub data Fields : Type 0 where
    no_fields : Fields
    field : Text → Value → Fields → Fields

-- `bool(value)`
unfoldable pub is_true : Value → Bool
is_true missing = false
is_true (boolean b) = b
is_true (string s) = not (is_empty s)
is_true (mapping no_fields) = false
is_true (mapping (field _ _ _)) = true
is_true (sequence b) = b
is_true other = true

unfoldable pub field_in : Text → Fields → Value
field_in key no_fields = missing
field_in key (field name v rest) = let later = field_in key rest in if name == key then v else later

-- `_field(value, key)`
unfoldable pub field_of : Text → Value → Value
unfolding field_in
field_of key (mapping fields) = field_in key fields
field_of key _ = missing

abbrev pub permitting_texts : List Text
permitting_texts =
    codes "1"
    ∷ codes "true"
    ∷ codes "yes"
    ∷ codes "allowed"
    ∷ codes "authorize"
    ∷ codes "authorized"
    ∷ []

mutual
  -- `_truthy_permission`
  pub truthy_permission : Value → Bool
  truthy_permission missing = false
  truthy_permission (boolean b) = b
  truthy_permission (string s) = contains (lower_text (strip s)) permitting_texts
  truthy_permission (mapping fields) =
      truthy_at (codes "allowed") fields
      || truthy_at (codes "allow") fields
      || truthy_at (codes "authorized") fields
      || truthy_at (codes "enabled") fields
  truthy_permission (sequence b) = b
  truthy_permission other = false

  -- `_truthy_permission(value.get(key))`
  pub truthy_at : Text → Fields → Bool
  truthy_at key no_fields = false
  truthy_at key (field name v rest) =
      let here = truthy_permission v in
      let later = truthy_at key rest in if name == key then here else later

-- `a or b`
abbrev pub or_value : Value → Value → Value
or_value a b = if is_true a then a else b

-- The brief that the contract changes are read from.
unfoldable pub brief_of : Value → Value
unfolding field_of is_true
brief_of state = or_value (field_of (codes "implementation_brief") state) (
    or_value (field_of (codes "brief") state)
      (or_value (field_of (codes "approved_brief") state) state))

unfoldable pub dependency_changes_authorized : Value → Bool
unfolding brief_of
dependency_changes_authorized state =
    let changes = field_of (codes "contract_changes") (brief_of state) in
    any (λ key. truthy_permission (field_of key state))
      (codes "dependency_changes"
        ∷ codes "allow_dependency_changes"
        ∷ codes "dependency_changes_authorized"
        ∷ [])
    || any (λ key. truthy_permission (field_of key changes))
        (codes "dependency_changes" ∷ codes "dependencies" ∷ codes "dependency_files" ∷ [])
