-- ===== src/ContentLine/Lines/Params.antt =====
-- `Param` and `Params` of internal/contentline/lines.go: reading a raw parameter string.
use edav.Base.{true, false, List, [], ◌∷◌, ◌++◌, Option, none, some, map}
use edav.Base.Bytes.{Bytes, cut_prefix, split, cut, trim, equal_fold}

-- `strings.TrimPrefix(params, ";")`, split on semicolons.
unfoldable pub param_parts : Bytes → List Bytes
unfolding cut_prefix split
param_parts params = elim (cut_prefix params (b';' ∷ [])) [
  | none ↦ split params b';'
  | some rest ↦ split rest b';'
]

-- The value of `key=value` if the key is the name asked for.
unfoldable pub part_value : Bytes → Bytes → Option Bytes
unfolding cut equal_fold
part_value name part = elim (cut part b'=') [
  | none ↦ none
  | some (key, value) ↦ elim (equal_fold key name) [ true ↦ some value | false ↦ none ]
]

unfoldable pub first_param : Bytes → List Bytes → Bytes
unfolding part_value trim
first_param name [] = []
first_param name (part ∷ parts) = elim (part_value name part) [
  | none ↦ first_param name parts
  | some value ↦ trim b'"' value
]

unfoldable pub param : Bytes → Bytes → Bytes
unfolding param_parts first_param
param params name = first_param name (param_parts params)

unfoldable pub all_params : Bytes → List Bytes → List Bytes
unfolding part_value trim split
all_params name [] = []
all_params name (part ∷ parts) = elim (part_value name part) [
  | none ↦ all_params name parts
  | some value ↦ map (trim b'"') (split value b',') ++ all_params name parts
]

unfoldable pub params_of : Bytes → Bytes → List Bytes
unfolding param_parts all_params
params_of params name = all_params name (param_parts params)
