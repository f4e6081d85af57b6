-- ===== src/Hooks/Paths.antt =====
-- `_normalize_path` of src/darkfactory/hooks/path_guard.py, with the parts of a `PurePosixPath`.
use local_dafa.Base.{
  ℕ, Bool, not, ◌&&◌, ◌||◌, Option, none, some, List, [], ◌∷◌, ◌++◌, Text, codes, map, filter,
  is_empty, nat_beq, if◌then◌else◌, ◌==◌, nat_eq, list_eq, join, lstrip_of, or_else,
}
use mathlib.Core.List.{reverse}

-- `s.replace("\\", "/")`
unfoldable pub forward : Text → Text
forward s = map (λ c. if nat_beq c 92 then 47 else c) s

-- `s.rstrip("/")`
unfoldable pub rstrip_slashes : Text → Text
unfolding lstrip_of
rstrip_slashes s = reverse (lstrip_of 47 (reverse s))

-- What follows a prefix.
unfoldable pub after_prefix : Text → Text → Option Text
after_prefix [] s = some s
after_prefix (p ∷ ps) [] = none
after_prefix (p ∷ ps) (c ∷ s) = let rest = after_prefix ps s in if nat_beq c p then rest else none

-- `while raw.startswith("./"): raw = raw[2:]`
unfoldable pub drop_here : Text → Text
drop_here [] = []
drop_here (c ∷ []) = c ∷ []
drop_here (c ∷ d ∷ s) =
    let rest = drop_here s in if nat_beq c 46 && nat_beq d 47 then rest else c ∷ d ∷ s

unfoldable pub with_head : ℕ → List Text → List Text
with_head c [] = (c ∷ []) ∷ []
with_head c (s ∷ rest) = (c ∷ s) ∷ rest

-- `s.split("/")`
unfoldable pub split_slashes : Text → List Text
unfolding with_head
split_slashes [] = [] ∷ []
split_slashes (c ∷ s) =
    let rest = split_slashes s in if nat_beq c 47 then [] ∷ rest else with_head c rest

abbrev pub here : Text
here = 46 ∷ []

abbrev pub above : Text
above = 46 ∷ 46 ∷ []

abbrev pub slash : Text
slash = 47 ∷ []

abbrev pub double_slash : Text
double_slash = 47 ∷ 47 ∷ []

-- The root of a `PurePosixPath`: two slashes are kept, any other number of them counts as one.
unfoldable pub after_two_slashes : Text → Text
after_two_slashes [] = double_slash
after_two_slashes (c ∷ s) = if nat_beq c 47 then slash else double_slash

unfoldable pub after_slash : Text → Text
unfolding after_two_slashes
after_slash [] = slash
after_slash (c ∷ s) = if nat_beq c 47 then after_two_slashes s else slash

unfoldable pub root_of : Text → List Text
unfolding after_slash
root_of [] = []
root_of (c ∷ s) = if nat_beq c 47 then after_slash s ∷ [] else []

-- A part that a path keeps.
abbrev pub is_part : Text → Bool
is_part p = not (is_empty p) && not (p == here)

-- `PurePosixPath(raw).parts`
unfoldable pub path_parts : Text → List Text
path_parts raw = root_of raw ++ filter is_part (split_slashes raw)

-- One part of the loop, on the parts so far with the last one first.
unfoldable pub push_part : List Text → Text → List Text
push_part [] part = if not (is_part part) || part == slash then [] else part ∷ []
push_part (top ∷ rest) part =
    if not (is_part part) || part == slash
    then top ∷ rest
    else if part == above && not (top == above)
    then rest
    else part ∷ top ∷ rest

unfoldable pub push_parts : List Text → List Text → List Text
unfolding push_part
push_parts stack [] = stack
push_parts stack (part ∷ parts) = push_parts (push_part stack part) parts

-- The path below the working directory, or below /workspace.
unfoldable pub relative : Option Text → Text → Text
relative cwd raw =
    let base = rstrip_slashes (forward (or_else cwd [])) in
    let below = after_prefix (base ++ slash) raw in
    let other = or_else (after_prefix (codes "/workspace/") raw) raw in
    let rest = if raw == base then [] else other in
    if is_empty base then rest else or_else below rest

unfoldable pub normalize_path : Option Text → Text → Text
unfolding path_parts push_parts drop_here
normalize_path cwd path =
    join slash (reverse (push_parts [] (path_parts (drop_here (relative cwd (forward path))))))
