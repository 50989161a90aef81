-- ===== src/Keys.antt =====
-- internal/keys/keys.go: capabilities and their comma-separated lists.
-- Token generation is random and is not modelled; the hash of a token is a parameter where it is
-- used.
pub mod Lists
mod Tests
use gotifacts.Prelude.{
  ℕ, Bool, true, false, ◌||◌, List, [], ◌∷◌, ◌++◌, map, if◌then◌else◌, Result, ok, err, ◌>>=◌, ◌≡◌,
}
use gotifacts.Text.{Text, codes, text_eq, contains_text, to_lower, trim_space, split, join}

-- Capability: a string type, with these recognized values
abbrev pub Capability : Type 0
Capability = Text

abbrev pub cap_publish : Capability
cap_publish = codes "publish"

abbrev pub cap_unpublish : Capability
cap_unpublish = codes "unpublish"

abbrev pub cap_rollback : Capability
cap_rollback = codes "rollback"

abbrev pub cap_patch : Capability
cap_patch = codes "patch"

abbrev pub cap_purge : Capability
cap_purge = codes "purge"

abbrev pub cap_read : Capability
cap_read = codes "read"

abbrev pub all_capabilities : List Capability
all_capabilities =
    cap_publish ∷ cap_unpublish ∷ cap_rollback ∷ cap_patch ∷ cap_purge ∷ cap_read ∷ []

-- ErrInvalidCapability
pub data CapabilityError : Type 0 where
  invalid_capability : CapabilityError

-- Capability.Valid
unfoldable pub is_capability : Capability → Bool
unfolding contains_text
is_capability c = contains_text all_capabilities c

-- ParseCapability
unfoldable pub parse_capability : Text → Result CapabilityError Capability
unfolding is_capability
parse_capability s =
    let c = to_lower (trim_space s) in if is_capability c then ok c else err invalid_capability

-- The loop of `ParseCapabilities`. `out` holds what the map `seen` holds, in order.
unfoldable pub parse_parts : List Capability → List Text → Result CapabilityError (List Capability)
unfolding parse_capability contains_text
parse_parts out [] = ok out
parse_parts out (part ∷ parts) =
    let skip = parse_parts out parts in
    let more = (do
      c ← parse_capability (trim_space part)
      parse_parts (if contains_text out c then out else out ++ c ∷ []) parts) in
    if text_eq (trim_space part) [] then skip else more

abbrev pub nonempty_list : List Capability → Result CapabilityError (List Capability)
nonempty_list [] = err invalid_capability
nonempty_list (c ∷ cs) = ok (c ∷ cs)

-- ParseCapabilities
unfoldable pub parse_capabilities : Text → Result CapabilityError (List Capability)
unfolding parse_parts
parse_capabilities csv = do out ← parse_parts [] (split b',' csv); nonempty_list out

-- HasCapability
unfoldable pub has_capability : List Capability → Capability → Bool
unfolding contains_text
has_capability caps target = contains_text caps target

-- JoinCapabilities
unfoldable pub join_capabilities : List Capability → Text
join_capabilities caps = join b',' caps

abbrev pub IsCapability : Capability → Type 0
IsCapability c = is_capability c ≡ true
