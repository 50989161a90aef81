-- ===== src/Router/Label.antt =====
-- internal/router/sitepath.go: `LabelPattern` and its matcher.
pub mod Bytes
use gotifacts.Prelude.{ℕ, Bool, true, false, ◌&&◌, ◌||◌, [], ◌∷◌, leb, ◌==◌, ◌≡◌}
use gotifacts.Text.{Text}

-- [a-z0-9]
unfoldable pub is_alnum : ℕ → Bool
is_alnum c = (leb b'a' c && leb c b'z') || (leb b'0' c && leb c b'9')

-- [a-z0-9-]
unfoldable pub is_label_byte : ℕ → Bool
unfolding is_alnum
is_label_byte c = is_alnum c || c == b'-'

-- [a-z0-9-]*[a-z0-9]
unfoldable pub ends_alnum : Text → Bool
unfolding is_alnum is_label_byte
ends_alnum [] = false
ends_alnum (c ∷ []) = is_alnum c
ends_alnum (c ∷ d ∷ s) = is_label_byte c && ends_alnum (d ∷ s)

-- labelRE.MatchString, for ^[a-z0-9](?:[a-z0-9-]*[a-z0-9])?$
unfoldable pub is_label : Text → Bool
unfolding is_alnum ends_alnum
is_label [] = false
is_label (c ∷ []) = is_alnum c
is_label (c ∷ d ∷ s) = is_alnum c && ends_alnum (d ∷ s)

abbrev pub IsLabel : Text → Type 0
IsLabel s = is_label s ≡ true
