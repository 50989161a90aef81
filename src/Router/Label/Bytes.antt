-- ===== src/Router/Label/Bytes.antt =====
-- The bytes of a label: none of them is a separator, white space or an upper-case letter.
use gotifacts.Prelude.{◌≡◌, ◌≢◌, true, [], ◌∷◌, arith, All, All-imp}
use gotifacts.Text.{Text, is_space, lower_byte}
use gotifacts.Text.Equality.{IsLower}
use gotifacts.Text.Split.{Lacks}
use gotifacts.Text.Trim.{Keeps}
use gotifacts.Router.Label.{is_label_byte, ends_alnum, is_label, IsLabel}

ends_alnum-bytes : (s : Text) → ends_alnum s ≡ true → All (λ c. is_label_byte c ≡ true) s
unfolding ends_alnum
ends_alnum-bytes [] h = tt
ends_alnum-bytes (c ∷ []) h = unfold is_label_byte in ground arith
ends_alnum-bytes (c ∷ d ∷ s) h = ground (arith, ends_alnum-bytes (d ∷ s))

pub IsLabel-bytes : (s : Text) → IsLabel s → All (λ c. is_label_byte c ≡ true) s
unfolding is_label
IsLabel-bytes [] h = tt
IsLabel-bytes (c ∷ []) h = unfold is_label_byte in ground arith
IsLabel-bytes (c ∷ d ∷ s) h =
    let rest = ends_alnum-bytes (d ∷ s) (ground arith) in
    (unfold is_label_byte in ground arith, rest)

pub IsLabel-ne-nil : (s : Text) → IsLabel s → s ≢ []
unfolding is_label
IsLabel-ne-nil [] h e = cc
IsLabel-ne-nil (c ∷ s) h e = cc

pub IsLabel-Lacks_slash : (s : Text) → IsLabel s → Lacks b'/' s
unfolding is_label_byte
IsLabel-Lacks_slash s h = All-imp (λ c e. ground arith) s (IsLabel-bytes s h)

pub IsLabel-Lacks_dot : (s : Text) → IsLabel s → Lacks b'.' s
unfolding is_label_byte
IsLabel-Lacks_dot s h = All-imp (λ c e. ground arith) s (IsLabel-bytes s h)

pub IsLabel-Lacks_colon : (s : Text) → IsLabel s → Lacks b':' s
unfolding is_label_byte
IsLabel-Lacks_colon s h = All-imp (λ c e. ground arith) s (IsLabel-bytes s h)

pub IsLabel-Lacks_at : (s : Text) → IsLabel s → Lacks b'@' s
unfolding is_label_byte
IsLabel-Lacks_at s h = All-imp (λ c e. ground arith) s (IsLabel-bytes s h)

pub IsLabel-Keeps_space : (s : Text) → IsLabel s → Keeps is_space s
unfolding is_label_byte is_space
IsLabel-Keeps_space s h = All-imp (λ c e. ground arith) s (IsLabel-bytes s h)

pub IsLabel-IsLower : (s : Text) → IsLabel s → IsLower s
unfolding is_label_byte lower_byte
IsLabel-IsLower s h = All-imp (λ c e. ground arith) s (IsLabel-bytes s h)
