-- ===== src/Mcp/Reading/Matching.antt =====
-- internal/mcpserver/read.go: the search returns the first matches of all there are, and says when
-- there are more.
use gotifacts.Prelude.{
  ℕ, zero, suc, ◌+◌, ◌≤◌, ◌<◌, ◌≡◌, refl, sym, ap, ◌∙◌, Bool, true, false, not, ◌&&◌, ◌||◌, List,
  [], ◌∷◌, ◌++◌, arith, ltb→lt, Bool-cases, inl, inr, length, take, ltb, leb, ◌==◌, if◌then◌else◌,
  append-nil, append_assoc, length-append,
}
use gotifacts.Text.{Text, to_lower, contains}
use gotifacts.SiteFs.{Entry}
use gotifacts.Mcp.Reading.Search.{
  Match, Found, Scan, scan_lines, search_lines, search_file, search_entries, search_all, trim_line,
}

take_all : (n : ℕ) (xs : List Match) → length xs ≤ n → take n xs ≡ xs
take_all zero [] h = refl
take_all zero (x ∷ xs) h = absurd (omega arith)
take_all (suc n) [] h = refl
take_all (suc n) (x ∷ xs) h = ap (λ l. x ∷ l) (take_all n xs (omega arith))

take-append_long : (n : ℕ) (xs ys : List Match) → n ≤ length xs → take n (xs ++ ys) ≡ take n xs
take-append_long zero xs ys h = refl
take-append_long (suc n) [] ys h = absurd (omega arith)
take-append_long (suc n) (x ∷ xs) ys h = ap (λ l. x ∷ l) (take-append_long n xs ys (omega arith))

module _ (needle : Text) where
  -- The matches among the lines of a file, from the number of the first.
  abbrev pub line_matches : Text → ℕ → List Text → List Match
  line_matches rel n [] = []
  line_matches rel n (line ∷ rest) =
      let others = line_matches rel (n + 1) rest in
      if contains (to_lower line) needle
      then record { path = rel; line = n; text = trim_line line } ∷ others
      else others

  module _ (is_text : Text → Text × Bool) where
    -- Empty, large and binary files have no matches.
    abbrev pub is_searched : Entry → Bool
    is_searched e =
        not (length e.bytes == 0 || ltb 2097152 (length e.bytes)) && (is_text (take 512 e.bytes)).1

    abbrev pub all_matches : List Entry → List Match
    all_matches [] = []
    all_matches (e ∷ es) =
        (if is_searched e then line_matches e.rel 1 (scan_lines e.bytes) else []) ++ all_matches es

-- What is kept of all matches.
abbrev pub first_of_all : ℕ → List Match → Found
first_of_all max all = record { matches = take max all; truncated = ltb max (length all) }

abbrev so_far : List Match → Found
so_far found = record { matches = found; truncated = false }

abbrev outcome : ℕ → List Match → Scan
outcome max all = (first_of_all max all, ltb max (length all))

le→ltb : (a b : ℕ) → b ≤ a → ltb a b ≡ false
le→ltb a b h = ground arith

lt→ltb_true : (a b : ℕ) → a < b → ltb a b ≡ true
lt→ltb_true a b h = ground arith

module _ (max : ℕ) (found : List Match) where
  fits : length found ≤ max → (so_far found, false) ≡ outcome max found
  fits h = rw (take_all max found h, le→ltb max (length found) h) refl

  overflow :
      (more : List Match)
      → max < length found
      → first_of_all max (found ++ more) ≡ first_of_all max found
  overflow more h =
      let l = lt→ltb_true max (length found) h in
      let l' = lt→ltb_true max (length (found ++ more)) (omega (arith, length-append found more)) in
      rw (take-append_long max found more (omega arith), l, l') refl

  one_too_many :
      (x : Match) (more : List Match)
      → length found ≤ max
      → leb max (length found) ≡ true
      → (record (so_far found) { truncated = true }, true) ≡ outcome max (found ++ x ∷ more)
  one_too_many x more h full =
      let n : max ≤ length found = ground arith in
      let l =
        lt→ltb_true max (length (found ++ x ∷ more))
          (omega (arith, length-append found (x ∷ more))) in
      rw (take-append_long max found (x ∷ more) n, take_all max found h, l) refl

module _ (needle : Text) (max : ℕ) where
  search_lines_lem :
      (rel : Text) (n : ℕ) (lines : List Text) (found : List Match)
      → length found ≤ max
      → search_lines needle max rel n lines (so_far found)
        ≡ outcome max (found ++ line_matches needle rel n lines)
  unfolding search_lines
  search_lines_lem rel n [] found h = rw append-nil (fits max found h)
  search_lines_lem rel n (line ∷ rest) found h =
      let x : Match = record { path = rel; line = n; text = trim_line line } in
      elim (Bool-cases (contains (to_lower line) needle)) [
        | inr e ↦ rw e (search_lines_lem rel (n + 1) rest found h)
        | inl e ↦ elim (Bool-cases (leb max (length found))) [
          | inl full ↦ rw (e, full) (one_too_many max found x _ h full)
          | inr room ↦
              rw (e, room)
                (search_lines_lem rel (n + 1) rest (found ++ x ∷ []) (added found x room)
                  ∙ ap (outcome max)
                      (append_assoc found (x ∷ []) (line_matches needle rel (n + 1) rest)))
        ]
      ]
    where
      added : (l : List Match) (x : Match) → leb max (length l) ≡ false → length (l ++ x ∷ []) ≤ max
      added l x r = ground (arith, length-append l (x ∷ []))

  module _ (is_text : Text → Text × Bool) where
    file_matches : Entry → List Match
    file_matches e =
        if is_searched needle is_text e
        then line_matches needle e.rel 1 (scan_lines e.bytes)
        else []

    search_file_lem :
        (e : Entry) (found : List Match)
        → length found ≤ max
        → search_file needle max is_text e (so_far found) ≡ outcome max (found ++ file_matches e)
    unfolding search_file file_matches
    search_file_lem e found h =
        elim (Bool-cases (length e.bytes == 0 || ltb 2097152 (length e.bytes))) [
          | inl o ↦ rw (o, append-nil found) (fits max found h)
          | inr o ↦ elim (Bool-cases (is_text (take 512 e.bytes)).1) [
            | inl t ↦ rw (o, t) (search_lines_lem e.rel 1 (scan_lines e.bytes) found h)
            | inr t ↦ rw (o, t, append-nil found) (fits max found h)
          ]
        ]

    search_entries_lem :
        (es : List Entry) (found : List Match)
        → length found ≤ max
        → search_entries needle max is_text es (so_far found)
          ≡ first_of_all max (found ++ all_matches needle is_text es)
    unfolding search_entries file_matches
    search_entries_lem [] found h = rw append-nil (ap (λ (s : Scan). s.0) (fits max found h))
    search_entries_lem (e ∷ es) found h =
        let ms = found ++ file_matches e in
        let rest = all_matches needle is_text es in
        let scanned = search_file_lem e found h in
        elim (Bool-cases (ltb max (length ms))) [
          | inl over ↦
              let kept : record (first_of_all max ms) { truncated = true } ≡ first_of_all max ms =
                rw over refl in
              rw (scanned, over)
                (kept
                  ∙ sym (overflow max ms rest (ltb→lt max (length ms) over))
                  ∙ ap (first_of_all max) (append_assoc found (file_matches e) rest))
          | inr under ↦
              let room : length ms ≤ max = ground arith in
              rw (scanned, under)
                (ap (search_entries needle max is_text es) (ap so_far (take_all max ms room))
                  ∙ search_entries_lem es ms room
                  ∙ ap (first_of_all max) (append_assoc found (file_matches e) rest))
        ]

-- The search returns the first matches in the order of the walk, as many as the limit allows, and
-- reports that it was cut short exactly when there are more.
pub search_all_lem :
    (needle : Text) (max : ℕ) (is_text : Text → Text × Bool) (es : List Entry)
    → search_all needle max is_text es ≡ first_of_all max (all_matches needle is_text es)
unfolding search_all
search_all_lem needle max is_text es = search_entries_lem needle max is_text es [] (omega arith)
