-- ===== src/Build/NameStatus.antt =====
-- Reading the lines of `git diff --name-status`: src/darkfactory/tools/git_diff.py.
use local_dafa.Base.{
  ℕ, Bool, false, some, List, [], ◌∷◌, ◌++◌, ◌≡◌, refl, ap, ◌∙◌, arith, Text, is_empty, any, All,
  map, nat_beq, ltb, ◌||◌, strip, rstrip, is_break, unlines, splitlines-unlines,
}
use local_dafa.Build.Diff.{
  cons_head, split_tabs, last_text, line_entry, parse_lines, parse_name_status,
}

-- A changed file: its status, the path that it was renamed or copied from, and its path.
pub record Change : Type 0 where
  pub status : Text
  pub sources : List Text
  pub path : Text

abbrev pub tabbed : List Text → Text → Text
tabbed [] path = path
tabbed (s ∷ sources) path = s ++ 9 ∷ tabbed sources path

-- Its line where no path is quoted: the fields with tabs between them.
abbrev pub change_line : Change → Text
change_line c = c.status ++ 9 ∷ tabbed c.sources c.path

abbrev pub has_tab : Text → Bool
has_tab s = any (λ c. nat_beq c 9) s

-- Git prints a path with such a character in double quotes, and escapes the character: a control
-- character, a double quote, a backslash, and what is not ASCII.
abbrev pub is_quoted : ℕ → Bool
is_quoted c = ltb c 32 || (nat_beq c 34 || (nat_beq c 92 || ltb 126 c))

-- A change that git prints without quotes.
pub record IsPlain (c : Change) : Type 0 where
  pub status_tab : has_tab c.status ≡ false
  pub sources_plain : All (λ s. any is_quoted s ≡ false) c.sources
  pub path_plain : any is_quoted c.path ≡ false
  pub status_strip : strip c.status ≡ c.status
  pub path_strip : strip c.path ≡ c.path
  pub named : is_empty c.path ≡ false
  pub line_rstrip : rstrip (change_line c) ≡ change_line c
  pub one_line : any is_break (change_line c) ≡ false

plain_tab : (s : Text) → any is_quoted s ≡ false → has_tab s ≡ false
plain_tab [] h = refl
plain_tab (c ∷ s) h = ground (arith, plain_tab s (ground (arith, h)), h)

plain_tabs :
    (ss : List Text) → All (λ s. any is_quoted s ≡ false) ss → All (λ s. has_tab s ≡ false) ss
plain_tabs [] h = tt
plain_tabs (s ∷ ss) h = (plain_tab s h.0, plain_tabs ss h.1)

split_tabs-append : (p s : Text) → has_tab p ≡ false → split_tabs (p ++ 9 ∷ s) ≡ p ∷ split_tabs s
unfolding split_tabs cons_head
split_tabs-append [] s h = refl
split_tabs-append (c ∷ p) s h =
    let plain : nat_beq c 9 ≡ false = ground arith in
    rw (plain, split_tabs-append p s (ground arith))

split_tabs-one : (p : Text) → has_tab p ≡ false → split_tabs p ≡ p ∷ []
unfolding split_tabs cons_head
split_tabs-one [] h = refl
split_tabs-one (c ∷ p) h =
    let plain : nat_beq c 9 ≡ false = ground arith in rw (plain, split_tabs-one p (ground arith))

split_tabs-tabbed :
    (sources : List Text) (path : Text)
    → All (λ s. has_tab s ≡ false) sources
    → has_tab path ≡ false
    → split_tabs (tabbed sources path) ≡ sources ++ path ∷ []
split_tabs-tabbed [] path h k = split_tabs-one path k
split_tabs-tabbed (s ∷ sources) path h k =
    split_tabs-append s (tabbed sources path) h.0
    ∙ ap (λ ps. s ∷ ps) (split_tabs-tabbed sources path h.1 k)

last_text-append : (xs : List Text) (x d : Text) → last_text d (xs ++ x ∷ []) ≡ x
last_text-append [] x d = refl
last_text-append (y ∷ xs) x d = last_text-append xs x y

line_entry-fields :
    (status path : Text) (sources : List Text)
    → strip status ≡ status
    → strip path ≡ path
    → is_empty path ≡ false
    → line_entry (status ∷ (sources ++ path ∷ [])) ≡ some (status, path)
unfolding line_entry
line_entry-fields status path [] h k e = rw (k, e, h)
line_entry-fields status path (s ∷ sources) h k e = rw (last_text-append sources path s, k, e, h)

line_entry-change :
    (c : Change) → IsPlain c → line_entry (split_tabs (change_line c)) ≡ some (c.status, c.path)
line_entry-change c h =
    ap line_entry (
      split_tabs-append c.status (tabbed c.sources c.path) h.status_tab
      ∙ ap (λ ps. c.status ∷ ps)
          (split_tabs-tabbed c.sources c.path (plain_tabs c.sources h.sources_plain)
            (plain_tab c.path h.path_plain)))
    ∙ line_entry-fields c.status c.path c.sources h.status_strip h.path_strip h.named

is_empty-line : (s t : Text) → is_empty (s ++ 9 ∷ t) ≡ false
is_empty-line [] t = refl
is_empty-line (c ∷ s) t = refl

parse_lines-changes :
    (changes : List Change)
    → All IsPlain changes
    → parse_lines (map change_line changes) ≡ map (λ c. (c.status, c.path)) changes
unfolding parse_lines
parse_lines-changes [] h = refl
parse_lines-changes (c ∷ changes) h =
    rw (h.0.line_rstrip, is_empty-line c.status (tabbed c.sources c.path), line_entry-change c h.0)
      (ap (λ es. (c.status, c.path) ∷ es) (parse_lines-changes changes h.1))

lines_plain :
    (changes : List Change)
    → All IsPlain changes
    → All (λ l. any is_break l ≡ false) (map change_line changes)
lines_plain [] h = tt
lines_plain (c ∷ changes) h = (h.0.one_line, lines_plain changes h.1)

-- Lines of changes are read back, where no path has a character that git quotes: the entries are
-- the status and the path of each, in order, and of a renamed or copied file the path that it has
-- now. The status holds no tab, there is no line break, and a path does not begin or end in
-- whitespace.
pub parse_name_status-changes :
    (changes : List Change)
    → All IsPlain changes
    → parse_name_status (unlines (map change_line changes)) ≡ map (λ c. (c.status, c.path)) changes
unfolding parse_name_status
parse_name_status-changes changes h =
    rw (splitlines-unlines (map change_line changes) (lines_plain changes h))
      (parse_lines-changes changes h)
