-- ===== src/Ignore.antt =====
-- internal/ignore: the patterns that leave files out, ignore.go and gitignore.go.
-- The lines of a file come as a list, as bufio.Scanner gives them.
pub mod Git
use gcgrep.Base.{
  ℕ, zero, suc, ◌+◌, ◌-◌, ◌/◌, ◌%◌, Bool, true, false, ◌&&◌, ◌||◌, not, Option, none, some, List,
  [], ◌∷◌, ◌++◌, Bytes, codes, ltb, leb, ◌==◌, if◌then◌else◌, length, take, drop,
}
use gcgrep.Go.Bytes.{has_prefix, contains, index_byte}
use gcgrep.Go.Map.{bytes_eq}

-- What is used of the packages regexp and strings: Compile, MatchString, QuoteMeta and TrimSpace.
pub record Regexps : Type 1 where
  pub Regexp : Type 0
  pub compile : Bytes → Option Regexp
  pub match_string : Regexp → Bytes → Bool
  pub quote_meta : Bytes → Bytes
  pub trim_space : Bytes → Bytes

-- HasSuffix
unfoldable pub has_suffix : Bytes → Bytes → Bool
has_suffix s p = leb (length p) (length s) && bytes_eq (drop (length s - length p) s) p

-- TrimPrefix of a slash
unfoldable pub trim_slash : Bytes → Bytes
unfolding has_prefix
trim_slash pat = if has_prefix pat (codes "/") then drop 1 pat else pat

-- string(b) for a byte: the UTF-8 encoding of the code point of that number.
unfoldable pub string_of_byte : ℕ → Bytes
string_of_byte b = if ltb b 128 then b ∷ [] else (192 + b / 64) ∷ (128 + b % 64) ∷ []

-- The test that skips a line.
unfoldable pub is_skipped : Bytes → Bool
unfolding has_prefix
is_skipped line = length line == 0 || (has_prefix line (codes "#") || has_prefix line (codes "!"))

-- The test for .git
unfoldable pub is_git : Bytes → Bool
unfolding has_prefix contains has_suffix
is_git rel =
    bytes_eq rel (codes ".git")
    || has_prefix rel (codes ".git/")
    || (contains rel (codes "/.git/") || has_suffix rel (codes "/.git"))

-- strings.Join(parts, "/")
unfoldable pub join : List Bytes → Bytes
join [] = []
join (p ∷ []) = p
join (p ∷ q ∷ ps) = p ++ codes "/" ++ join (q ∷ ps)

-- strings.Split(rel, "/")
unfoldable pub split : Bytes → List Bytes
split [] = [] ∷ []
split (c ∷ s) = elim (split s) [
  | [] ↦ [] ∷ []
  | p ∷ ps ↦ if c == b'/' then [] ∷ p ∷ ps else (c ∷ p) ∷ ps
]

module _ (rx : Regexps) where
  -- rule
  pub record Rule : Type 0 where
    pub exact : rx.Regexp
    pub prefix : rx.Regexp
    pub dir_only : Bool

  -- The switch of compile: what is written, and how many bytes it stands for.
  unfoldable pub piece : ℕ → Bytes → Bytes × ℕ
  unfolding has_prefix string_of_byte
  piece c pat =
      if has_prefix (c ∷ pat) (codes "**/")
      then (codes "(?:.*/)?", 3)
      else if has_prefix (c ∷ pat) (codes "**")
      then (codes ".*", 2)
      else if c == b'*'
      then (codes "[^/]*", 1)
      else if c == b'?'
      then (codes "[^/]", 1)
      else (rx.quote_meta (string_of_byte c), 1)

  -- The loop of compile. Each turn takes a byte at least, so the length is enough fuel.
  unfoldable pub translate : ℕ → Bytes → Bytes
  unfolding piece
  translate zero pat = []
  translate (suc fuel) [] = []
  translate (suc fuel) (c ∷ pat) = let p = piece c pat in p.0 ++ translate fuel (drop p.1 (c ∷ pat))

  -- The builder's string, for a pattern without its trailing slash.
  unfoldable pub body_of : Bytes → Bytes
  unfolding translate trim_slash has_prefix contains
  body_of pat =
      (if has_prefix pat (codes "/") || contains pat (codes "/")
        then codes "^"
        else codes "(?:^|.*/)")
      ++ translate (length (trim_slash pat)) (trim_slash pat)

  unfoldable pub without_slash : Bytes → Bytes
  unfolding has_suffix
  without_slash pat = if has_suffix pat (codes "/") then take (length pat - 1) pat else pat

  -- compile
  unfoldable pub compile : Bytes → Option Rule
  unfolding body_of without_slash has_suffix
  compile pat =
      let body = body_of (without_slash pat) in
      elim (rx.compile (body ++ codes "$")) [
        | none ↦ none
        | some exact ↦ elim (rx.compile (body ++ codes "/")) [
          | none ↦ none
          | some prefix ↦
              some
                (record { exact = exact; prefix = prefix; dir_only = has_suffix pat (codes "/") })
        ]
      ]

  -- AddPatterns, and the loops of Load and loadGitignoreFile over the lines.
  unfoldable pub add_patterns : List Bytes → List Rule → List Rule
  unfolding is_skipped
  add_patterns [] rules = rules
  add_patterns (p ∷ ps) rules =
      let line = rx.trim_space p in
      add_patterns ps (
        if is_skipped line
        then rules
        else elim (compile line) [ none ↦ rules | some r ↦ rules ++ (r ∷ []) ])

  -- Load: the rules of the control file, or none where it cannot be opened.
  unfoldable pub load : Option (List Bytes) → List Rule
  unfolding add_patterns
  load none = []
  load (some lines) = add_patterns lines []

  unfoldable pub rule_matches : Rule → Bytes → Bool → Bool
  rule_matches r rel is_dir =
      rx.match_string r.prefix rel || rx.match_string r.exact rel && (is_dir || not r.dir_only)

  unfoldable pub any_matches : List Rule → Bytes → Bool → Bool
  unfolding rule_matches
  any_matches [] rel is_dir = false
  any_matches (r ∷ rs) rel is_dir = rule_matches r rel is_dir || any_matches rs rel is_dir

  -- Matcher.Ignored
  unfoldable pub ignored : List Rule → Bytes → Bool → Bool
  unfolding is_git any_matches
  ignored rules rel is_dir = is_git rel || any_matches rules rel is_dir

  -- The loop of GitignoreTree.Ignored, from the directory `dir` on with the parts below it.
  unfoldable pub tree_loop : (Bytes → List Rule) → Option Bytes → List Bytes → Bool → Bool
  unfolding any_matches join
  tree_loop rules_of dir [] is_dir = false
  tree_loop rules_of dir (p ∷ ps) is_dir =
      let rest =
        tree_loop rules_of (some (elim dir [ none ↦ p | some d ↦ d ++ codes "/" ++ p ])) ps
          is_dir in
      any_matches (rules_of (elim dir [ none ↦ codes "." | some d ↦ d ])) (join (p ∷ ps)) is_dir
      || rest

  -- GitignoreTree.Ignored, with the rules that loadDir gives for a directory.
  unfoldable pub tree_ignored : (Bytes → List Rule) → Bytes → Bool → Bool
  unfolding tree_loop split
  tree_ignored rules_of rel is_dir = tree_loop rules_of none (split rel) is_dir
