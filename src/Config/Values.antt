-- ===== src/Config/Values.antt =====
-- internal/config/config.go: `env`, `intEnv`, `int64Env`, `boolEnv` and `durationEnv`, and the functions
-- of the standard library that `Load` applies to values. A value is the list of its bytes.
use mipttest_task.Base.{
  ℕ, ◌+◌, Bool, true, false, ◌&&◌, ◌||◌, Option, none, some, List, [], ◌∷◌, reverse, leb, ◌==◌,
  if◌then◌else◌, String, Str, codes, eq_str,
}
use mipttest_task.Base.Int.{ℤ}
use mipttest_task.Base.Decimal.{itoa, parse_int}
use mipttest_task.Domain.Errors.{Result, ok, err, other}

-- `os.Getenv`, which gives the empty text for a name that is not set.
abbrev pub Env : Type 0
Env = Str → Str

-- `url.URL`, as far as it is used.
pub record Url : Type 0 where
  pub scheme : Str
  pub host : Str
  pub path : Str
  pub raw_query : Str
  pub fragment : Str
  pub has_user : Bool

-- `net.ParseCIDR`, `url.Parse`, `time.ParseDuration` and `Duration.String`. `N` stands for `net.IPNet`.
pub record Parsers (N : Type 0) : Type 0 where
  pub parse_cidr : Str → Option N
  pub parse_url : Str → Option Url
  pub parse_duration : Str → Option ℤ
  pub duration_string : ℤ → Str

abbrev pub nonempty_or : Str → Str → Str
nonempty_or [] fallback = fallback
nonempty_or (c ∷ s) fallback = c ∷ s

unfoldable pub env : Env → Str → Str → Str
env getenv k fallback = nonempty_or (getenv k) fallback

-- `if err != nil { return …, fmt.Errorf("%s: %w", k, err) }`
abbrev pub parsed : {A : Type 0} → Option A → Result A
parsed none = err (other "value")
parsed (some a) = ok a

-- `intEnv` and `int64Env`: an `int` has 64 bits, and `Atoi` accepts what `ParseInt` does in base 10.
unfoldable pub int_env : Env → Str → ℕ → Result ℤ
unfolding env
int_env getenv k fallback = parsed (parse_int (env getenv k (itoa fallback)))

-- `strconv.FormatBool`
abbrev pub format_bool : Bool → Str
format_bool true = codes "true"
format_bool false = codes "false"

abbrev pub one_of : List String → Str → Bool
one_of [] s = false
one_of (w ∷ ws) s = eq_str s (codes w) || one_of ws s

-- `strconv.ParseBool`
unfoldable pub parse_bool : Str → Option Bool
unfolding eq_str
parse_bool s =
    if one_of ("1" ∷ "t" ∷ "T" ∷ "true" ∷ "TRUE" ∷ "True" ∷ []) s
    then some true
    else if one_of ("0" ∷ "f" ∷ "F" ∷ "false" ∷ "FALSE" ∷ "False" ∷ []) s
    then some false
    else none

unfoldable pub bool_env : Env → Str → Bool → Result Bool
unfolding env parse_bool
bool_env getenv k fallback = parsed (parse_bool (env getenv k (format_bool fallback)))

unfoldable pub duration_env : {N : Type 0} → Parsers N → Env → Str → ℤ → Result ℤ
unfolding env
duration_env libs getenv k fallback =
    parsed (libs.parse_duration (env getenv k (libs.duration_string fallback)))

abbrev drop_slashes : Str → Str
drop_slashes [] = []
drop_slashes (c ∷ s) = if c == b'/' then drop_slashes s else c ∷ s

-- `strings.TrimRight(s, "/")`
unfoldable pub trim_slashes : Str → Str
trim_slashes s = reverse (drop_slashes (reverse s))

abbrev join_first : ℕ → List Str → List Str
join_first c [] = []
join_first c (part ∷ parts) = (c ∷ part) ∷ parts

-- `strings.Split(s, ",")`
unfoldable pub split_commas : Str → List Str
split_commas [] = [] ∷ []
split_commas (c ∷ s) = if c == b',' then [] ∷ split_commas s else join_first c (split_commas s)

-- `strings.ToLower`, as far as a comparison with words in the letters of debug, info, warn and error
-- sees it: the one character beyond ASCII that becomes one of these is the dotted capital I.
abbrev lower : ℕ → ℕ
lower c = if leb b'A' c && leb c b'Z' then c + 32 else c

abbrev lower_onto : ℕ → Str → Str
lower_onto c [] = lower c ∷ []
lower_onto c (d ∷ s) = if c == 0xc4 && d == 0xb0 then b'i' ∷ s else lower c ∷ d ∷ s

unfoldable pub to_lower : Str → Str
to_lower [] = []
to_lower (c ∷ s) = lower_onto c (to_lower s)
