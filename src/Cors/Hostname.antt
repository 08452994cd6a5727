-- ===== src/Cors/Hostname.antt =====
-- src/cors.ts, first part: the host names of the request and of the origin.
use Prim.Native.Char.{code}
use Prim.Native.String.{[], ◌∷◌}
use lodestar_server.Prelude.{
  ℕ, String, Bool, true, ◌&&◌, ◌||◌, not, Option, none, some, List, ◌==◌, eqb, leb, if◌then◌else◌,
}
use Prim.Native.String.{◌++◌, count}
use lodestar_server.Prelude.Ascii.{to_lower_case}
use lodestar_server.Cors.{Url, Environment}

-- `.replace(/\.+$/, '')`
strip_dots : String → String
strip_dots [] = []
strip_dots (c ∷ s) =
    let rest = strip_dots s in if rest == "" && eqb (code c) 46 then [] else c ∷ rest

unfoldable pub normalize_hostname : String → String
unfolding strip_dots to_lower_case
normalize_hostname hostname = strip_dots (to_lower_case hostname)

-- `array.join('.')`
abbrev join_dots : List String → String
join_dots List.[] = ""
join_dots (List.◌∷◌ s List.[]) = s
join_dots (List.◌∷◌ s ss) = s ++ ("." ++ join_dots ss)

-- `text.split(':')[0]`, and what follows the colon.
before_colon : String → String
before_colon [] = []
before_colon (c ∷ s) = let rest = before_colon s in if eqb (code c) 58 then [] else c ∷ rest

after_colon : String → Option String
after_colon [] = none
after_colon (c ∷ s) = let rest = after_colon s in if eqb (code c) 58 then some s else rest

abbrev is_digit : ℕ → Bool
is_digit c = leb 48 c && leb c 57

abbrev is_host_char : ℕ → Bool
is_host_char c =
    (leb 65 c && leb c 90) || (leb 97 c && leb c 122) || is_digit c || eqb c 45 || eqb c 46

all_chars : (ℕ → Bool) → String → Bool
all_chars p [] = true
all_chars p (c ∷ s) = p (code c) && all_chars p s

abbrev is_port : Option String → Bool
is_port none = true
is_port (some s) = all_chars is_digit s && (leb 1 (count s) && leb (count s) 5)

-- `/^[A-Za-z0-9.-]+(:\d{1,5})?$/`: no colon is among the characters of the name.
unfoldable is_plain_host : String → Bool
unfolding before_colon after_colon all_chars
is_plain_host s =
    not (before_colon s == "")
    && (all_chars is_host_char (before_colon s) && is_port (after_colon s))

-- `hostname || undefined`
abbrev or_undefined : String → Option String
or_undefined s = if s == "" then none else some s

unfoldable pub request_hostname : Option String → Option String
unfolding is_plain_host before_colon
request_hostname none = none
request_hostname (some raw_host) =
    if raw_host == "" || not (is_plain_host raw_host)
    then none
    else or_undefined (normalize_hostname (before_colon raw_host))

module _ (env : Environment) where
  -- Production: https on the default port. Elsewhere http too.
  abbrev is_accepted : Url → Bool
  is_accepted url =
      if env.is_production
      then url.protocol == "https:" && url.port == ""
      else url.protocol == "https:" || url.protocol == "http:"

  abbrev pub hostname_of : Option Url → Option String
  hostname_of none = none
  hostname_of (some url) =
      if is_accepted url then or_undefined (normalize_hostname url.hostname) else none

  unfoldable pub origin_hostname : Option String → Option String
  origin_hostname none = none
  origin_hostname (some origin) = if origin == "" then none else hostname_of (env.parse_url origin)

  abbrev domain_text : Option (String × List String) → Option String
  domain_text none = none
  domain_text (some (domain, top)) =
      if domain == "" then none else some (domain ++ ("." ++ join_dots top))

  unfoldable pub registrable_domain : String → Option String
  registrable_domain hostname = domain_text (env.parse_domain hostname)
