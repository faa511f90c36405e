-- ===== src/Config/Checks.antt =====
-- internal/config/config.go: what the checks of the settings share.
use machmqtt_dashboard.Prelude.{
  ℕ, ◌&&◌, ◌||◌, not, leb, ◌==◌, if◌then◌else◌, List, [], ◌∷◌, Bool, true, false, Option, none,
  some, Bytes, bytes_eq, codes, cut_prefix, is_some, ◌>>=◌,
}
use machmqtt_dashboard.Environments.{is_empty, read_cert_file}
use machmqtt_dashboard.Urls.{Url}
use machmqtt_dashboard.Config.{Platform}

-- An early return of an error, and what follows a check.
unfoldable pub require : Bool → Option (Unit {0})
require true = some tt
require false = none

infixl 1 ◌>>◌
abbrev pub ◌>>◌ : {A : Type 0} → Option (Unit {0}) → Option A → Option A
r >> s = r >>= λ _. s

-- `strings.TrimRight`, with the bytes of the cut set.
unfoldable pub trim_end : (ℕ → Bool) → Bytes → Bytes
trim_end is_cut [] = []
trim_end is_cut (c ∷ cs) = elim (trim_end is_cut cs) [
  | [] ↦ if is_cut c then [] else c ∷ []
  | d ∷ ds ↦ c ∷ d ∷ ds
]

-- `strings.Contains`
unfoldable pub mentions : Bytes → Bytes → Bool
unfolding cut_prefix
mentions part [] = is_some (cut_prefix part [])
mentions part (c ∷ cs) = is_some (cut_prefix part (c ∷ cs)) || mentions part cs

abbrev pub is_line_end : ℕ → Bool
is_line_end c = c == b'\r' || c == b'\n'

abbrev pub trimmed_file : Option Bytes → Option Bytes
trimmed_file none = none
trimmed_file (some value) = some (trim_end is_line_end value)

-- `resolveSecret`
unfoldable pub resolve_secret : Platform → Bytes → Bytes → Option Bytes
unfolding trim_end
resolve_secret h inline path =
    if not (is_empty inline) && not (is_empty path)
    then none
    else if is_empty path
    then some inline
    else trimmed_file (h.read_file path)

abbrev pub is_alphanumeric : ℕ → Bool
is_alphanumeric c =
    (leb b'A' c && leb c b'Z') || ((leb b'a' c && leb c b'z') || (leb b'0' c && leb c b'9'))

unfoldable pub are_name_bytes : Bytes → Bool
are_name_bytes [] = true
are_name_bytes (c ∷ cs) =
    (is_alphanumeric c || (c == b'.' || (c == b'_' || c == b'-'))) && are_name_bytes cs

-- `authProviderNamePattern`
abbrev pub is_provider_name : Bytes → Bool
is_provider_name [] = false
is_provider_name (c ∷ cs) = is_alphanumeric c && are_name_bytes cs

-- A key of a set of names.
unfoldable pub is_seen : Bytes → List Bytes → Bool
is_seen s [] = false
is_seen s (t ∷ ts) = bytes_eq t s || is_seen s ts

abbrev pub or_default : Bytes → Bytes → Bytes
or_default s default = if is_empty s then default else s

abbrev pub is_port : Option ℕ → Bool
is_port none = false
is_port (some n) = leb 1 n && leb n 65535

abbrev pub is_http : Platform → Option Url → Bool
is_http h none = false
is_http h (some u) =
    not (is_empty u.host)
    && ((bytes_eq u.scheme (codes "http") || bytes_eq u.scheme (codes "https"))
        && (not (is_some u.user)
            && (is_empty u.raw_query
                && (is_empty u.fragment
                    && ((is_empty u.path || bytes_eq u.path (codes "/"))
                        && (is_empty (h.port u) || is_port (h.lookup_port (h.port u))))))))

-- `validateHTTPURL`: whether there is no error.
unfoldable pub is_http_url : Platform → Bytes → Bool
is_http_url h raw = is_http h (h.parse raw)

abbrev pub is_usable_file : Platform → Option Bytes → Bool
is_usable_file h none = false
is_usable_file h (some pem) = h.is_usable pem

-- `validateCAFile`: whether there is no error.
abbrev pub is_ca_file : Platform → Bytes → Bool
is_ca_file h path = is_usable_file h (read_cert_file h.disk path)
