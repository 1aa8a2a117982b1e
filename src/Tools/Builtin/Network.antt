-- ===== src/Tools/Builtin/Network.antt =====
-- tools/builtin.py: the tools that call the network. Parameters are `urlparse`, `str.upper`, the
-- name service, `requests` and the `str` of a number.
pub mod Private
use agent_orchestration_syst.Common.{
  ℕ, ◌+◌, ◌*◌, String, Bool, true, false, not, ◌&&◌, ◌||◌, Option, none, some, List, [], ◌∷◌, ◌==◌,
  leb, if◌then◌else◌, concat, join, map, get_or, or_text, truthy, take_chars, any,
}
use agent_orchestration_syst.Common.Dict.{contains}
use agent_orchestration_syst.Schemas.{Json}
use agent_orchestration_syst.Tools.Builtin.{
  Raises, ok, raise, permission_error, value_error, library_error,
}

-- A result of the search service.
pub record SearchHit : Type 0 where
  pub title : Option String
  pub url : Option String

-- The request of `web_search` with its test of the status.
abbrev pub Post : Type 0
Post = (api_key query : String) → (max_results : ℕ) → Raises (List SearchHit)

hit_line : SearchHit → String
hit_line r = concat ("- " ∷ get_or r.title "" ∷ ": " ∷ get_or r.url "" ∷ [])

-- The answer of `web_search` from the results.
unfoldable pub hits_of : Raises (List SearchHit) → Raises String
unfolding hit_line
hits_of (raise e) = raise e
hits_of (ok hits) =
    let text = join "\n" (map hit_line hits) in
    ok (if text == "" then "No results found." else text)

-- `web_search`, given the value of TAVILY_API_KEY.
unfoldable pub web_search :
    (number : ℕ → String)
    → Post
    → (api_key : Option String) → (query : String) → (max_results : ℕ) → Raises String
unfolding hits_of
web_search number post api_key query max_results =
    if truthy api_key
    then hits_of (post (get_or api_key "") query max_results)
    else ok (
        concat (
          "[web_search stub] No TAVILY_API_KEY configured; would have searched for: '"
          ∷ query
          ∷ "' (max_results="
          ∷ number max_results
          ∷ ")."
          ∷ []))

-- An IPv4 address as a number of 32 bits.
abbrev pub ipv4 : (a b c d : ℕ) → ℕ
ipv4 a b c d = a * 16_777_216 + b * 65_536 + c * 256 + d

-- The first and the last address of a network.
abbrev pub Range : Type 0
Range = ℕ × ℕ

abbrev pub is_between : ℕ → Range → Bool
is_between address (first, last) = leb first address && leb address last

abbrev pub loopback : Range
loopback = (ipv4 127 0 0 0, ipv4 127 255 255 255)

abbrev pub link_local : Range
link_local = (ipv4 169 254 0 0, ipv4 169 254 255 255)

-- The networks of `IPv4Address.is_private`, as Python 3.11 lists them.
abbrev pub private_networks : List Range
private_networks =
    (0, ipv4 0 255 255 255)
    ∷ (ipv4 10 0 0 0, ipv4 10 255 255 255)
    ∷ loopback
    ∷ link_local
    ∷ (ipv4 172 16 0 0, ipv4 172 31 255 255)
    ∷ (ipv4 192 168 0 0, ipv4 192 168 255 255)
    ∷ (ipv4 192 0 0 0, ipv4 192 0 0 7)
    ∷ (ipv4 192 0 0 170, ipv4 192 0 0 171)
    ∷ (ipv4 192 0 2 0, ipv4 192 0 2 255)
    ∷ (ipv4 198 18 0 0, ipv4 198 19 255 255)
    ∷ (ipv4 198 51 100 0, ipv4 198 51 100 255)
    ∷ (ipv4 203 0 113 0, ipv4 203 0 113 255)
    ∷ (ipv4 240 0 0 0, ipv4 255 255 255 255)
    ∷ []

unfoldable pub is_private : ℕ → Bool
is_private address = any (is_between address) private_networks

-- `_BLOCKED_HOSTS`
abbrev pub blocked_hosts : List String
blocked_hosts = "localhost" ∷ "0.0.0.0" ∷ "metadata.google.internal" ∷ []

-- `socket.gethostbyname`, which knows IPv4 addresses only. `none` is a `gaierror` or `ValueError`.
abbrev pub NameService : Type 0
NameService = (host : String) → Option ℕ

-- `_is_private_or_local`
unfoldable pub is_private_or_local : NameService → (host : String) → Bool
unfolding is_private
is_private_or_local gethostbyname host =
    if contains host blocked_hosts then true else elim (gethostbyname host) [
      | none ↦ false
      | some address ↦
          is_private address || is_between address loopback || is_between address link_local
    ]

-- What the code reads of `urlparse(url)`.
pub record Url : Type 0 where
  pub scheme : String
  pub hostname : Option String

-- The functions from outside that `api_call` uses. `urlparse` may raise.
pub record Web : Type 0 where
  pub number : ℕ → String
  pub upper : String → String
  pub urlparse : String → Option Url
  pub gethostbyname : NameService
  pub request : (method url : String) → Option Json → Raises (ℕ × String)

-- The answer of `api_call` from the response.
unfoldable pub response_text : (number : ℕ → String) → Raises (ℕ × String) → Raises String
response_text number (raise e) = raise e
response_text number (ok (status, text)) =
    ok (concat ("HTTP " ∷ number status ∷ "\n" ∷ take_chars 2000 text ∷ []))

-- The message of the `PermissionError`.
unfoldable pub refusal : (hostname : Option String) → String
refusal hostname =
    concat ("api_call may not target private/local host '" ∷ get_or hostname "None" ∷ "'." ∷ [])

-- `api_call` with the parsed URL.
unfoldable pub call_parsed :
    Web → Url → (url method : String) → (json_body : Option Json) → Raises String
unfolding is_private_or_local response_text
call_parsed web parsed url method json_body =
    if not (contains parsed.scheme ("http" ∷ "https" ∷ []))
    then raise (value_error "api_call only supports http/https URLs.")
    else if is_private_or_local web.gethostbyname (or_text parsed.hostname "")
    then raise (permission_error (refusal parsed.hostname))
    else response_text web.number (web.request (web.upper method) url json_body)

-- `api_call`
unfoldable pub api_call : Web → (url method : String) → (json_body : Option Json) → Raises String
unfolding call_parsed
api_call web url method json_body = elim (web.urlparse url) [
  | none ↦ raise library_error
  | some parsed ↦ call_parsed web parsed url method json_body
]
