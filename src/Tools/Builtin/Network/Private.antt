-- ===== src/Tools/Builtin/Network/Private.antt =====
-- tools/builtin.py: which hosts `api_call` calls.
use agent_orchestration_syst.Common.{
  Bool-cases, any, inl, inr, ℕ, ◌≤◌, ◌≡◌, String, Bool, true, Option, some, List, [], ◌∷◌, or_text,
  arith,
}
use agent_orchestration_syst.Common.Dict.{contains}
use agent_orchestration_syst.Schemas.{Json}
use agent_orchestration_syst.Tools.Builtin.{Exception, Raises, raise, permission_error, value_error}
use agent_orchestration_syst.Tools.Builtin.Network.{
  api_call, call_parsed, ipv4, is_private_or_local, Url, Web, blocked_hosts, refusal, NameService,
  is_between, Range, private_networks, is_private,
}

-- The addresses of the machine itself, of private networks and of the cloud's metadata service.
pub data IsInternal (a : ℕ) : Type 0 where
  this_machine : ipv4 127 0 0 0 ≤ a → a ≤ ipv4 127 255 255 255 → IsInternal a
  class_a : ipv4 10 0 0 0 ≤ a → a ≤ ipv4 10 255 255 255 → IsInternal a
  class_b : ipv4 172 16 0 0 ≤ a → a ≤ ipv4 172 31 255 255 → IsInternal a
  class_c : ipv4 192 168 0 0 ≤ a → a ≤ ipv4 192 168 255 255 → IsInternal a
  link_local : ipv4 169 254 0 0 ≤ a → a ≤ ipv4 169 254 255 255 → IsInternal a

is_between-of : (a first last : ℕ) → first ≤ a → a ≤ last → is_between a (first, last) ≡ true
is_between-of a first last h k = ground arith

data In (r : Range) : List Range → Type 0 where
  here : {rest : List Range} → In r (r ∷ rest)
  later : {q : Range} {rest : List Range} → In r rest → In r (q ∷ rest)

any-In :
    (p : Range → Bool) (r : Range) {ranges : List Range}
    → In r ranges
    → p r ≡ true
    → any p ranges ≡ true
any-In p r here h = ground arith
any-In p r (later {q} {rest} i) h = ground (arith, any-In p r i h)

private_of :
    (a first last : ℕ)
    → In (first, last) private_networks
    → first ≤ a
    → a ≤ last
    → is_private a ≡ true
unfolding is_private
private_of a first last i h k =
    any-In (is_between a) (first, last) i (is_between-of a first last h k)

is_private-IsInternal : (a : ℕ) → IsInternal a → is_private a ≡ true
is_private-IsInternal a (class_a p q) = private_of a _ _ (later here) p q
is_private-IsInternal a (this_machine p q) = private_of a _ _ (later (later here)) p q
is_private-IsInternal a (link_local p q) = private_of a _ _ (later (later (later here))) p q
is_private-IsInternal a (class_b p q) = private_of a _ _ (later (later (later (later here)))) p q
is_private-IsInternal a (class_c p q) =
    private_of a _ _ (later (later (later (later (later here))))) p q

is_private_or_local-IsInternal :
    (gethostbyname : NameService) (host : String) (a : ℕ)
    → gethostbyname host ≡ some a
    → IsInternal a
    → is_private_or_local gethostbyname host ≡ true
unfolding is_private_or_local
is_private_or_local-IsInternal gethostbyname host a h i =
    elim (Bool-cases (contains host blocked_hosts)) [
      | inl e ↦ rw (e, is_private_or_local)
      | inr e ↦ rw (e, is_private_or_local, h, is_private-IsInternal a i)
    ]

-- A host whose name stands for an internal IPv4 address when `api_call` looks it up gets no
-- request: the answer is an error whatever a request would give.
pub api_call-refuses :
    (web : Web) (url method : String) (json_body : Option Json) (parsed : Url) (a : ℕ)
    → web.urlparse url ≡ some parsed
    → web.gethostbyname (or_text parsed.hostname "") ≡ some a
    → IsInternal a
    → (e : Exception) × ((request : (method url : String) → Option Json → Raises (ℕ × String))
        → api_call (record web { request = request }) url method json_body ≡ raise e)
unfolding api_call call_parsed
api_call-refuses web url method json_body parsed a h g i =
    let found =
      is_private_or_local-IsInternal web.gethostbyname (or_text parsed.hostname "") a g i in
    elim (Bool-cases (contains parsed.scheme ("http" ∷ "https" ∷ []))) [
      | inl e ↦ (permission_error (refusal parsed.hostname), λ request. rw (h, api_call, e, found))
      | inr e ↦
          (value_error "api_call only supports http/https URLs.", λ request. rw (h, api_call, e))
    ]
