-- ===== src/Tools/Builtin/Registered/Visible.antt =====
-- tools/builtin.py: what a specialist may call once the built-in tools are registered.
use agent_orchestration_syst.Common.{
  ◌≡◌, refl, ap, sym, ◌∙◌, String, false, List, [], ◌∷◌, ◌++◌, if◌then◌else◌, arith, eq_iff,
  is_some, All,
}
use mathlib.Core.List.{append-nil, append_assoc}
use agent_orchestration_syst.Common.Dict.{
  Dict, lookup, assign, values, contains, lookup-assign, Distinct,
}
use agent_orchestration_syst.Schemas.{SpecialistType, research, data_analysis, writing, value}
use agent_orchestration_syst.Tools.Registry.{
  allows, list_tools_for, list_tools_from, RegisteredTool, ok, register, ToolRegistry,
}
use agent_orchestration_syst.Tools.Builtin.Registered.{
  BuiltinTools, Registration, register_all, register_builtin_tools, registrations,
}

unfoldable pub names : List RegisteredTool → List String
names [] = []
names (t ∷ ts) = t.name ∷ names ts

registered_names : List Registration → List String
registered_names [] = []
registered_names (t ∷ ts) = t.name ∷ registered_names ts

-- The names of the registrations that allow a specialist.
allowed_names : SpecialistType → List Registration → List String
allowed_names s [] = []
allowed_names s (t ∷ ts) =
    let rest = allowed_names s ts in if allows s t.allowed_specialists then t.name ∷ rest else rest

values-assign :
    (k : String) (v : RegisteredTool) (d : Dict RegisteredTool)
    → is_some (lookup k d) ≡ false
    → values (assign k v d) ≡ values d ++ v ∷ []
unfolding lookup assign
values-assign k v [] h = refl
values-assign k v ((j, w) ∷ d) h = ground (arith, values-assign k v d)

list_tools_from-append :
    (s : SpecialistType) (ts us : List RegisteredTool)
    → names (list_tools_from s (ts ++ us))
      ≡ names (list_tools_from s ts) ++ names (list_tools_from s us)
unfolding list_tools_from names
list_tools_from-append s [] us = refl
list_tools_from-append s (t ∷ ts) us = ground (arith, list_tools_from-append s ts us)

-- No name of a list is registered.
abbrev IsFresh : ToolRegistry → List Registration → Type 0
IsFresh r ts = All (λ (t : Registration). is_some (lookup t.name r.tools) ≡ false) ts

-- The tool, and the registry after the registration of a fresh name.
abbrev registered : Registration → RegisteredTool
registered t = record {
  name = t.name;
  description = t.description;
  func = t.func;
  allowed_specialists = t.allowed_specialists;
  args_schema = t.args_schema;
  rate_limit_per_minute = t.rate_limit_per_minute;
  call_timestamps = [];
}

abbrev with_tool : Registration → ToolRegistry → ToolRegistry
with_tool t r = record r { tools = assign t.name (registered t) r.tools }

with_tool-IsFresh :
    (t : Registration) (r : ToolRegistry) (ts : List Registration)
    → contains t.name (registered_names ts) ≡ false
    → IsFresh r ts
    → IsFresh (with_tool t r) ts
unfolding registered_names
with_tool-IsFresh t r [] d h = tt
with_tool-IsFresh t r (u ∷ ts) d h = (
  ground (
    arith,
    lookup-assign t.name u.name (registered t) r.tools,
    eq_iff t.name u.name,
    eq_iff u.name t.name,
  ),
  with_tool-IsFresh t r ts (ground arith) h.1,
)

with_tool-names :
    (s : SpecialistType) (t : Registration) (r : ToolRegistry)
    → is_some (lookup t.name r.tools) ≡ false
    → names (list_tools_for (with_tool t r) s)
      ≡ names (list_tools_for r s) ++ allowed_names s (t ∷ [])
unfolding allowed_names names list_tools_from
with_tool-names s t r h =
    ap (λ ts. names (list_tools_from s ts)) (values-assign t.name (registered t) r.tools h)
    ∙ list_tools_from-append s (values r.tools) (registered t ∷ [])
    ∙ ap (λ l. names (list_tools_for r s) ++ l) (ground arith)

allowed_names-cons :
    (s : SpecialistType) (t : Registration) (ts : List Registration)
    → allowed_names s (t ∷ ts) ≡ allowed_names s (t ∷ []) ++ allowed_names s ts
unfolding allowed_names
allowed_names-cons s t ts = ground arith

register_all-names :
    (s : SpecialistType) (ts : List Registration) (r : ToolRegistry)
    → Distinct (registered_names ts)
    → IsFresh r ts
    → (r' : ToolRegistry) × (register_all ts r ≡ ok r')
      × (names (list_tools_for r' s) ≡ names (list_tools_for r s) ++ allowed_names s ts)
unfolding register_all register registered_names allowed_names
register_all-names s [] r d h = (r, refl, sym (append-nil _))
register_all-names s (t ∷ ts) r d h =
    let (r', e, n) =
      register_all-names s ts (with_tool t r) d.1 (with_tool-IsFresh t r ts d.0 h.1) in
    (
      r',
      rw (h.0, register) e,
      n
          ∙ ap (λ l. l ++ allowed_names s ts) (with_tool-names s t r h.0)
          ∙ append_assoc (names (list_tools_for r s)) (allowed_names s (t ∷ []))
              (allowed_names s ts)
          ∙ ap (λ l. names (list_tools_for r s) ++ l) (sym (allowed_names-cons s t ts)),
    )

-- The built-in tools of each specialist.
abbrev pub tools_of : SpecialistType → List String
tools_of research = "web_search" ∷ "file_read" ∷ "file_write" ∷ "api_call" ∷ []
tools_of data_analysis =
    "file_read" ∷ "file_write" ∷ "code_execution" ∷ "db_query" ∷ "api_call" ∷ []
tools_of writing = "file_read" ∷ "file_write" ∷ []
tools_of SpecialistType.code_execution = "file_read" ∷ "file_write" ∷ "code_execution" ∷ []

allowed_names-tools_of :
    (tools : BuiltinTools) (s : SpecialistType) → allowed_names s (registrations tools) ≡ tools_of s
unfolding allowed_names allows value
allowed_names-tools_of tools research = refl
allowed_names-tools_of tools data_analysis = refl
allowed_names-tools_of tools writing = refl
allowed_names-tools_of tools SpecialistType.code_execution = refl

-- In a registry without tools of these names, `register_builtin_tools` raises nothing, and each
-- specialist then sees the tools that it saw before and those of the table `tools_of`, in order.
pub register_builtin_tools-visible :
    (tools : BuiltinTools) (r : ToolRegistry) (s : SpecialistType)
    → All
        (λ name. is_some (lookup name r.tools) ≡ false)
        ("web_search" ∷ "file_read" ∷ "file_write" ∷ "code_execution" ∷ "db_query" ∷ "api_call"
          ∷ [])
    → (r' : ToolRegistry) × (register_builtin_tools tools r ≡ ok r')
      × (names (list_tools_for r' s) ≡ names (list_tools_for r s) ++ tools_of s)
unfolding register_builtin_tools registered_names
register_builtin_tools-visible tools r s h =
    let (r', e, n) =
      register_all-names s (registrations tools) r
        (refl, (refl, (refl, (refl, (refl, (refl, tt)))))) h in
    (r', e, n ∙ ap (λ l. names (list_tools_for r s) ++ l) (allowed_names-tools_of tools s))
