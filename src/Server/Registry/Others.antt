-- ===== src/Server/Registry/Others.antt =====
-- `PromptRegistry`, `ResourceRegistry` and `ResourceTemplateRegistry`. The fields that a registry only
-- carries are `rest`, and what a prompt or a resource handler returns is of a type `Answer`.
use cxxmcp.Prelude.{List, [], Bytes, text, Option, none, some, Result, ok, err, guarded, ErrorCode}
use cxxmcp.Prelude.Dict.{find}
use cxxmcp.Server.Registry.Names.{validate_registry_name, validate_registry_uri}
use cxxmcp.Server.Registry.Catalog.{Registry, registry_error, add, list}
use cxxmcp.Server.Registry.Tools.{SessionContext}

pub record Prompt (Json : Type 0) : Type 0 where
  pub name : Bytes
  pub rest : Json

pub record Resource (Json : Type 0) : Type 0 where
  pub uri : Bytes
  pub name : Bytes
  pub rest : Json

pub record ResourceTemplate (Json : Type 0) : Type 0 where
  pub uri_template : Bytes
  pub name : Bytes
  pub rest : Json

pub record PromptContext (Json Host Token : Type 0) : Type 0 where
  pub session : SessionContext Host
  pub arguments : Json
  pub cancellation : Token

pub record ResourceContext (Json Host Token : Type 0) : Type 0 where
  pub session : SessionContext Host
  pub uri : Bytes
  pub params : Json
  pub cancellation : Token

abbrev copied : {Host : Type 0} → SessionContext Host → SessionContext Host
copied session = record session { http_method = none; http_url = none }

-- `if (!handler)`, after the checks of the names
unfoldable pub check_handler : {H : Type 0} → Bytes → Option H → Result (Unit {0})
check_handler message none = err (registry_error ErrorCode.invalid_request message [])
check_handler message (some handler) = ok tt

abbrev pub PromptHandler : Type 0 → Type 0 → Type 0 → Type 0 → Type 0
PromptHandler Json Answer Host Token = PromptContext Json Host Token → Result Answer

abbrev pub ResourceHandler : Type 0 → Type 0 → Type 0 → Type 0 → Type 0
ResourceHandler Json Answer Host Token = ResourceContext Json Host Token → Result Answer

module _ {Json Answer Host Token : Type 0} where
  unfoldable pub check_prompt :
      Prompt Json → Option (PromptHandler Json Answer Host Token) → Result (Unit {0})
  check_prompt p handler =
      guarded (validate_registry_name p.name (text "prompt name"))
        (check_handler (text "prompt handler must be callable") handler)

  unfoldable pub add_prompt :
      Prompt Json
      → Option (PromptHandler Json Answer Host Token)
      → Registry (Prompt Json) (PromptHandler Json Answer Host Token)
      → Registry (Prompt Json) (PromptHandler Json Answer Host Token) × Result (Unit {0})
  add_prompt p handler r = add (λ p. p.name) check_prompt (text "prompt already exists") p handler r

  unfoldable pub list_prompts :
      Registry (Prompt Json) (PromptHandler Json Answer Host Token)
      → Registry (Prompt Json) (PromptHandler Json Answer Host Token) × List (Prompt Json)
  list_prompts r = list (λ p. p.name) r

  unfoldable pub prompt_answer :
      Option (PromptHandler Json Answer Host Token)
      → PromptContext Json Host Token
      → Option (Result Answer)
  prompt_answer none context = none
  prompt_answer (some handler) context = some (handler context)

  -- `none` is the exception of an empty handler.
  unfoldable pub get_prompt :
      Registry (Prompt Json) (PromptHandler Json Answer Host Token)
      → Bytes
      → Json
      → SessionContext Host
      → Token
      → Option (Result Answer)
  get_prompt r name arguments session token = elim (find name r.entries) [
    | none ↦ some (err (registry_error ErrorCode.invalid_request (text "prompt not found") name))
    | some entry ↦
        prompt_answer entry.handler
          (record { session = copied session; arguments = arguments; cancellation = token })
  ]

  unfoldable pub check_resource :
      Resource Json → Option (ResourceHandler Json Answer Host Token) → Result (Unit {0})
  check_resource s handler = guarded (validate_registry_uri s.uri (text "resource uri")) (
      guarded (validate_registry_name s.name (text "resource name"))
        (check_handler (text "resource handler must be callable") handler))

  unfoldable pub add_resource :
      Resource Json
      → Option (ResourceHandler Json Answer Host Token)
      → Registry (Resource Json) (ResourceHandler Json Answer Host Token)
      → Registry (Resource Json) (ResourceHandler Json Answer Host Token) × Result (Unit {0})
  add_resource s handler r =
      add (λ s. s.uri) check_resource (text "resource already exists") s handler r

  unfoldable pub list_resources :
      Registry (Resource Json) (ResourceHandler Json Answer Host Token)
      → Registry (Resource Json) (ResourceHandler Json Answer Host Token) × List (Resource Json)
  list_resources r = list (λ s. s.uri) r

  unfoldable pub resource_answer :
      Option (ResourceHandler Json Answer Host Token)
      → ResourceContext Json Host Token
      → Option (Result Answer)
  resource_answer none context = none
  resource_answer (some handler) context = some (handler context)

  unfoldable pub read_resource :
      Registry (Resource Json) (ResourceHandler Json Answer Host Token)
      → Bytes
      → Json
      → SessionContext Host
      → Token
      → Option (Result Answer)
  read_resource r uri params session token = elim (find uri r.entries) [
    | none ↦
        some (err (registry_error ErrorCode.resource_not_found (text "resource not found") uri))
    | some entry ↦
        resource_answer entry.handler
          (record { session = copied session; uri = uri; params = params; cancellation = token })
  ]

module _ {Json : Type 0} where
  -- A template has no handler: the map holds it alone.
  unfoldable pub check_template : ResourceTemplate Json → Option (Unit {0}) → Result (Unit {0})
  check_template t _ =
      guarded (validate_registry_uri t.uri_template (text "resource template uriTemplate"))
        (validate_registry_name t.name (text "resource template name"))

  unfoldable pub add_template :
      ResourceTemplate Json
      → Registry (ResourceTemplate Json) (Unit {0})
      → Registry (ResourceTemplate Json) (Unit {0}) × Result (Unit {0})
  add_template t r =
      add (λ t. t.uri_template) check_template (text "resource template already exists") t (some tt)
        r

  unfoldable pub list_templates :
      Registry (ResourceTemplate Json) (Unit {0})
      → Registry (ResourceTemplate Json) (Unit {0}) × List (ResourceTemplate Json)
  list_templates r = list (λ t. t.uri_template) r
