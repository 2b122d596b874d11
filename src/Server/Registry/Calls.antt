-- ===== src/Server/Registry/Calls.antt =====
-- When a tool call succeeds, and that it always answers.
use cxxmcp.Prelude.{
  ◌≡◌, ◌↔◌, ◌⊎◌, inl, inr, refl, ap, ◌∙◌, Bool, true, false, Bytes, text, Option, none, some,
  Result, ok, err, ok_injective, guarded, ErrorCode, arith, Option-cases,
}
use cxxmcp.Prelude.Dict.{find}
use cxxmcp.Server.Registry.Catalog.{Entry}
use cxxmcp.Server.Registry.Tools.{
  TaskSupport, forbidden, optional, required, ToolDefinition, ToolCall, ToolResult, SessionContext,
  ToolHandler, Validator, tool_input, tool_output, or_schema_error, task_support, is_requested,
  check_task_support, validate_tool_task_support, validate_tool_input_schema,
  validate_tool_output_schema, checked_result, guarded_call, context_of, handle, call_entry,
  call_tool, Tools,
}

-- A forbidden task is not requested, a required one is.
abbrev pub IsSupported : TaskSupport → Bool → Type 0
IsSupported forbidden requested = requested ≡ false
IsSupported optional requested = Unit
IsSupported required requested = requested ≡ true

support_iff :
    {Json : Type 0} (d : ToolDefinition Json) (call : ToolCall Json)
    → (validate_tool_task_support d call ≡ ok tt)
      ↔ IsSupported (task_support d) (is_requested call.task)
unfolding validate_tool_task_support
support_iff d call = cases (task_support d) (is_requested call.task) d.name
  where
    cases :
        (s : TaskSupport) (requested : Bool) (name : Bytes)
        → (check_task_support s requested name ≡ ok tt) ↔ IsSupported s requested
    cases forbidden true name = ground arith
    cases forbidden false name = ground arith
    cases optional requested name = (λ _. tt, λ _. refl)
    cases required true name = ground arith
    cases required false name = ground arith

or_schema_error_iff :
    (code : ErrorCode) (message name : Bytes) (valid : Result (Unit {0}))
    → (or_schema_error code message name valid ≡ ok tt) ↔ (valid ≡ ok tt)
unfolding or_schema_error
or_schema_error_iff code message name (ok tt) = ground arith
or_schema_error_iff code message name (err e) = ground arith

guarded_iff :
    {A : Type 0} (g : Result (Unit {0})) (rest : Result A) (a : A)
    → (guarded g rest ≡ ok a) ↔ ((g ≡ ok tt) × (rest ≡ ok a))
guarded_iff (ok tt) rest a = ground arith
guarded_iff (err e) rest a = ground arith

guarded_call_iff :
    {A : Type 0} (g : Result (Unit {0})) (rest : Option (Result A)) (a : A)
    → (guarded_call g rest ≡ some (ok a)) ↔ ((g ≡ ok tt) × (rest ≡ some (ok a)))
guarded_call_iff (ok tt) rest a = ground arith
guarded_call_iff (err e) rest a = ground arith

module _ {Json : Type 0} (is_empty : Json → Bool) where
  -- There is no validator, or no schema, or the validator accepts.
  abbrev pub IsValidInput : Option (Validator Json) → ToolDefinition Json → Json → Type 0
  IsValidInput none d arguments = Unit
  IsValidInput (some validate) d arguments =
      (is_empty d.input_schema ≡ true)
      ⊎ (validate d.input_schema arguments tool_input d.name ≡ ok tt)

  abbrev pub IsValidOutput :
      Option (Validator Json) → ToolDefinition Json → ToolResult Json → Type 0
  IsValidOutput none d result = Unit
  IsValidOutput (some validate) d result =
      ((d.output_schema_present ≡ false) × (is_empty d.output_schema ≡ true))
      ⊎ ((content : Json) × (result.structured_content ≡ some content)
          × (validate d.output_schema content tool_output d.name ≡ ok tt))

  input_iff :
      (v : Option (Validator Json)) (d : ToolDefinition Json) (arguments : Json)
      → (validate_tool_input_schema is_empty d arguments v ≡ ok tt) ↔ IsValidInput v d arguments
  unfolding validate_tool_input_schema
  input_iff none d arguments = (λ _. tt, λ _. refl)
  input_iff (some validate) d arguments = ground (
    arith,
    or_schema_error_iff ErrorCode.invalid_params (text "tool input failed schema validation") d.name
        (validate d.input_schema arguments tool_input d.name),
  )

  output_iff :
      (v : Option (Validator Json)) (d : ToolDefinition Json) (result : ToolResult Json)
      → (validate_tool_output_schema is_empty d result v ≡ ok tt) ↔ IsValidOutput v d result
  unfolding validate_tool_output_schema
  output_iff none d result = (λ _. tt, λ _. refl)
  output_iff (some validate) d result = elim (Option-cases result.structured_content) [
    | inl e ↦ ground arith
    | inr (content, e) ↦ ground (
      arith,
      or_schema_error_iff ErrorCode.internal_error (text "tool output failed schema validation")
          d.name (validate d.output_schema content tool_output d.name),
    )
  ]

  checked_result_iff :
      (v : Option (Validator Json)) (d : ToolDefinition Json) (returned : Result (ToolResult Json))
      (result : ToolResult Json)
      → (checked_result is_empty d v returned ≡ ok result)
        ↔ ((returned ≡ ok result) × IsValidOutput v d result)
  unfolding checked_result
  checked_result_iff v d (err e) result = ground arith
  checked_result_iff v d (ok result') result =
      let valid = output_iff v d result' in
      (
        λ h.
            let (a, same) = (guarded_iff _ (ok result') result).0 h in
            (same, rw (← ok_injective same) (valid.0 a)),
        λ (same, a).
            (guarded_iff _ (ok result') result).1 (valid.1 (rw (ok_injective same) a), same),
      )

module _ {Json Host Token : Type 0} (is_empty : Json → Bool) where
  -- The steps of a call that ends in `result`.
  pub record Succeeds (r : Tools Json Host Token) (call : ToolCall Json)
      (session : SessionContext Host) (token : Token) (v : Option (Validator Json))
      (result : ToolResult Json) : Type 0 where
    pub entry : Entry (ToolDefinition Json) (ToolHandler Json Host Token)
    pub handler : ToolHandler Json Host Token
    pub found_entry : find call.name r.entries ≡ some entry
    pub callable : entry.handler ≡ some handler
    pub supported : IsSupported (task_support entry.definition) (is_requested call.task)
    pub valid_input : IsValidInput is_empty v entry.definition call.arguments
    pub returned : handler (context_of call session token) ≡ ok result
    pub valid_output : IsValidOutput is_empty v entry.definition result

  handle_iff :
      (d : ToolDefinition Json) (o : Option (ToolHandler Json Host Token)) (call : ToolCall Json)
      (session : SessionContext Host) (token : Token) (v : Option (Validator Json))
      (result : ToolResult Json)
      → (handle is_empty d o call session token v ≡ some (ok result)) ↔ (
          (handler : ToolHandler Json Host Token) × (o ≡ some handler)
          × (handler (context_of call session token) ≡ ok result)
          × IsValidOutput is_empty v d result)
  unfolding handle
  handle_iff d none call session token v result =
      (λ h. absurd (cc h), λ (handler, e, _, _). absurd (cc e))
  handle_iff d (some handler) call session token v result =
      let checked =
        checked_result_iff is_empty v d (handler (context_of call session token)) result in
      (
        λ h. let (ret, valid) = checked.0 (cc h) in (handler, refl, ret, valid),
        λ (handler', e, ret, valid).
            let same : handler ≡ handler' = cc e in
            ap some (checked.1 (ap (λ f. f (context_of call session token)) same ∙ ret, valid)),
      )

  Succeeds-by :
      (r : Tools Json Host Token) (call : ToolCall Json) (session : SessionContext Host)
      (token : Token) (v : Option (Validator Json)) (result : ToolResult Json)
      (entry : Entry (ToolDefinition Json) (ToolHandler Json Host Token))
      → find call.name r.entries ≡ some entry
      → call_entry is_empty entry call session token v ≡ some (ok result)
      → Succeeds r call session token v result
  unfolding call_entry
  Succeeds-by r call session token v result entry found answered =
      let d = entry.definition in
      let (supported, rest) =
        (guarded_call_iff (validate_tool_task_support d call) _ result).0 answered in
      let (valid, handled) =
        (guarded_call_iff (validate_tool_input_schema is_empty d call.arguments v) _ result).0
          rest in
      let (handler, callable, returned, valid') =
        (handle_iff d entry.handler call session token v result).0 handled in
      record {
        entry = entry;
        handler = handler;
        found_entry = found;
        callable = callable;
        supported = (support_iff d call).0 supported;
        valid_input = (input_iff is_empty v d call.arguments).0 valid;
        returned = returned;
        valid_output = valid';
      }

  -- A call returns a result exactly when the tool is registered with a handler, a task is requested if
  -- the tool requires one and not if it forbids one, the validator, if there is one, accepts the
  -- arguments by an input schema that is not empty, the handler returns this result for the context
  -- that is made from the call and the session, and the validator accepts its structured content,
  -- which must be there, by an output schema that is present or not empty.
  pub call_tool_iff :
      (r : Tools Json Host Token) (call : ToolCall Json) (session : SessionContext Host)
      (token : Token) (v : Option (Validator Json)) (result : ToolResult Json)
      → (call_tool is_empty r call session token v ≡ some (ok result))
        ↔ Succeeds r call session token v result
  unfolding call_tool call_entry
  call_tool_iff r call session token v result = (
    λ h. elim (Option-cases (find call.name r.entries)) [
      | inl e ↦ absurd (missing e h)
      | inr (entry, e) ↦ Succeeds-by r call session token v result entry e (there entry e h)
    ],
    λ s.
        let d = s.entry.definition in
        rw (s.found_entry, call_tool)
          ((guarded_call_iff (validate_tool_task_support d call) _ result).1 (
            (support_iff d call).1 s.supported,
            (guarded_call_iff (validate_tool_input_schema is_empty d call.arguments v) _ result).1 (
              (input_iff is_empty v d call.arguments).1 s.valid_input,
              (handle_iff d s.entry.handler call session token v result).1
                  (s.handler, s.callable, s.returned, s.valid_output),
            ),
          )),
  )
    where
      missing :
          find call.name r.entries ≡ none
          → call_tool is_empty r call session token v ≡ some (ok result)
          → ⊥
      missing e h = ground arith

      there :
          (entry : Entry (ToolDefinition Json) (ToolHandler Json Host Token))
          → find call.name r.entries ≡ some entry
          → call_tool is_empty r call session token v ≡ some (ok result)
          → call_entry is_empty entry call session token v ≡ some (ok result)
      there entry e h = ground arith
