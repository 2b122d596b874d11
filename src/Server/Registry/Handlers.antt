-- ===== src/Server/Registry/Handlers.antt =====
-- A registry whose `add` refuses an empty handler holds none, so calls never meet one.
use cxxmcp.Prelude.{
  ◌≡◌, ◌≢◌, refl, ap, sym, ◌∙◌, inl, inr, Bool, true, false, Bytes, text, Option, none, some, List,
  [], ◌∷◌, Result, ok, err, Error, guarded, arith, Option-cases,
}
use cxxmcp.Prelude.Dict.{find, find-emplace}
use cxxmcp.Server.Registry.Names.{validate_tool_name}
use cxxmcp.Server.Registry.Catalog.{
  Entry, Registry, empty, insert, add_checked, add, list_if, list, move, Call, adds, lists, moves,
  step, run,
}
use cxxmcp.Server.Registry.Tools.{
  ToolDefinition, ToolCall, SessionContext, ToolHandler, Validator, validate_tool_task_support,
  validate_tool_input_schema, guarded_call, check_tool, handle, call_entry, call_tool, Tools,
}

module _ {D H : Type 0} (key_of : D → Bytes) (check : D → Option H → Result (Unit {0}))
    (exists : Bytes) (refuses : (d : D) → check d none ≢ ok tt) where
  abbrev IsHandled : Registry D H → Type 0
  IsHandled r = (k : Bytes) (e : Entry D H) → find k r.entries ≡ some e → e.handler ≢ none

  insert-IsHandled :
      (key : Bytes) (d : D) (h : Option H) (r : Registry D H)
      → h ≢ none
      → IsHandled r
      → IsHandled (insert key (record { definition = d; handler = h }) exists r).0
  unfolding insert
  insert-IsHandled key d h r callable handled k e there none_here =
      elim (Option-cases (find key r.entries)) [
        | inl new ↦
            handled k e
              (ground (
                arith,
                callable,
                none_here,
                there,
                new,
                find-emplace key k (record { definition = d; handler = h }) r.entries,
              ))
              none_here
        | inr (w, old) ↦ handled k e (ground (arith, there, old)) none_here
      ]

  add_checked-IsHandled :
      (d : D) (h : Option H) (checked : Result (Unit {0})) (r : Registry D H)
      → check d h ≡ checked
      → IsHandled r
      → IsHandled (add_checked key_of check exists d h checked r).0
  unfolding add_checked
  add_checked-IsHandled d h (err e) r is handled = handled
  add_checked-IsHandled d h (ok tt) r is handled =
      insert-IsHandled (key_of d) d h r (λ e. refuses d (ap (check d) (sym e) ∙ is)) handled

  list_if-IsHandled :
      (dirty : Bool) (r : Registry D H) → IsHandled r → IsHandled (list_if key_of dirty r).0
  unfolding list_if
  list_if-IsHandled true r handled = handled
  list_if-IsHandled false r handled = handled

  step-IsHandled :
      (r : Registry D H) (c : Call D H) → IsHandled r → IsHandled (step key_of check exists r c)
  unfolding step add list move
  step-IsHandled r (adds d h) handled = add_checked-IsHandled d h (check d h) r refl handled
  step-IsHandled r lists handled = list_if-IsHandled r.cache_dirty r handled
  step-IsHandled r moves handled = handled

  run-IsHandled :
      (r : Registry D H) (cs : List (Call D H))
      → IsHandled r
      → IsHandled (run key_of check exists r cs)
  unfolding run
  run-IsHandled r [] handled = handled
  run-IsHandled r (c ∷ cs) handled =
      run-IsHandled (step key_of check exists r c) cs (step-IsHandled r c handled)

refused : (g : Result (Unit {0})) (e : Error) → guarded {A = Unit {0}} g (err e) ≢ ok tt
refused (ok tt) e h = cc
refused (err e') e h = cc

refuses_empty :
    {Json : Type 0} (Host Token : Type 0) (d : ToolDefinition Json)
    → check_tool {Host = Host} {Token = Token} d none ≢ ok tt
unfolding check_tool
refuses_empty Host Token d h = refused (validate_tool_name d.name) _ h

guarded_call_answers :
    {A : Type 0} (g : Result (Unit {0})) (rest : Option (Result A))
    → rest ≢ none
    → guarded_call g rest ≢ none
guarded_call_answers (ok tt) rest some_rest h = some_rest h
guarded_call_answers (err e) rest some_rest h = cc

module _ {Json Host Token : Type 0} where
  abbrev pub tools_after :
      List (Call (ToolDefinition Json) (ToolHandler Json Host Token)) → Tools Json Host Token
  tools_after cs = run (λ d. d.name) check_tool (text "tool already exists") empty cs

module _ {Json Host Token : Type 0} (is_empty : Json → Bool) where
  handle_answers :
      (d : ToolDefinition Json) (o : Option (ToolHandler Json Host Token)) (call : ToolCall Json)
      (session : SessionContext Host) (token : Token) (v : Option (Validator Json))
      → o ≢ none
      → handle is_empty d o call session token v ≢ none
  unfolding handle
  handle_answers d none call session token v callable h = callable refl
  handle_answers d (some handler) call session token v callable h = cc

  entry_answers :
      (entry : Entry (ToolDefinition Json) (ToolHandler Json Host Token)) (call : ToolCall Json)
      (session : SessionContext Host) (token : Token) (v : Option (Validator Json))
      → entry.handler ≢ none
      → call_entry is_empty entry call session token v ≢ none
  unfolding call_entry
  entry_answers entry call session token v callable =
      guarded_call_answers (validate_tool_task_support entry.definition call) _ (
        guarded_call_answers (validate_tool_input_schema is_empty entry.definition call.arguments v)
          _ (handle_answers entry.definition entry.handler call session token v callable))

  -- In every registry that additions, listings and moves lead to from an empty one, a call answers, with a result or an
  -- error: it never reaches an empty handler.
  pub call_tool_answers :
      (cs : List (Call (ToolDefinition Json) (ToolHandler Json Host Token))) (call : ToolCall Json)
      (session : SessionContext Host) (token : Token) (v : Option (Validator Json))
      → call_tool is_empty (tools_after cs) call session token v ≢ none
  unfolding call_tool
  call_tool_answers cs call session token v silent =
      let handled =
        run-IsHandled (λ d. d.name) check_tool (text "tool already exists")
          (refuses_empty Host Token) empty cs
          (unfold empty find in λ k e there. absurd (cc there)) in
      elim (Option-cases (find call.name (tools_after cs).entries)) [
        | inl e ↦ ground (arith, silent, e)
        | inr (entry, e) ↦
            entry_answers entry call session token v (handled call.name entry e)
              (ground (arith, silent, e))
      ]
