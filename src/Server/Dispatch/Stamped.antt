-- ===== src/Server/Dispatch/Stamped.antt =====
-- server.cpp: the fields that a result must have on the newer wire.
use cxxmcp.Prelude.{
  ◌≡◌, refl, sym, ap, ◌∙◌, Bool, true, false, not, ◌||◌, if◌then◌else◌, Bool-cases, inl, inr, Bytes,
  text, bytes_eq, bytes_eq_refl, Option, none, some, pos,
}
use cxxmcp.Prelude.Dict.{Dict, find}
use cxxmcp.Protocol.Json.{View, JsonApi, JsonLaws, member, member_of, is_object}
use cxxmcp.Protocol.Types.{JsonRpcRequest}
use cxxmcp.Server.Dispatch.Parts.{Context, Parts}
use cxxmcp.Server.Dispatch.Responses.{has_value}
use cxxmcp.Server.Dispatch.Wire.{
  stamped_option, set_if_missing, with_default, with_cache_hints, stamped_result, stamped,
  request_wire_version, wire_version_requires_result_type, method_requires_cache_hints,
}
use cxxmcp.Server.Dispatch.Handle.{State, handle_request}

module _ {Json : Type 0} (api : JsonApi Json) (laws : JsonLaws api) where
  -- Objects stay objects, and keep their members.
  abbrev IsExtended : Json → Json → Type 0
  IsExtended j j' =
      (is_object (api.view j') ≡ true)
      × ((key : Bytes) → has_value (member api j key) ≡ true → has_value (member api j' key) ≡ true)

  object_of : (v : View Json) → is_object v ≡ true → (ms : Dict Json) × (v ≡ View.object ms)
  object_of (View.object ms) h = (ms, refl)
  object_of View.null h = absurd cc
  object_of View.real h = absurd cc
  object_of (View.boolean b) h = absurd cc
  object_of (View.integer z) h = absurd cc
  object_of (View.string s) h = absurd cc
  object_of (View.array items) h = absurd cc

  IsExtended-refl : (j : Json) → is_object (api.view j) ≡ true → IsExtended j j
  IsExtended-refl j h = (h, λ key e. e)

  set_member-IsExtended :
      (key : Bytes) (value j : Json)
      → is_object (api.view j) ≡ true
      → IsExtended j (api.set_member key value j)
        × (has_value (member api (api.set_member key value j) key) ≡ true)
  unfolding member
  set_member-IsExtended key value j h =
      let (ms, seen) = object_of (api.view j) h in
      let (ms', view', members) = laws.view_set_member key value j ms seen in
      let before : (other : Bytes)
          → has_value (member api j other) ≡ true
          → has_value (find other ms) ≡ true =
        λ other e. sym (ap (λ v. has_value (member_of api v other)) seen) ∙ e in
      let kept : (other : Bytes)
          → has_value (member api j other) ≡ true
          → has_value (if bytes_eq key other then some value else find other ms) ≡ true =
        λ other e. elim (Bool-cases (bytes_eq key other)) [
          | inl same ↦ rw same refl
          | inr differ ↦ rw differ (before other e)
        ] in
      (
        (rw view' refl, λ other e. rw view' (rw (members other) (kept other e))),
        rw view' (rw (members key, bytes_eq_refl key) refl),
      )

  set_if_missing-IsExtended :
      (key : Bytes) (value j : Json) (old : Option Json)
      → is_object (api.view j) ≡ true
      → member api j key ≡ old
      → IsExtended j (set_if_missing api key value j old)
        × (has_value (member api (set_if_missing api key value j old) key) ≡ true)
  set_if_missing-IsExtended key value j none h e = set_member-IsExtended key value j h
  set_if_missing-IsExtended key value j (some old) h e = (IsExtended-refl j h, rw e refl)

  with_default-IsExtended :
      (key : Bytes) (value j : Json)
      → is_object (api.view j) ≡ true
      → IsExtended j (with_default api key value j)
        × (has_value (member api (with_default api key value j) key) ≡ true)
  unfolding with_default
  with_default-IsExtended key value j h =
      set_if_missing-IsExtended key value j (member api j key) h refl

  -- The fields that the newer wire asks for, the last two only of some methods.
  abbrev pub IsComplete : Bool → Json → Type 0
  IsComplete cached result =
      (has_value (member api result (text "resultType")) ≡ true)
      × (((has_value (member api result (text "ttlMs")) || not cached) ≡ true)
          × ((has_value (member api result (text "cacheScope")) || not cached) ≡ true))

  or_true : (b : Bool) → (b || true) ≡ true
  or_true true = refl
  or_true false = refl

  stamped_result-IsComplete :
      (request : JsonRpcRequest Json) (context : Context) (result : Json)
      → is_object (api.view result) ≡ true
      → wire_version_requires_result_type (request_wire_version api request context) ≡ true
      → IsComplete
          (method_requires_cache_hints request.method)
          (stamped_result api request context result)
  unfolding stamped_result with_cache_hints
  stamped_result-IsComplete request context result h newer =
      let (typed, has_type) =
        with_default-IsExtended (text "resultType") (api.of_string (text "complete")) result h in
      let (timed, has_time) =
        with_default-IsExtended (text "ttlMs") (api.of_integer (pos 0)) _ typed.0 in
      let (scoped, has_scope) =
        with_default-IsExtended (text "cacheScope") (api.of_string (text "private")) _ timed.0 in
      elim (Bool-cases (method_requires_cache_hints request.method)) [
        | inl cached ↦
            rw (h, newer)
              (rw cached (
                scoped.1 _ (timed.1 _ has_type),
                (rw (scoped.1 _ has_time) refl, rw has_scope refl),
              ))
        | inr plain ↦ rw (h, newer) (rw plain (has_type, (or_true _, or_true _)))
      ]

  some_injective : {a b : Json} → some a ≡ some b → a ≡ b
  some_injective e = cc

  object_of_stamped :
      (request : JsonRpcRequest Json) (context : Context) (given : Json)
      → is_object (api.view (stamped_result api request context given)) ≡ true
      → is_object (api.view given) ≡ true
  unfolding stamped_result
  object_of_stamped request context given h = elim (Bool-cases (is_object (api.view given))) [
    | inl object ↦ object
    | inr other ↦
        let kept : stamped_result api request context given ≡ given = rw other refl in
        sym (ap (λ j. is_object (api.view j)) kept) ∙ h
  ]

  stamped_option-IsComplete :
      (request : JsonRpcRequest Json) (context : Context) (given : Option Json) (result : Json)
      → stamped_option api request context given ≡ some result
      → is_object (api.view result) ≡ true
      → wire_version_requires_result_type (request_wire_version api request context) ≡ true
      → IsComplete (method_requires_cache_hints request.method) result
  stamped_option-IsComplete request context none result e h newer = absurd cc
  stamped_option-IsComplete request context (some given) result e h newer =
      let same = some_injective e in
      rw (← same) (
        stamped_result-IsComplete request context given
          (object_of_stamped request context given (ap (λ j. is_object (api.view j)) same ∙ h))
          newer)

  -- Where the JSON library does what it documents: when the wire version of a request is 2026-07-28 or
  -- DRAFT-2026-v1 and handle_request answers with a result that is an object, this object has a member
  -- resultType, and for the methods that need caching hints also ttlMs and cacheScope.
  pub handle_request-stamped :
      {F : Type 0} (is_empty : Json → Bool) (parts : Parts Json) (request : JsonRpcRequest Json)
      (context : Context) (before : State F) (result : Json)
      → (handle_request api is_empty parts request context before).1.result ≡ some result
      → is_object (api.view result) ≡ true
      → wire_version_requires_result_type (request_wire_version api request context) ≡ true
      → (has_value (member api result (text "resultType")) ≡ true)
        × ((has_value (member api result (text "ttlMs"))
              || not (method_requires_cache_hints request.method))
            ≡ true)
        × ((has_value (member api result (text "cacheScope"))
              || not (method_requires_cache_hints request.method))
            ≡ true)
  unfolding handle_request stamped
  handle_request-stamped is_empty parts request context before result e h newer =
      let complete = stamped_option-IsComplete request context _ result e h newer in
      (complete.0, complete.1.0, complete.1.1)
