-- ===== src/Server/Dispatch/Fits.antt =====
-- server.cpp: what holds of the branch that is chosen.
use cxxmcp.Prelude.{
  ℕ, ◌≡◌, refl, Bool, true, ◌⊎◌, if◌then◌else◌, Bool-cases, inl, inr, Bytes, text, bytes_eq, Option,
  none, some, List, [], ◌∷◌, map, Result, ok, err, All, All-append,
}
use cxxmcp.Protocol.Json.{JsonApi}
use cxxmcp.Protocol.Types.{JsonRpcRequest, JsonRpcResponse}
use cxxmcp.Server.Subscriptions.{Subscriptions}
use cxxmcp.Server.Dispatch.Parts.{
  Outcome, returned, threw, threw_unknown, ◌then◌, Context, Operation, Parts, RateLimitRequest,
  RateLimitDecision,
}
use cxxmcp.Server.Dispatch.Responses.{
  Responds, RespondsIfAny, optional_branch-Responds, listing_branch-Responds, plain_branch-Responds,
  tools_get_branch-IsResponse, call_parsed-Responds, subscription_branch-Responds, logged-Responds,
  initialize_reply-IsResponse, result-IsResponse, error_reply-IsResponse,
}
use cxxmcp.Server.Dispatch.Branches.{tools_call_branch, logging_branch}
use cxxmcp.Server.Dispatch.Methods.{
  choose, first_branches, task_branches, catalog_branches, client_branches, later_branches,
  unchanged, method_not_found, raw_context_reply, raw_reply, or_next, dispatch, Handled,
}
use cxxmcp.Server.Dispatch.Handle.{limit_by, limited, limited_by, admitted}

choose-branches :
    {A : Type 0} (P : A → Type 0) (method : Bytes) (branches : List (Bytes × A)) (otherwise : A)
    → All (λ (name, branch). bytes_eq method name ≡ true → P branch) branches
    → P otherwise
    → P (choose method branches otherwise)
unfolding choose
choose-branches P method [] otherwise hs h = h
choose-branches P method ((name, branch) ∷ branches) otherwise (here, hs) h =
    elim (Bool-cases (bytes_eq method name)) [
      | inl e ↦ rw e (here e)
      | inr e ↦ rw e (choose-branches P method branches otherwise hs h)
    ]

abbrev pub ChangesSubscriptions : Bytes → Type 0
ChangesSubscriptions method =
    (bytes_eq method (text "resources/subscribe") ≡ true)
    ⊎ (bytes_eq method (text "resources/unsubscribe") ≡ true)

module _ {Json : Type 0} (api : JsonApi Json) (is_empty : Json → Bool) (parts : Parts Json)
    (request : JsonRpcRequest Json) (subscriptions : Subscriptions) where
  -- What holds of a branch: it responds, and only two methods change the subscriptions.
  abbrev pub Fits : Handled Json → Type 0
  Fits handled =
      Responds request.id handled.1
      × ((handled.0 ≡ subscriptions) ⊎ ChangesSubscriptions request.method)

  unchanged-All :
      (branches : List (Bytes × Outcome (JsonRpcResponse Json)))
      → All (λ (name, branch). Responds request.id branch) branches
      → All
          (λ (name, branch). bytes_eq request.method name ≡ true → Fits branch)
          (map (unchanged api is_empty parts subscriptions) branches)
  unchanged-All [] hs = tt
  unchanged-All ((name, branch) ∷ branches) (h, hs) =
      (λ _. (h, inl refl), unchanged-All branches hs)

  first_branches-All :
      All (λ (name, branch). Responds request.id branch) (first_branches api is_empty parts request)
  unfolding first_branches
  first_branches-All = (
    initialize_reply-IsResponse api is_empty parts request,
    (
      result-IsResponse api is_empty parts request _,
      (result-IsResponse api is_empty parts request _, tt),
    ),
  )

  module _ (context : Context) (token : ℕ) where
    task_branches-All :
        All
          (λ (name, branch). Responds request.id branch)
          (task_branches api is_empty parts request context token)
    unfolding task_branches
    task_branches-All =
        let optional = λ (operation : Option (Operation Json)) (message : Bytes).
          optional_branch-Responds api is_empty parts request operation message context token in
        (optional _ _, (optional _ _, (optional _ _, (optional _ _, tt))))

    catalog_branches-All :
        All
          (λ (name, branch). Responds request.id branch)
          (catalog_branches api is_empty parts request context token)
    unfolding catalog_branches tools_call_branch
    catalog_branches-All =
        let listing = λ (operation : Operation Json) (message : Bytes).
          listing_branch-Responds api is_empty parts request operation message context token in
        let plain = λ (operation : Operation Json).
          plain_branch-Responds api is_empty parts request operation context token in
        (
          listing _ _,
          (
            tools_get_branch-IsResponse api is_empty parts request,
            (
              call_parsed-Responds api is_empty parts request context token _,
              (listing _ _, (plain _, (listing _ _, (plain _, (listing _ _, tt))))),
            ),
          ),
        )

    client_branches-All :
        All
          (λ (name, branch). Responds request.id branch)
          (client_branches api is_empty parts request context token)
    unfolding client_branches logging_branch
    client_branches-All =
        let optional = λ (operation : Option (Operation Json)) (message : Bytes).
          optional_branch-Responds api is_empty parts request operation message context token in
        (optional _ _, (optional _ _, (logged-Responds api is_empty parts request _, tt)))

    later_branches-All :
        All
          (λ (name, branch). bytes_eq request.method name ≡ true → Fits branch)
          (later_branches api is_empty parts request context token subscriptions)
    unfolding later_branches
    later_branches-All =
        All-append _ _ _ (unchanged-All _ (All-append _ _ _ task_branches-All catalog_branches-All))
          (
            (λ e. (
              subscription_branch-Responds api is_empty parts request context subscriptions,
              inr (inl e),
            )),
            (
              (λ e. (
                subscription_branch-Responds api is_empty parts request context subscriptions,
                inr (inr e),
              )),
              unchanged-All _ client_branches-All,
            ),
          )

    or_next-Fits :
        (raw : Outcome (Option (JsonRpcResponse Json))) (next : Handled Json)
        → RespondsIfAny request.id raw
        → Fits next
        → Fits (or_next api is_empty parts subscriptions raw next)
    or_next-Fits (returned none) next h fits = fits
    or_next-Fits (returned (some response)) next h fits = (h, inl refl)
    or_next-Fits (threw what) next h fits = (tt, inl refl)
    or_next-Fits threw_unknown next h fits = (tt, inl refl)

    decided-RespondsIfAny :
        (decision : Outcome (Result RateLimitDecision))
        → RespondsIfAny request.id
            (decision then (λ d. returned (limited_by api is_empty parts request d)))
    decided-RespondsIfAny (returned (err error)) =
        error_reply-IsResponse api is_empty parts request _ _ _
    decided-RespondsIfAny (returned (ok decision)) = elim (Bool-cases decision.allowed) [
      | inl e ↦ rw e tt
      | inr e ↦ rw e (error_reply-IsResponse api is_empty parts request _ _ _)
    ]
    decided-RespondsIfAny (threw what) = tt
    decided-RespondsIfAny threw_unknown = tt

    limit_by-RespondsIfAny :
        (limiter : Option (RateLimitRequest → Outcome (Result RateLimitDecision)))
        → RespondsIfAny request.id (limit_by api is_empty parts request context limiter)
    limit_by-RespondsIfAny none = tt
    limit_by-RespondsIfAny (some check) = decided-RespondsIfAny _

    pub admitted-Fits :
        RespondsIfAny request.id (raw_context_reply api is_empty parts request context token)
        → RespondsIfAny request.id (raw_reply api is_empty parts request context)
        → Fits (admitted api is_empty parts request context token subscriptions)
    unfolding admitted dispatch limited method_not_found
    admitted-Fits raw_context raw = or_next-Fits _ _ (limit_by-RespondsIfAny parts.rate_limiter) (
        choose-branches Fits request.method _ _ (unchanged-All _ first_branches-All) (
          or_next-Fits _ _ raw_context (
            or_next-Fits _ _ raw (
              choose-branches Fits request.method _ _ later_branches-All
                (error_reply-IsResponse api is_empty parts request _ _ _, inl refl)))))
