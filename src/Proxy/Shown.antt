-- ===== src/Proxy/Shown.antt =====
-- Which tools a filtered listing shows, of internal/proxy/stdio.go.
use nockguard.Base.{
  ℕ, Bool, true, false, not, ◌&&◌, Option, none, some, List, [], ◌∷◌, ◌≡◌, refl, ap, ◌∙◌, arith,
  if◌then◌else◌, Text,
}
use nockguard.Policy.Evaluate.{evaluate}
use nockguard.Proxy.Pins.{PinCause}
use nockguard.Proxy.Gate.State.{Gate, append_audit, append_audit_by}
use nockguard.Proxy.Listed.{
  ListedTool, ListPage, tool_page, kept, PageView, invalid, is_denied, pin_cause, hidden_for, hide,
  keep, named, filter_tools, finish_listing, filter_page, view_page, filter_tool_list_response,
}

-- The members that pass the test, in order.
abbrev pub select {ℓ} : {A : Type ℓ} → (A → Bool) → List A → List A
select p [] = []
select p (x ∷ xs) = let rest = select p xs in if p x then x ∷ rest else rest

abbrev pub is_free : Option PinCause → Bool
is_free none = true
is_free (some c) = false

module _ (quote : Text → Text) (seq : ℕ) where
  -- The policy does not deny the tool, and it passes the pin check on what the page shows of it.
  abbrev pub visible_name : PageView → Gate → Option Text → Bool
  visible_name view g none = false
  visible_name view g (some name) =
      not (is_denied quote seq (evaluate g.engine g.agent name).verdict)
      && is_free (pin_cause quote seq view name g)

  abbrev pub is_visible : PageView → Gate → ListedTool → Bool
  is_visible view g tool = visible_name view g tool.name

  -- The policy that a gate goes by.
  record SamePolicy (g h : Gate) : Type 0 where
    pub engine : h.engine ≡ g.engine
    pub agent : h.agent ≡ g.agent
    pub upstream_id : h.upstream_id ≡ g.upstream_id

  hide-SamePolicy :
      (name : Text) (reason : Option Text) (g : Gate) → SamePolicy g (hide quote seq name reason g)
  unfolding append_audit append_audit_by
  hide-SamePolicy name none g = record { engine = refl; agent = refl; upstream_id = refl }
  hide-SamePolicy name (some reason) g = record {
    engine = ground arith;
    agent = ground arith;
    upstream_id = ground arith;
  }

  is_visible-same :
      (view : PageView) (g h : Gate) (tools : List ListedTool)
      → SamePolicy g h
      → select (is_visible view h) tools ≡ select (is_visible view g) tools
  is_visible-same view g h tools s = rw s.engine (rw s.agent (rw s.upstream_id refl))

  keep-visible :
      (view : PageView) (tool : ListedTool) (name : Text) (g : Gate) (more : List ListedTool)
      → tool.name ≡ some name
      → keep quote seq tool (hidden_for quote seq view name g) more
        ≡ (if is_visible view g tool then tool ∷ more else more)
  unfolding hidden_for
  keep-visible view tool name g more e = ground (arith, e)

  named-eq-some : (o : Option Text) (name : Text) → named quote seq o ≡ some name → o ≡ some name
  named-eq-some none name h = cc
  named-eq-some (some other) name h = ground arith

  filter_tools-visible :
      (view : PageView) (tools : List ListedTool) (g : Gate) (ts : List ListedTool)
      → (filter_tools quote seq view tools g).1 ≡ some ts
      → ts ≡ select (is_visible view g) tools
  unfolding filter_tools
  filter_tools-visible view [] g ts h = ground arith
  filter_tools-visible view (tool ∷ tools) g ts h =
      go (filter_tools-visible view tools) (named quote seq tool.name) refl
    where
      Tail : Type 0
      Tail =
          (g' : Gate) (ts' : List ListedTool)
          → (filter_tools quote seq view tools g').1 ≡ some ts'
          → ts' ≡ select (is_visible view g') tools

      go :
          Tail
          → (o : Option Text) → named quote seq tool.name ≡ o
          → ts ≡ select (is_visible view g) (tool ∷ tools)
      go tail none e = absurd (let bad = rw (e, filter_tools) at h in cc)
      go tail (some name) e = rest (filter_tools quote seq view tools next).1 refl
        where
          next : Gate
          next = hide quote seq name (hidden_for quote seq view name g) g

          rest :
              (o : Option (List ListedTool))
              → (filter_tools quote seq view tools next).1 ≡ o
              → ts ≡ select (is_visible view g) (tool ∷ tools)
          rest none f = absurd (ground (arith, e, f))
          rest (some more) f =
              let stays : ts ≡ keep quote seq tool (hidden_for quote seq view name g) more =
                ground (arith, e, f) in
              let ih : more ≡ select (is_visible view g) tools =
                tail next more f
                ∙ is_visible-same view g next tools
                    (hide-SamePolicy name (hidden_for quote seq view name g) g) in
              stays
              ∙ keep-visible view tool name g more (named-eq-some tool.name name e)
              ∙ ap (λ m. if is_visible view g tool then tool ∷ m else m) ih

  finish_listing-kept :
      (view : PageView) (page : ListPage) (cursor : Text) (tools ts : List ListedTool) (g : Gate)
      → (finish_listing quote seq view page cursor tools g).1 ≡ kept ts
      → ts ≡ tools
  unfolding finish_listing invalid
  finish_listing-kept view page cursor tools ts g h = ground arith

  view_page-SamePolicy :
      (build : ℕ) (page : ListPage) (g : Gate) → SamePolicy g (view_page quote seq build page g).0
  unfolding view_page
  view_page-SamePolicy build page g = record {
    engine = ground arith;
    agent = ground arith;
    upstream_id = ground arith;
  }

  -- A listing that goes on to the agent shows, in the server's order, exactly the tools of the page
  -- that the policy does not deny and that pass the pin check on what the page shows of them.
  pub filter_tool_list_response-visible :
      (build : ℕ) (page : ListPage) (g : Gate) (ts : List ListedTool)
      → (filter_tool_list_response quote seq build (tool_page page) g).1 ≡ kept ts
      → ts ≡ select (is_visible (view_page quote seq build page g).1 g) page.tools
  unfolding filter_tool_list_response filter_page invalid
  filter_tool_list_response-visible build page g ts h = go filtered.1 refl
    where
      g' : Gate
      g' = (view_page quote seq build page g).0

      view : PageView
      view = (view_page quote seq build page g).1

      cursor : Text
      cursor = (view_page quote seq build page g).2

      filtered : Gate × Option (List ListedTool)
      filtered = filter_tools quote seq view page.tools g'

      go :
          (o : Option (List ListedTool))
          → filtered.1 ≡ o
          → ts ≡ select (is_visible view g) page.tools
      go none e = absurd (ground (arith, e))
      go (some tools) e =
          let same : ts ≡ tools =
            ground (arith, e, finish_listing-kept view page cursor tools ts filtered.0) in
          same
          ∙ filter_tools-visible view page.tools g' tools e
          ∙ is_visible-same view g g' page.tools (view_page-SamePolicy build page g)
