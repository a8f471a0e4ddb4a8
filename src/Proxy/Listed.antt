-- ===== src/Proxy/Listed.antt =====
-- The tools that an agent is shown, `filterToolListResponse` of internal/proxy/stdio.go, on a decoded
-- response. The hashes of the definitions on a page are given with it.
use nockguard.Base.{
  ℕ, Bool, true, false, not, ◌&&◌, ◌||◌, ◌==◌, Option, none, some, List, [], ◌∷◌, length,
  if◌then◌else◌, Text, codes, Map, lookup, is_nonempty,
}
use nockguard.Policy.Types.{Verdict, deny}
use nockguard.Policy.Evaluate.{evaluate, has_tool_pin_constraints}
use nockguard.Proxy.Catalog.{
  ToolObservation, discard, page_within_bounds, add_page, unobserved_tool,
}
use nockguard.Proxy.Pins.{PinCause, cause_text, pin_observation}
use nockguard.Proxy.Gate.State.{Gate, append_audit, reason_text}

-- A member of the list: its name if it is an object with a string for its name, and the whole of it.
pub record ListedTool : Type 0 where
  pub name : Option Text
  pub raw : Text

-- A page: its size, its tools, their definitions' hashes if the page can be hashed, and its cursor,
-- none if absent or null, where one that is no string is none in turn.
pub record ListPage : Type 0 where
  pub size : ℕ
  pub tools : List ListedTool
  pub observations : Option (Map ToolObservation)
  pub cursor : Option (Option Text)

pub data ListResponse : Type 0 where
  not_object bad_result : ListResponse
  failed : Bool → ListResponse
  tool_page : ListPage → ListResponse

-- The response that goes on: an error under no ID, an error under the response's ID, the line as it
-- was, or the page with the tools that are kept.
pub data Filtered : Type 0 where
  bad_response invalid_listing unchanged : Filtered
  kept : List ListedTool → Filtered

-- The page as it is filtered: its build, 0 for none, its observations and its cursor.
pub record PageView : Type 0 where
  pub build : ℕ
  pub observations : Map ToolObservation
  pub partial : Bool

module _ (quote : Text → Text) (seq : ℕ) where
  abbrev pub dropped : ℕ → Gate → Gate
  dropped build g = if build == 0 then g else record g { catalog = (discard build g.catalog).0 }

  unfoldable pub invalid : Gate → Gate × Filtered
  invalid g = (
    if has_tool_pin_constraints g.engine g.agent
        then append_audit seq (codes "tools/list") (codes "method-deny")
            (codes "tool_catalog_refresh_required") none g
        else g,
    invalid_listing,
  )

  -- What is seen of a tool on the page.
  unfoldable pub observed_on : PageView → Text → ToolObservation
  observed_on view name =
      let found : ToolObservation = elim (lookup name view.observations) [
        | none ↦ unobserved_tool
        | some o ↦ o
      ] in
      if view.partial || view.build == 0 then unobserved_tool else found

  abbrev pub is_denied : Verdict → Bool
  is_denied deny = true
  is_denied _ = false

  abbrev pub pin_cause : PageView → Text → Gate → Option PinCause
  pin_cause view name g =
      (pin_observation g.engine g.agent g.upstream_id name (observed_on view name)).1

  -- Why a tool is hidden, none if it is shown.
  unfoldable pub hidden_for : PageView → Text → Gate → Option Text
  hidden_for view name g =
      let dec = evaluate g.engine g.agent name in
      if is_denied dec.verdict
      then some (reason_text quote dec.reason)
      else elim (pin_cause view name g) [ none ↦ none | some c ↦ some (cause_text c) ]

  abbrev pub hide : Text → Option Text → Gate → Gate
  hide name none g = g
  hide name (some reason) g = append_audit seq name (codes "hide") reason none g

  abbrev pub keep : ListedTool → Option Text → List ListedTool → List ListedTool
  keep tool none more = tool ∷ more
  keep tool (some reason) more = more

  abbrev pub named : Option Text → Option Text
  named none = none
  named (some name) = if is_nonempty name then some name else none

  -- The loop over the tools; none where one has no name.
  unfoldable pub filter_tools : PageView → List ListedTool → Gate → Gate × Option (List ListedTool)
  filter_tools view [] g = (g, some [])
  filter_tools view (tool ∷ tools) g = elim (named tool.name) [
    | none ↦ (g, none)
    | some name ↦
        let hidden = hidden_for view name g in
        let (g', rest) = filter_tools view tools (hide name hidden g) in
        (g', elim rest [ none ↦ none | some more ↦ some (keep tool hidden more) ])
  ]

  -- The page joins the catalog.
  unfoldable pub finish_listing :
      PageView → ListPage → Text → List ListedTool → Gate → Gate × Filtered
  finish_listing view page cursor tools g =
      let (catalog, error) = add_page view.build page.size view.observations cursor g.catalog in
      let added = record g { catalog = catalog } in
      elim error [
        | none ↦ (added, kept tools)
        | some e ↦
            if has_tool_pin_constraints g.engine g.agent then invalid added else (added, kept tools)
      ]

  unfoldable pub filter_page : PageView → ListPage → Text → Gate → Gate × Filtered
  filter_page view page cursor g =
      let (g', tools) = filter_tools view page.tools g in
      if view.build == 0 && has_tool_pin_constraints g.engine g.agent
      then invalid g
      else elim tools [ none ↦ invalid g' | some ts ↦ finish_listing view page cursor ts g' ]

  abbrev pub is_good_cursor : Option (Option Text) → Bool
  is_good_cursor none = true
  is_good_cursor (some none) = false
  is_good_cursor (some (some cursor)) = is_nonempty cursor

  abbrev pub cursor_text : Option (Option Text) → Text
  cursor_text (some (some cursor)) = cursor
  cursor_text _ = []

  -- The build goes on only with a page of it, within bounds, hashed and with a good cursor.
  unfoldable pub view_page : ℕ → ListPage → Gate → Gate × PageView × Text
  view_page build page g =
      let (active, bounded, paginated) =
        page_within_bounds build page.size (length page.tools) g.catalog in
      let partial = not (build == 0) && paginated in
      let none_left : Gate → Gate × PageView × Text =
        λ h. (h, record { build = 0; observations = []; partial = partial }, []) in
      if build == 0 || not active
      then none_left g
      else if not bounded
      then none_left (dropped build g)
      else elim page.observations [
        | none ↦ none_left (dropped build g)
        | some seen ↦
            if is_good_cursor page.cursor
            then (
              g,
              record {
                build = build;
                observations = seen;
                partial = partial || is_nonempty (cursor_text page.cursor);
              },
              cursor_text page.cursor,
            )
            else (dropped build g, record { build = 0; observations = seen; partial = partial }, [])
      ]

  unfoldable pub filter_tool_list_response : ℕ → ListResponse → Gate → Gate × Filtered
  filter_tool_list_response build not_object g = (dropped build g, bad_response)
  filter_tool_list_response build bad_result g = invalid (dropped build g)
  filter_tool_list_response build (failed has_result) g =
      if has_result then invalid (dropped build g) else (dropped build g, unchanged)
  filter_tool_list_response build (tool_page page) g =
      let (g', view, cursor) = view_page build page g in filter_page view page cursor g'
