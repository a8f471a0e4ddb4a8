-- ===== src/Proxy/Catalog.antt =====
-- The catalog of advertised tools, internal/proxy/tool_catalog.go: a listing is built page by page and
-- published when it is complete. The mutex makes each method one step. Go's nil map is the empty one.
use nockguard.Base.{
  ℕ, ◌+◌, ◌%◌, Bool, true, false, not, ◌&&◌, ◌||◌, Option, none, some, List, [], ◌∷◌, length, any,
  ltb, leb, ◌==◌, if◌then◌else◌, Text, codes, text_eq, byte_length, Map, lookup, insert,
  is_nonempty,
}

-- The values of `status`; the empty text is the zero observation.
pub data PinStatus : Type 0 where
  no_status unobserved unhashable unpinned matched mismatch : PinStatus

pub record ToolObservation : Type 0 where
  pub hash : Text
  pub pin_hash : Text
  pub status : PinStatus

pub record CatalogBuild : Type 0 where
  pub id : ℕ
  pub in_flight : Bool
  pub paginated : Bool
  pub pages : ℕ
  pub bytes : ℕ
  pub next_cursor : Text
  pub seen_cursors : List Text
  pub tools : Map ToolObservation

pub record ToolCatalog : Type 0 where
  pub next_id : ℕ
  pub build : Option CatalogBuild
  pub published : Map ToolObservation
  pub published_paginated : Bool

abbrev pub max_catalog_pages : ℕ
max_catalog_pages = 32

abbrev pub max_catalog_tools : ℕ
max_catalog_tools = 4096

abbrev pub max_catalog_bytes : ℕ
max_catalog_bytes = 10485760

abbrev pub max_catalog_cursor : ℕ
max_catalog_cursor = 4096

-- The parameters of a listing, decoded: none or null, not an object, or an object's members, where a
-- member that is no string is `none`.
pub data ListParams : Type 0 where
  no_params malformed : ListParams
  members : List (Text × Option Text) → ListParams

-- `strings.EqualFold` against a word of ASCII letters: the long s and the Kelvin sign fold to ASCII.
unfoldable pub fold_char : ℕ → ℕ
fold_char c =
    if leb b'A' c && leb c b'Z'
    then c + 32
    else if c == 383
    then b's'
    else if c == 8490
    then b'k'
    else c

unfoldable pub equal_fold : Text → Text → Bool
unfolding fold_char
equal_fold [] [] = true
equal_fold [] (y ∷ ys) = false
equal_fold (x ∷ xs) [] = false
equal_fold (x ∷ xs) (y ∷ ys) = fold_char x == fold_char y && equal_fold xs ys

abbrev pub has_alias : Text → List (Text × Option Text) → Bool
has_alias word [] = false
has_alias word ((key, value) ∷ fields) =
    (not (text_eq key word) && equal_fold key word) || has_alias word fields

unfoldable pub invalidate : ToolCatalog → ToolCatalog
invalidate c = record c { build = none; published = []; published_paginated = false }

abbrev unpublish : ToolCatalog → ToolCatalog
unpublish c = record c { published = []; published_paginated = false }

abbrev new_build : ℕ → CatalogBuild
new_build id = record {
  id = id;
  in_flight = true;
  paginated = false;
  pages = 0;
  bytes = 0;
  next_cursor = [];
  seen_cursors = [];
  tools = [];
}

-- The two ends of `beginList`: on a cursor, and on a first page.
unfoldable pub continue_list : Text → ToolCatalog → ToolCatalog × ℕ
continue_list cursor c = elim c.build [
  | none ↦ (unpublish c, 0)
  | some build ↦
      if not build.in_flight && text_eq build.next_cursor cursor
      then (record c { build = some (record build { in_flight = true }) }, build.id)
      else (unpublish c, 0)
]

unfoldable pub start_list : ToolCatalog → ToolCatalog × ℕ
start_list c =
    let id = (c.next_id + 1) % 18446744073709551616 in
    (unpublish (record c { next_id = id; build = some (new_build id) }), id)

-- The cursor's checks.
abbrev pub list_at : Option (Option Text) → ToolCatalog → ToolCatalog × ℕ
list_at none c = start_list c
list_at (some none) c = (invalidate c, 0)
list_at (some (some cursor)) c =
    if not (is_nonempty cursor) || ltb max_catalog_cursor (byte_length cursor)
    then (invalidate c, 0)
    else continue_list cursor c

unfoldable pub begin_list : ListParams → ToolCatalog → ToolCatalog × ℕ
begin_list no_params c = start_list c
begin_list malformed c = (invalidate c, 0)
begin_list (members fields) c =
    if has_alias (codes "cursor") fields
    then (invalidate c, 0)
    else list_at (lookup (codes "cursor") fields) c

unfoldable pub discard : ℕ → ToolCatalog → ToolCatalog × Bool
discard id c = elim c.build [
  | none ↦ (c, false)
  | some build ↦ if build.id == id then (record c { build = none }, true) else (c, false)
]

abbrev pub unobserved_tool : ToolObservation
unobserved_tool = record { hash = []; pin_hash = []; status = unobserved }

unfoldable pub observe : Text → ToolCatalog → ToolObservation
observe name c =
    if c.published_paginated
    then unobserved_tool
    else elim (lookup name c.published) [ none ↦ unobserved_tool | some observation ↦ observation ]

abbrev pub in_bounds : CatalogBuild → ℕ → ℕ → Bool
in_bounds build size count =
    ltb build.pages max_catalog_pages
    && leb (build.bytes + size) max_catalog_bytes
    && leb (length build.tools + count) max_catalog_tools

-- Whether the page is of the active build, within bounds, and a continuation.
unfoldable pub page_within_bounds : ℕ → ℕ → ℕ → ToolCatalog → Bool × Bool × Bool
page_within_bounds id size count c = elim c.build [
  | none ↦ (false, false, false)
  | some build ↦
      if not (build.id == id) || not build.in_flight
      then (false, false, false)
      else (true, in_bounds build size count, build.paginated)
]

pub data PageError : Type 0 where
  stale bound_exceeded cursor_too_long cursor_cycle duplicate_tool : PageError

abbrev pub has_name : Map ToolObservation → Text → Bool
has_name tools name = elim (lookup name tools) [ none ↦ false | some o ↦ true ]

abbrev any_known : Map ToolObservation → Map ToolObservation → Bool
any_known tools [] = false
any_known tools ((name, o) ∷ observations) = has_name tools name || any_known tools observations

unfoldable pub add_tools : Map ToolObservation → Map ToolObservation → Map ToolObservation
add_tools tools [] = tools
add_tools tools ((name, o) ∷ observations) = add_tools (insert name o tools) observations

-- A page that passes: the last one publishes the build.
unfoldable pub commit_page :
    CatalogBuild → ℕ → Map ToolObservation → Text → ToolCatalog → ToolCatalog
commit_page build size observations next_cursor c =
    let grown = record build {
      tools = add_tools build.tools observations;
      pages = build.pages + 1;
      bytes = build.bytes + size;
      in_flight = false;
    } in
    if not (is_nonempty next_cursor)
    then record c { published = grown.tools; published_paginated = build.paginated; build = none }
    else record c {
      build = some (record grown {
        paginated = true;
        seen_cursors = next_cursor ∷ build.seen_cursors;
        next_cursor = next_cursor;
      });
    }

unfoldable pub check_page : CatalogBuild → ℕ → Map ToolObservation → Text → Option PageError
check_page build size observations next_cursor =
    if not (in_bounds build size (length observations))
    then some bound_exceeded
    else if ltb max_catalog_cursor (byte_length next_cursor)
    then some cursor_too_long
    else if is_nonempty next_cursor && any (text_eq next_cursor) build.seen_cursors
    then some cursor_cycle
    else if any_known build.tools observations
    then some duplicate_tool
    else none

abbrev pub finish_page :
    Option PageError
    → CatalogBuild
    → ℕ
    → Map ToolObservation
    → Text
    → ToolCatalog
    → ToolCatalog × Option PageError
finish_page (some e) build size observations next_cursor c = (record c { build = none }, some e)
finish_page none build size observations next_cursor c =
    (commit_page build size observations next_cursor c, none)

-- The page number 0 is no page of a build.
unfoldable pub add_page :
    ℕ → ℕ → Map ToolObservation → Text → ToolCatalog → ToolCatalog × Option PageError
add_page id size observations next_cursor c = if id == 0 then (c, none) else elim c.build [
  | none ↦ (c, some stale)
  | some build ↦
      if not (build.id == id) || not build.in_flight
      then (c, some stale)
      else finish_page (check_page build size observations next_cursor) build size observations
          next_cursor c
]

-- What listings do to the catalog, in any order.
pub data CatalogOp : Type 0 where
  list : ListParams → CatalogOp
  page : ℕ → ℕ → Map ToolObservation → Text → CatalogOp
  drop_build : ℕ → CatalogOp
  reset : CatalogOp

unfoldable pub catalog_step : CatalogOp → ToolCatalog → ToolCatalog
catalog_step (list params) c = (begin_list params c).0
catalog_step (page id size observations next_cursor) c =
    (add_page id size observations next_cursor c).0
catalog_step (drop_build id) c = (discard id c).0
catalog_step reset c = invalidate c

unfoldable pub run_catalog : List CatalogOp → ToolCatalog → ToolCatalog
run_catalog [] c = c
run_catalog (op ∷ ops) c = run_catalog ops (catalog_step op c)

abbrev pub empty_catalog : ToolCatalog
empty_catalog = record { next_id = 0; build = none; published = []; published_paginated = false }
