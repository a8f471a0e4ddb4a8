-- ===== src/Proxy/Listing.antt =====
-- The catalog's invariant: its bounds, and that nothing is published while a listing is on its way.
use mathlib.Core.Path.{subst}
use nockguard.Base.{
  ℕ, suc, ◌+◌, ◌≤◌, Bool, true, false, not, ◌&&◌, ◌||◌, Option, none, some, List, [], ◌∷◌, ◌≡◌,
  refl, ap, arith, length, any, ltb, ◌==◌, if◌then◌else◌, Text, codes, text_eq, byte_length, Map,
  lookup, insert, is_nonempty,
}
use nockguard.Proxy.Catalog.{
  ToolObservation, CatalogBuild, ToolCatalog, max_catalog_pages, max_catalog_tools,
  max_catalog_bytes, ListParams, no_params, malformed, members, has_alias, invalidate,
  continue_list, start_list, begin_list, discard, unobserved_tool, observe, PageError, stale,
  list_at, finish_page, add_tools, commit_page, check_page, add_page, CatalogOp, list, page,
  drop_build, reset, catalog_step, run_catalog, empty_catalog,
}

abbrev is_new : Text → List Text → Bool
is_new t seen = not (any (text_eq t) seen)

abbrev AllNew : List Text → Type 0
AllNew [] = Unit
AllNew (t ∷ seen) = (is_new t seen ≡ true) × AllNew seen

-- A build's bounds; its cursors differ from each other, one for each page so far.
pub record BuildInv (b : CatalogBuild) : Type 0 where
  pub few_pages : b.pages ≤ max_catalog_pages
  pub few_bytes : b.bytes ≤ max_catalog_bytes
  pub few_tools : length b.tools ≤ max_catalog_tools
  pub cursors : length b.seen_cursors ≡ b.pages
  pub no_cycle : AllNew b.seen_cursors
  pub more_pages : b.paginated ≡ ltb 0 b.pages

abbrev pub BuildingInv : ToolCatalog → Option CatalogBuild → Type 0
BuildingInv c none = Unit
BuildingInv c (some b) = (c.published ≡ []) × (c.published_paginated ≡ false) × BuildInv b

pub record CatalogInv (c : ToolCatalog) : Type 0 where
  pub few_published : length c.published ≤ max_catalog_tools
  pub building : BuildingInv c c.build

length-insert :
    (name : Text) (o : ToolObservation) (tools : Map ToolObservation)
    → length (insert name o tools) ≤ suc (length tools)
unfolding insert
length-insert name o [] = omega arith
length-insert name o ((other, old) ∷ tools) = ground (arith, length-insert name o tools)

length-add_tools :
    (tools observations : Map ToolObservation)
    → length (add_tools tools observations) ≤ length tools + length observations
unfolding add_tools
length-add_tools tools [] = omega arith
length-add_tools tools ((name, o) ∷ observations) =
    omega (arith, length-add_tools (insert name o tools) observations, length-insert name o tools)

invalidate-Inv : (c : ToolCatalog) → CatalogInv (invalidate c)
unfolding invalidate
invalidate-Inv c = record { few_published = omega arith; building = tt }

start_list-Inv : (c : ToolCatalog) → CatalogInv (start_list c).0
unfolding start_list
start_list-Inv c = record {
  few_published = omega arith;
  building = (
    refl,
    refl,
    record {
      few_pages = omega arith;
      few_bytes = omega arith;
      few_tools = omega arith;
      cursors = refl;
      no_cycle = tt;
      more_pages = refl;
    },
  );
}

-- Both branches of a test keep the invariant.
either-Inv {ℓ} :
    {A : Type ℓ} (b : Bool) (x y : ToolCatalog × A)
    → CatalogInv x.0
    → CatalogInv y.0
    → CatalogInv (if b then x else y).0
either-Inv true x y h k = h
either-Inv false x y h k = k

abbrev catalog : ℕ → Option CatalogBuild → Map ToolObservation → Bool → ToolCatalog
catalog n o p f = record { next_id = n; build = o; published = p; published_paginated = f }

unpublished-Inv :
    (n : ℕ) (o : Option CatalogBuild) (p : Map ToolObservation) (f : Bool)
    → CatalogInv (catalog n o p f)
    → CatalogInv (catalog n o [] false)
unpublished-Inv n none p f i = record { few_published = omega arith; building = tt }
unpublished-Inv n (some b) p f i = record {
  few_published = omega arith;
  building = (refl, refl, i.building.2);
}

continue_list-Inv :
    (cursor : Text) (n : ℕ) (o : Option CatalogBuild) (p : Map ToolObservation) (f : Bool)
    → CatalogInv (catalog n o p f)
    → CatalogInv (continue_list cursor (catalog n o p f)).0
unfolding continue_list
continue_list-Inv cursor n none p f i = unpublished-Inv n none p f i
continue_list-Inv cursor n (some b) p f i =
    let (gone, flag, k) = i.building in
    either-Inv (not b.in_flight && text_eq b.next_cursor cursor)
      (catalog n (some (record b { in_flight = true })) p f, b.id) (catalog n (some b) [] false, 0)
      (record {
        few_published = i.few_published;
        building = (
          gone,
          flag,
          record {
            few_pages = k.few_pages;
            few_bytes = k.few_bytes;
            few_tools = k.few_tools;
            cursors = k.cursors;
            no_cycle = k.no_cycle;
            more_pages = k.more_pages;
          },
        );
      })
      (unpublished-Inv n (some b) p f i)

begin_list-Inv :
    (params : ListParams) (c : ToolCatalog) → CatalogInv c → CatalogInv (begin_list params c).0
unfolding begin_list
begin_list-Inv no_params c i = start_list-Inv c
begin_list-Inv malformed c i = invalidate-Inv c
begin_list-Inv (members fields) c i =
    either-Inv (has_alias (codes "cursor") fields) (invalidate c, 0)
      (list_at (lookup (codes "cursor") fields) c) (invalidate-Inv c)
      (on_cursor (lookup (codes "cursor") fields))
  where
    on_cursor : (o : Option (Option Text)) → CatalogInv (list_at o c).0
    on_cursor none = start_list-Inv c
    on_cursor (some none) = invalidate-Inv c
    on_cursor (some (some cursor)) =
        either-Inv (not (is_nonempty cursor) || ltb 4096 (byte_length cursor)) (invalidate c, 0)
          (continue_list cursor c) (invalidate-Inv c)
          (continue_list-Inv cursor c.next_id c.build c.published c.published_paginated i)

discard-Inv :
    (id n : ℕ) (o : Option CatalogBuild) (p : Map ToolObservation) (f : Bool)
    → CatalogInv (catalog n o p f)
    → CatalogInv (discard id (catalog n o p f)).0
unfolding discard
discard-Inv id n none p f i = i
discard-Inv id n (some b) p f i =
    either-Inv (b.id == id) (catalog n none p f, true) (catalog n (some b) p f, false)
      (record { few_published = i.few_published; building = tt }) i

check_page-none :
    (b : CatalogBuild) (size : ℕ) (observations : Map ToolObservation) (next_cursor : Text)
    → check_page b size observations next_cursor ≡ none
    → (suc b.pages ≤ max_catalog_pages)
      × (b.bytes + size ≤ max_catalog_bytes)
      × (length b.tools + length observations ≤ max_catalog_tools)
      × ((is_nonempty next_cursor && any (text_eq next_cursor) b.seen_cursors) ≡ false)
unfolding check_page
check_page-none b size observations next_cursor h =
    (ground arith, ground arith, ground arith, ground arith)

commit_page-Inv :
    (b : CatalogBuild) (size : ℕ) (observations : Map ToolObservation) (next_cursor : Text) (n : ℕ)
    (p : Map ToolObservation) (f : Bool)
    → CatalogInv (catalog n (some b) p f)
    → check_page b size observations next_cursor ≡ none
    → CatalogInv (commit_page b size observations next_cursor (catalog n (some b) p f))
unfolding commit_page
commit_page-Inv b size observations [] n p f i h =
    let (pages, bytes, tools, fresh) = check_page-none b size observations [] h in
    record {
      few_published = omega (arith, length-add_tools b.tools observations, tools);
      building = tt;
    }
commit_page-Inv b size observations (c ∷ cs) n p f i h =
    let (pages, bytes, tools, fresh) = check_page-none b size observations (c ∷ cs) h in
    let (gone, flag, k) = i.building in
    record {
      few_published = i.few_published;
      building = (
        gone,
        flag,
        record {
          few_pages = omega (arith, pages);
          few_bytes = bytes;
          few_tools = omega (arith, length-add_tools b.tools observations, tools);
          cursors = omega (arith, k.cursors);
          no_cycle = (ap not fresh, k.no_cycle);
          more_pages = ground arith;
        },
      );
    }

add_page-Inv :
    (id size : ℕ) (observations : Map ToolObservation) (next_cursor : Text) (n : ℕ)
    (o : Option CatalogBuild) (p : Map ToolObservation) (f : Bool)
    → CatalogInv (catalog n o p f)
    → CatalogInv (add_page id size observations next_cursor (catalog n o p f)).0
unfolding add_page
add_page-Inv id size observations next_cursor n none p f i =
    either-Inv (id == 0) (catalog n none p f, none) (catalog n none p f, some stale) i i
add_page-Inv id size observations next_cursor n (some b) p f i =
    either-Inv (id == 0) (catalog n (some b) p f, none)
      (if not (b.id == id) || not b.in_flight
        then (catalog n (some b) p f, some stale)
        else finish_page (check_page b size observations next_cursor) b size observations
            next_cursor (catalog n (some b) p f))
      i
      (either-Inv (not (b.id == id) || not b.in_flight) (catalog n (some b) p f, some stale) _ i
        (checked (check_page b size observations next_cursor) refl))
  where
    checked :
        (e : Option PageError)
        → check_page b size observations next_cursor ≡ e
        → CatalogInv (finish_page e b size observations next_cursor (catalog n (some b) p f)).0
    checked none h = commit_page-Inv b size observations next_cursor n p f i h
    checked (some k) h = record { few_published = i.few_published; building = tt }

catalog_step-Inv :
    (op : CatalogOp) (c : ToolCatalog) → CatalogInv c → CatalogInv (catalog_step op c)
unfolding catalog_step
catalog_step-Inv (list params) c i = begin_list-Inv params c i
catalog_step-Inv (page id size observations next_cursor) c i =
    add_page-Inv id size observations next_cursor c.next_id c.build c.published
      c.published_paginated i
catalog_step-Inv (drop_build id) c i =
    discard-Inv id c.next_id c.build c.published c.published_paginated i
catalog_step-Inv reset c i = invalidate-Inv c

run_catalog_from-Inv :
    (ops : List CatalogOp) (c : ToolCatalog) → CatalogInv c → CatalogInv (run_catalog ops c)
unfolding run_catalog
run_catalog_from-Inv [] c i = i
run_catalog_from-Inv (op ∷ ops) c i =
    run_catalog_from-Inv ops (catalog_step op c) (catalog_step-Inv op c i)

-- Whatever pages arrive for whatever listing, in any order: a build stays within 32 pages, 10 MiB
-- and 4096 tools, no cursor comes twice, and a build under way has nothing published.
pub run_catalog-Inv : (ops : List CatalogOp) → CatalogInv (run_catalog ops empty_catalog)
run_catalog-Inv ops =
    run_catalog_from-Inv ops empty_catalog (record { few_published = omega arith; building = tt })

hidden :
    (name : Text) (c : ToolCatalog) (b : CatalogBuild)
    → CatalogInv c
    → c.build ≡ some b
    → observe name c ≡ unobserved_tool
unfolding observe lookup
hidden name c b i h =
    let (gone, flag, k) = subst (BuildingInv c) h i.building in rw (observe, flag, gone) refl

-- While a listing is under way no tool has an observation.
pub building_hides :
    (ops : List CatalogOp) (b : CatalogBuild) (name : Text)
    → (run_catalog ops empty_catalog).build ≡ some b
    → observe name (run_catalog ops empty_catalog) ≡ unobserved_tool
building_hides ops b name h = hidden name (run_catalog ops empty_catalog) b (run_catalog-Inv ops) h
