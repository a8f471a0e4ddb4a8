-- ===== src/Proxy/Tests.antt =====
-- Queues, listings and injections at work, and the theorems at them.
use nockguard.Base.{
  map, none, ◌≤◌, ◌⊎◌, ℕ, Bool, true, false, ◌||◌, Option, some, List, [], ◌∷◌, ◌++◌, ◌≡◌, ◌≢◌,
  refl, arith, ◌==◌, Text, codes, text_eq, is_positive, byte_length, has_prefix, at, put, drop_key,
}
use nockguard.Audit.Event.{Event, blank_event}
use nockguard.Audit.Validate.{split_dots}
use nockguard.Proxy.Ranges.{SeqRange, place, merge, mark_resolved, is_resolved, consume}
use nockguard.Proxy.Spaced.{IsSpaced, holds, mark_resolved-holds}
use nockguard.Proxy.Cards.{stamped, latest, latest_card, prune}
use nockguard.Proxy.Queue.{
  AuditQueue, new_queue, QueueOp, reserve, queue, resolve, drain, queue_step, run_queue,
  resolve_audit, drain_audits, queue_row, todo_at, reserve_audit_sequence, flush_all, flush_audits,
  flush_sequence, flush_action, advance_frontier, emit_rows, emit_row, mark_all,
}
use nockguard.Proxy.Rows.{bare, rows_of, entries_of, queued, run_queue_rows}
use nockguard.Proxy.Frontier.{Inv, run_queue-Inv, behind_frontier_unwritten}
use nockguard.Proxy.Flushed.{resolve_audit-flushes}
use nockguard.Proxy.Order.{IsOrdered, run_queue-IsOrdered}
use nockguard.Proxy.Catalog.{
  ToolObservation, unpinned, unobserved_tool, observe, CatalogOp, list, page, no_params,
  run_catalog, catalog_step, empty_catalog, begin_list, start_list,
}
use nockguard.Proxy.Listing.{CatalogInv, run_catalog-Inv, building_hides}
use nockguard.Proxy.Json.{text, obj, Fields, end, field, member, set_member, get_path}
use nockguard.Proxy.Inject.{
  set_at_path, set_arg_path, apply_inject, resolve_rules, check_conflicts, apply_rules,
  injected_value, fill_template,
}
use nockguard.Proxy.Injected.{get_path-set_at_path, apply_inject-member}
use nockguard.Policy.Types.{InjectRule}

abbrev no_refusal : ℕ → Bool
no_refusal n = false

abbrev row_of : Text → Event
row_of tool = record blank_event { tool = tool }

-- The second request is settled first.
abbrev two_requests : List QueueOp
two_requests =
    reserve
    ∷ reserve
    ∷ queue 1 (row_of (codes "b"))
    ∷ resolve 1
    ∷ queue 0 (row_of (codes "a"))
    ∷ resolve 0
    ∷ []

two_in_order :
    (run_queue no_refusal two_requests (new_queue false)).log
    ≡ (0, row_of (codes "a")) ∷ (1, row_of (codes "b")) ∷ []
unfolding run_queue queue_step new_queue reserve_audit_sequence queue_row resolve_audit flush_action
    flush_all flush_audits flush_sequence advance_frontier emit_rows emit_row mark_resolved merge
    place is_resolved consume at put drop_key stamped latest latest_card prune is_positive
two_in_order = refl

-- A row for a request that is settled already is neither written nor drained.
late_row_stays :
    (run_queue no_refusal
      (reserve
        ∷ queue 0 (row_of (codes "a"))
        ∷ resolve 0
        ∷ queue 0 (row_of (codes "b"))
        ∷ resolve 0
        ∷ drain
        ∷ [])
      (new_queue false)).log
    ≡ (0, row_of (codes "a")) ∷ []
unfolding run_queue queue_step new_queue reserve_audit_sequence queue_row resolve_audit drain_audits
    mark_all flush_action flush_all flush_audits flush_sequence advance_frontier emit_rows emit_row
    mark_resolved merge place is_resolved consume at put drop_key stamped latest latest_card prune
    is_positive
late_row_stays = refl

run_queue_rows_example :
    rows_of (run_queue no_refusal two_requests (new_queue false)) 1
    ≡ rows_of (new_queue false) 1 ++ queued 1 two_requests
run_queue_rows_example = run_queue_rows no_refusal 1 two_requests (new_queue false)

-- A request has a row that waits.
abbrev one_waits : List QueueOp
one_waits = reserve ∷ queue 0 (row_of (codes "a")) ∷ []

waiting_queue : AuditQueue
waiting_queue = run_queue no_refusal one_waits (new_queue true)

waiting_queue-Inv : Inv waiting_queue
unfolding waiting_queue
waiting_queue-Inv = run_queue-Inv no_refusal one_waits true (tt, (tt, tt))

resolve_audit-flushes_example :
    let q' = resolve_audit no_refusal 0 waiting_queue in
    (is_resolved q'.next q'.resolved ≡ false)
    × ((q'.next ≤ 0)
        ⊎ ((at 0 q'.todo ≡ none)
            × (entries_of 0 q'.log
                ≡ entries_of 0 waiting_queue.log ++ map bare (todo_at waiting_queue 0))))
unfolding waiting_queue run_queue queue_step new_queue reserve_audit_sequence queue_row
resolve_audit-flushes_example =
    resolve_audit-flushes no_refusal 0 0 waiting_queue waiting_queue-Inv (omega arith) (omega arith)
      (omega arith)

run_queue-Inv_example : Inv (run_queue no_refusal two_requests (new_queue false))
run_queue-Inv_example =
    run_queue-Inv no_refusal two_requests false
      (tt, (tt, (tt, (omega arith, (tt, (omega arith, tt))))))

settled_queue : AuditQueue
settled_queue = run_queue no_refusal two_requests (new_queue false)

two_requests-Inv : Inv settled_queue
unfolding settled_queue
two_requests-Inv =
    run_queue-Inv no_refusal two_requests false
      (tt, (tt, (tt, (omega arith, (tt, (omega arith, tt))))))

two_requests_passed : settled_queue.next ≡ 2
unfolding settled_queue run_queue queue_step new_queue reserve_audit_sequence queue_row
    resolve_audit flush_action flush_all flush_audits flush_sequence advance_frontier emit_rows
    emit_row mark_resolved merge place is_resolved consume at put drop_key stamped latest
    latest_card prune is_positive
two_requests_passed = refl

behind_frontier_unwritten_example :
    entries_of 1
      (run_queue no_refusal (queue 1 (row_of (codes "c")) ∷ resolve 1 ∷ []) settled_queue).log
    ≡ entries_of 1 settled_queue.log
behind_frontier_unwritten_example =
    behind_frontier_unwritten no_refusal 1 (row_of (codes "c")) (resolve 1 ∷ []) settled_queue
      two_requests-Inv (omega (arith, two_requests_passed)) (omega arith, tt)

run_queue-IsOrdered_example : IsOrdered (run_queue no_refusal two_requests (new_queue false)).log
run_queue-IsOrdered_example =
    run_queue-IsOrdered no_refusal two_requests
      (tt, (tt, (tt, (omega arith, (tt, (omega arith, tt))))))

abbrev three_to_five : List SeqRange
three_to_five = record { start = 3; end = 5 } ∷ []

mark_resolved-holds_example :
    IsSpaced 2 (mark_resolved 6 three_to_five)
    × (holds (mark_resolved 6 three_to_five) 4 ≡ (4 == 6 || holds three_to_five 4))
mark_resolved-holds_example =
    mark_resolved-holds 2 6 three_to_five 4 (omega arith, omega arith, omega arith, tt)
      (omega arith) (omega arith)

abbrev listed : ToolObservation
listed = record { hash = codes "aa"; pin_hash = []; status = unpinned }

-- A first page with a cursor.
abbrev half_listing : List CatalogOp
half_listing = list no_params ∷ page 1 100 ((codes "read", listed) ∷ []) (codes "next") ∷ []

run_catalog-Inv_example : CatalogInv (run_catalog half_listing empty_catalog)
run_catalog-Inv_example = run_catalog-Inv half_listing

building_hides_example :
    observe (codes "read") (run_catalog (list no_params ∷ []) empty_catalog) ≡ unobserved_tool
unfolding run_catalog catalog_step begin_list start_list
building_hides_example = building_hides (list no_params ∷ []) _ (codes "read") refl

abbrev call : Fields
call =
    field (codes "name") (text (codes "push"))
      (field (codes "arguments") (obj (field (codes "auth") (obj end) end)) end)

abbrev auth_path : List Text
auth_path = codes "auth" ∷ codes "token" ∷ []

get_path-set_at_path_example :
    get_path auth_path
      (field (codes "auth") (obj (field (codes "token") (text (codes "s")) end)) end)
    ≡ some (text (codes "s"))
unfolding set_at_path member set_member text_eq
get_path-set_at_path_example =
    get_path-set_at_path auth_path (codes "s") (field (codes "auth") (obj end) end)
      (field (codes "auth") (obj (field (codes "token") (text (codes "s")) end)) end) refl

abbrev token_rule : InjectRule
token_rule = record {
  tools = codes "push" ∷ [];
  ref = codes "env:T";
  arg = codes "auth.token";
  template = codes "Bearer {secret}";
}

abbrev vault : Text → Option Text
vault ref = some (codes "12345678")

abbrev injected_call : Fields
injected_call = field (codes "name") (text (codes "push")) (
    field (codes "arguments")
      (obj (
        field (codes "auth") (obj (field (codes "token") (text (codes "Bearer 12345678")) end))
          end))
      end)

names_differ : codes "arguments" ≢ codes "name"
names_differ h = cc

apply_inject-member_example : member (codes "name") injected_call ≡ member (codes "name") call
unfolding apply_inject resolve_rules check_conflicts apply_rules injected_value fill_template
    set_arg_path set_at_path split_dots member set_member text_eq byte_length has_prefix
apply_inject-member_example =
    apply_inject-member vault (token_rule ∷ []) (codes "name") call injected_call
      (record { rule = token_rule; value = codes "12345678" } ∷ []) refl names_differ
