-- ===== src/Proxy/Relay/AnswerTests.antt =====
-- A listing and answers of the server, and the theorems at them.
use nockguard.Policy.Patterns.{match_pattern_err, match_pattern, matches_any, is_glob_pattern}
use nockguard.Policy.Evaluate.{
  evaluate_allow, with_shadow, agent_policy, scan_deny, first_match, evaluate_policy, evaluate,
  tool_pin, strict_tool_pins, has_tool_pin_constraints,
}
use nockguard.Proxy.Catalog.{page_within_bounds, add_page}
use nockguard.Proxy.Pins.{pin_observation}
use nockguard.Proxy.Gate.State.{append_audit_by, append_audit}
use nockguard.Proxy.Relay.State.{Setting}
use nockguard.Base.{
  List, ℕ, true, false, none, some, [], ◌∷◌, ◌≡◌, refl, inr, codes, lookup, text_eq, delete,
  drop_key, at, put,
}
use nockguard.Proxy.Shown.{select, is_visible, filter_tool_list_response-visible}
use nockguard.Proxy.Listed.{
  ListedTool, ListPage, tool_page, bad_result, kept, view_page, filter_tool_list_response,
  filter_page, filter_tools, hidden_for, finish_listing, observed_on,
}
use nockguard.Proxy.Actions.{PendingCard, waiting_card, action_card}
use nockguard.Proxy.Queue.{new_queue}
use nockguard.Proxy.Relay.State.{Relay}
use nockguard.Proxy.Relay.Response.{Members, ServerLine, deliver_line, invalid_action_response_id}
use nockguard.Proxy.Relay.Withheld.{IsSuppressed, deliver_line-suppressed}
use nockguard.Proxy.Relay.Failed.{
  SideLine, from_agent, from_server, take_lines, HasFailed, take_lines-HasFailed,
}
use nockguard.Proxy.Relay.Fixtures.{gate, setting, line, relay}

abbrev read_tool : ListedTool
read_tool = record { name = some (codes "read"); raw = codes "1" }

abbrev push_tool : ListedTool
push_tool = record { name = some (codes "push"); raw = codes "2" }

-- The policy allows one tool of two.
abbrev page : ListPage
page = record { size = 10; tools = push_tool ∷ read_tool ∷ []; observations = none; cursor = none }

push_is_hidden :
    (filter_tool_list_response (λ t. t) 0 0 (tool_page page) gate).1 ≡ kept (read_tool ∷ [])
unfolding filter_tool_list_response text_eq lookup delete drop_key at put match_pattern_err
    match_pattern matches_any is_glob_pattern evaluate_allow with_shadow agent_policy scan_deny
    first_match evaluate_policy evaluate tool_pin strict_tool_pins has_tool_pin_constraints
    page_within_bounds add_page pin_observation append_audit_by append_audit view_page filter_page
    filter_tools hidden_for finish_listing observed_on
push_is_hidden = refl

filter_tool_list_response-visible_example :
    read_tool ∷ []
    ≡ select (is_visible (λ t. t) 0 (view_page (λ t. t) 0 0 page gate).1 gate) page.tools
filter_tool_list_response-visible_example =
    filter_tool_list_response-visible (λ t. t) 0 0 page gate (read_tool ∷ []) push_is_hidden

abbrev members : Members
members = record {
  version = some (codes "2.0");
  id = codes "1";
  has_method = false;
  has_result = true;
  error = none;
  is_error_flag = none;
}

abbrev response : ServerLine
response = record {
  decodes = true;
  list_changed = false;
  response_id = some (codes "1");
  decoded_error = false;
  tool_failed = false;
  members = some members;
  folded = some (record { members = members; duplicate_key = false; has_id = true });
  listed = bad_result;
}

abbrev card : PendingCard
card = record (action_card (codes "read") none 0 (codes "run.1")) { request_id = codes "1" }

abbrev withheld : PendingCard
withheld = record card { suppress_late_response = true }

abbrev waiting : Relay ℕ
waiting = record relay { pending = (codes "1", waiting_card withheld) ∷ [] }

withheld-IsSuppressed : IsSuppressed setting (codes "1") withheld waiting
unfolding lookup text_eq action_card
withheld-IsSuppressed = record { waits = refl; acts = refl; suppressed = refl }

response_is_good : invalid_action_response_id response.folded false ≡ some (codes "1", false)
unfolding invalid_action_response_id text_eq
response_is_good = refl

deliver_line-suppressed_example : (deliver_line setting response waiting).delivery ≡ none
deliver_line-suppressed_example =
    deliver_line-suppressed setting response (codes "1") withheld waiting withheld-IsSuppressed
      (refl, refl, inr (false, response_is_good))

-- A relay whose earlier rows are written.
abbrev settled_relay : Relay ℕ
settled_relay = record relay {
  gate = record gate { queue = record (new_queue true) { seq = 5; next = 5 } };
}

-- The error of required audit is set.
abbrev failing_setting : Setting ℕ
failing_setting = record setting { latched = λ n. true }

abbrev both_sides : List (SideLine ℕ)
both_sides = from_server failing_setting response ∷ from_agent failing_setting line ∷ []

take_lines-HasFailed_example :
    ((take_lines both_sides settled_relay).to_server ≡ [])
    × HasFailed (λ n. true) (take_lines both_sides settled_relay)
take_lines-HasFailed_example =
    take_lines-HasFailed (λ n. true) both_sides settled_relay (λ m n le h. refl)
      ((refl, refl), ((refl, refl), tt)) refl
