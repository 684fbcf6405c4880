-- ===== src/Llm/Tools.antt =====
-- agents-python/app/llm/tools.py, with the watchlist of agents-python/app/synthetic.py. The
-- generated histories and graphs are parameters here.
use vaultwatch.Base.{String, Bool, ◌==◌, List, [], ◌∷◌, contains, length, if◌then◌else◌}
use vaultwatch.Base.Int.{pos}
use vaultwatch.Base.Exec.{Result, ok, err, value_error, other_exception}
use vaultwatch.Runtime.{Runtime, strs}
use vaultwatch.Models.Values.{
  Json, Dict, Items, bool, int, float, str, arr, obj, nil, cons, empty, entry, item,
}

pub record HistoryRow (N : Type 0) : Type 0 where
  pub id : String
  pub amount : N
  pub beneficiary_id : String
  pub device_id : String

-- `generate_transaction_history` and the links of `generate_entity_graph`, for an account
pub record Research (N : Type 0) : Type 0 where
  pub history : String → List (HistoryRow N)
  pub linked_accounts : String → List String

abbrev pub sanctions_list : List String
sanctions_list = "victor krantz holdings" ∷ "ashgrove trading fzco" ∷ "meridian bulk logistics" ∷ []

abbrev pub row_json : {N : Type 0} → HistoryRow N → Json N
row_json r = obj (
    entry "id" (str r.id) (
      entry "amount" (float r.amount) (
        entry "beneficiary_id" (str r.beneficiary_id) (entry "device_id" (str r.device_id) empty))))

abbrev pub rows_json : {N : Type 0} → List (HistoryRow N) → Items N
rows_json [] = nil
rows_json (r ∷ rs) = cons (row_json r) (rows_json rs)

module _ (rt : Runtime) where
  open rt use {Num}

  unfoldable pub on_watchlist : String → Bool
  on_watchlist name = contains sanctions_list (rt.strip_lower name)

  unfoldable pub check_sanctions_list : String → Dict Num
  unfolding on_watchlist
  check_sanctions_list name = entry "query" (str name) (
      entry "hit" (bool (on_watchlist name))
        (entry "list" (str "vaultwatch-synthetic-watchlist-v1") empty))

  module _ (research : Research Num) where
    unfoldable pub history_result : String → Dict Num
    history_result account = entry "history" (arr (rows_json (research.history account))) empty

    unfoldable pub generate_entity_graph : String → Dict Num
    generate_entity_graph account =
        let linked = research.linked_accounts account in
        entry "account_id" (str account) (
          entry "linked_accounts" (arr (strs linked))
            (entry "shared_device_count" (int (pos (length linked))) empty))

    -- a text is wanted: anything else fails in the generator
    on_text : (String → Dict Num) → Result (Json Num) → Result (Dict Num)
    on_text f (ok (str s)) = ok (f s)
    on_text f (ok _) = err (other_exception "AttributeError")
    on_text f (err e) = err e

    unfoldable pub execute_research_tool : String → Dict Num → Result (Dict Num)
    unfolding on_text item
    execute_research_tool name input =
        if name == "get_transaction_history"
        then on_text history_result (item input "account_id")
        else if name == "get_entity_graph"
        then on_text generate_entity_graph (item input "account_id")
        else if name == "check_sanctions_list"
        then on_text check_sanctions_list (item input "name")
        else err (value_error "unknown research tool")
