-- ===== src/McpServer/Runs.antt =====
-- Runs of the JSON-RPC harness with a counter as the state of its tools.
use mathlib.Core.List.{foldl}
use flynn_extensions.Prelude.{
  ℕ, ◌+◌, ◌≡◌, ◌↔◌, refl, Bool, true, false, none, some, List, [], ◌∷◌, map, Bytes, codes, equal,
}
use flynn_extensions.Prelude.Result.{ok}
use flynn_extensions.McpServer.{
  Request, Response, Transport, Tool, Server, new, register, lookup, put, default_schema,
  list_result, dispatch, dispatch_request, dispatch_method, call_result, result_response,
  id_or_null,
}
use flynn_extensions.McpServer.Dispatch.{IsSilent, dispatch-answer}
use flynn_extensions.McpServer.Register.{upsert, list_result-registered}
use flynn_extensions.McpServer.Serve.{Turn, end_of_input, write_failed, framed, serve}

abbrev tool : Bytes → Bytes → Tool ℕ ℕ
tool name schema = record {
  info = record { name = name; description = []; input_schema = schema };
  handler = λ input st. (ok (codes "done"), st + 1);
}

abbrev first_tools : List (Tool ℕ ℕ)
first_tools =
    tool (codes "a") [] ∷ tool (codes "b") (codes "{}") ∷ tool (codes "a") (codes "{}") ∷ []

abbrev server : Server ℕ ℕ
server = foldl register (new (codes "example") (codes "dev")) first_tools

-- Every message is a notification of the method that it spells.
abbrev transport : Transport ℕ
transport = record {
  unmarshal_request =
      λ line. some (record { jsonrpc = codes "2.0"; id = []; method = line; params = [] });
  unmarshal_call = λ params. some (record { name = codes "a"; arguments = params });
  marshal_response = λ r. some r.id;
  trim_space = λ line. line;
}

abbrev turn : Bytes → Bool → Turn
turn line writes = record { cancelled = false; line = line; writes = writes }

-- A call is answered though it has no id, and the tool runs; a lost answer ends the loop.
serves :
    serve transport server (turn (codes "tools/call") true ∷ turn [] true ∷ []) false 0
    ≡ record { written = framed (codes "null") ∷ []; state = 1; ended = end_of_input }
unfolding serve dispatch dispatch_request dispatch_method call_result lookup register put equal
    result_response id_or_null
serves = refl

loses :
    serve transport server (turn (codes "ping") false ∷ turn (codes "tools/call") true ∷ []) false 0
    ≡ record { written = []; state = 0; ended = write_failed }
unfolding serve dispatch dispatch_request dispatch_method call_result lookup register put equal
    result_response id_or_null
loses = refl

list_result-registered_example :
    list_result server ≡ map (λ t. default_schema t.info) (foldl upsert [] first_tools)
list_result-registered_example = list_result-registered (codes "example") (codes "dev") first_tools

-- A notification of ping.
abbrev ping : Request
ping = record { jsonrpc = codes "2.0"; id = []; method = codes "ping"; params = [] }

dispatch-answer_example :
    (((dispatch transport server (codes "ping") 0).0 ≡ none) ↔ IsSilent ping)
    × ((x : Response ℕ)
        → (dispatch transport server (codes "ping") 0).0 ≡ some x
        → x.id ≡ id_or_null [])
dispatch-answer_example = dispatch-answer transport server 0 (codes "ping") ping refl
