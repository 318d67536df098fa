-- ===== src/Example/Runs.antt =====
-- A run of the example's server.
use flynn_extensions.Prelude.{◌≡◌, refl, false, true, some, [], ◌∷◌, codes, equal}
use flynn_extensions.McpServer.{
  Transport, result, tool_text, lookup, put, register, call_result, dispatch, dispatch_request,
  dispatch_method, result_response, id_or_null,
}
use flynn_extensions.McpServer.Serve.{framed, serve}
use flynn_extensions.Example.{EchoError, example_server}

-- A transport that reads every line as a call with the text "hi", and writes what a tool says.
abbrev transport : Transport EchoError
transport = record {
  unmarshal_request =
      λ line. some (record { jsonrpc = codes "2.0"; id = []; method = line; params = [] });
  unmarshal_call = λ params. some (record { name = codes "example_echo"; arguments = codes "hi" });
  marshal_response = λ r.
      some (elim r.reply [ result body ↦ elim body [ tool_text out ↦ out | _ ↦ [] ] | _ ↦ [] ]);
  trim_space = λ line. line;
}

echoes :
    (serve transport
      (example_server (λ t. some t) (codes "dev"))
      (record { cancelled = false; line = codes "tools/call"; writes = true } ∷ [])
      false
      tt).written
    ≡ framed (codes "echo: hi") ∷ []
unfolding serve dispatch dispatch_request dispatch_method call_result example_server lookup register
    put equal result_response id_or_null
echoes = refl
