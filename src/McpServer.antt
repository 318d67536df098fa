-- ===== src/McpServer.antt =====
-- mcpserver/server.go: the JSON-RPC harness that hosts the tools of an extension. JSON itself is Go's
-- encoding/json, so its two decodings and its encoding are fields of a `Transport`; what crosses them
-- are the structs of the source. A handler changes the state `S` of its extension and may fail with
-- an error of the type `E`.
mod Runs
pub mod Dispatch
pub mod Register
pub mod Serve
use flynn_extensions.Prelude.{
  Bool, true, false, not, ◌||◌, ◌==◌, if◌then◌else◌, Option, none, some, List, [], ◌∷◌, ◌++◌,
  length, Bytes, codes, equal,
}
use flynn_extensions.Prelude.Result.{Result, ok, err}

-- `jsonRPCRequest`: a missing id or parameter object is empty.
pub record Request : Type 0 where
  pub jsonrpc : Bytes
  pub id : Bytes
  pub method : Bytes
  pub params : Bytes

-- The parameters of tools/call.
pub record Call : Type 0 where
  pub name : Bytes
  pub arguments : Bytes

-- What a client sees of a tool.
pub record ToolInfo : Type 0 where
  pub name : Bytes
  pub description : Bytes
  pub input_schema : Bytes

pub data Code : Type 0 where
  code_parse_error code_invalid_req code_method_missing code_invalid_params : Code

-- The error messages of the harness.
pub data Complaint : Type 0 where
  parse_error wrong_version invalid_params : Complaint
  unknown_method unknown_tool : Bytes → Complaint

module _ (E : Type 0) where
  -- The results that the methods of the harness make; `tool_error` is a result with `isError` set.
  pub data Body : Type 0 where
    initialized : Bytes → Bytes → Body
    tools_list : List ToolInfo → Body
    pong : Body
    tool_text : Bytes → Body
    tool_error : E → Body

  pub data Reply : Type 0 where
    result : Body → Reply
    failure : Code → Complaint → Reply

  pub record Response : Type 0 where
    pub id : Bytes
    pub reply : Reply

  -- What the harness uses of encoding/json and of bytes.
  pub record Transport : Type 0 where
    pub unmarshal_request : Bytes → Option Request
    pub unmarshal_call : Bytes → Option Call
    pub marshal_response : Response → Option Bytes
    pub trim_space : Bytes → Bytes

module _ (S E : Type 0) where
  pub record Tool : Type 0 where
    pub info : ToolInfo
    pub handler : Bytes → S → Result E Bytes × S

  pub record Server : Type 0 where
    pub name : Bytes
    pub version : Bytes
    pub order : List Bytes
    pub tools : List (Bytes × Tool)

-- `schema` of `listResult`.
abbrev pub default_schema : ToolInfo → ToolInfo
default_schema i = elim i.input_schema [
  | [] ↦ record i { input_schema = codes "{\"type\":\"object\"}" }
  | x ∷ xs ↦ i
]

-- `idOrNull`
unfoldable pub id_or_null : Bytes → Bytes
id_or_null [] = codes "null"
id_or_null (x ∷ xs) = x ∷ xs

module _ {E : Type 0} where
  unfoldable pub result_response : Bytes → Body E → Response E
  result_response id b = record { id = id_or_null id; reply = result b }

  unfoldable pub error_response : Bytes → Code → Complaint → Response E
  error_response id c m = record { id = id_or_null id; reply = failure c m }

  -- A tool error is a result, not a failure of the protocol.
  abbrev pub tool_content : Result E Bytes → Body E
  tool_content (ok out) = tool_text out
  tool_content (err e) = tool_error e

module _ {S E : Type 0} where
  -- Go's map, as an association list with one entry for each key.
  unfoldable pub lookup : Bytes → List (Bytes × Tool S E) → Option (Tool S E)
  lookup k [] = none
  lookup k ((j, t) ∷ m) = if equal j k then some t else lookup k m

  unfoldable pub put : Bytes → Tool S E → List (Bytes × Tool S E) → List (Bytes × Tool S E)
  put k t [] = (k, t) ∷ []
  put k t ((j, u) ∷ m) = if equal j k then (k, t) ∷ m else (j, u) ∷ put k t m

  abbrev pub new : Bytes → Bytes → Server S E
  new name version = record { name = name; version = version; order = []; tools = [] }

  unfoldable pub register : Server S E → Tool S E → Server S E
  register s t = record s {
    order = elim (lookup t.info.name s.tools) [
      | none ↦ s.order ++ t.info.name ∷ []
      | some u ↦ s.order
    ];
    tools = put t.info.name t s.tools;
  }

  -- The zero `Tool` that Go's map gives for a missing key.
  abbrev info_of : Option (Tool S E) → ToolInfo
  info_of none = record { name = []; description = []; input_schema = [] }
  info_of (some t) = t.info

  pub list_tools : List (Bytes × Tool S E) → List Bytes → List ToolInfo
  list_tools tools [] = []
  list_tools tools (n ∷ order) = default_schema (info_of (lookup n tools)) ∷ list_tools tools order

  unfoldable pub list_result : Server S E → List ToolInfo
  unfolding list_tools
  list_result s = list_tools s.tools s.order

module _ {S E : Type 0} (t : Transport E) where
  abbrev run_tool : Bytes → Bytes → Bytes → Option (Tool S E) → S → Option (Response E) × S
  run_tool id name arguments none st =
      (some (error_response id code_invalid_params (unknown_tool name)), st)
  run_tool id name arguments (some tool) st =
      let (out, st') = tool.handler arguments st in
      (some (result_response id (tool_content out)), st')

  abbrev call_with : Server S E → Bytes → Option Call → S → Option (Response E) × S
  call_with s id none st = (some (error_response id code_invalid_params invalid_params), st)
  call_with s id (some call) st = run_tool id call.name call.arguments (lookup call.name s.tools) st

  unfoldable pub call_result : Server S E → Bytes → Bytes → S → Option (Response E) × S
  call_result s id params st = call_with s id (t.unmarshal_call params) st

  -- The switch on the method of a request that claims version 2.0.
  unfoldable pub dispatch_method : Server S E → Request → S → Option (Response E) × S
  dispatch_method s req st =
      if equal req.method (codes "initialize")
      then (some (result_response req.id (initialized s.name s.version)), st)
      else if equal req.method (codes "tools/list")
      then (some (result_response req.id (tools_list (list_result s))), st)
      else if equal req.method (codes "tools/call")
      then call_result s req.id req.params st
      else if equal req.method (codes "ping")
      then (some (result_response req.id pong), st)
      else if equal req.method (codes "notifications/initialized")
          || equal req.method (codes "notifications/cancelled")
      then (none, st)
      else if length req.id == 0
      then (none, st)
      else (some (error_response req.id code_method_missing (unknown_method req.method)), st)

  unfoldable pub dispatch_request : Server S E → Request → S → Option (Response E) × S
  dispatch_request s req st =
      if not (equal req.jsonrpc (codes "2.0"))
      then (if length req.id == 0
          then (none, st)
          else (some (error_response req.id code_invalid_req wrong_version), st))
      else dispatch_method s req st

  -- `none` in the first place is the `false` of the source: no answer is sent.
  unfoldable pub dispatch : Server S E → Bytes → S → Option (Response E) × S
  dispatch s line st = elim (t.unmarshal_request line) [
    | none ↦ (some (error_response [] code_parse_error parse_error), st)
    | some req ↦ dispatch_request s req st
  ]
